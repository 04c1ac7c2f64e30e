-- ===== src/BufferPool/Buckets.antt =====
-- Which bucket of lib/protocol/bufferpool.go a size has.
use vidsync_app.Base.{
  ℕ, suc, ◌≤◌, ◌≡◌, ◌⊎◌, inl, inr, refl, List, [], ◌∷◌, none, some, get_elem?, Bool-cases, arith,
  pos, leb_ℤ,
}
use vidsync_app.FileInfo.Compare.{block_sizes}
use vidsync_app.BufferPool.{max_block_size, bucket_for_len}

-- Sizes that stand in the list from an index on, all of them large enough.
unfoldable pub Room : ℕ → ℕ → List ℕ → Type 0
Room size j [] = Unit {0}
Room size j (s ∷ ss) = (get_elem? block_sizes j ≡ some s) × ((size ≤ s) × Room size (suc j) ss)

-- Sizes in ascending order from an index on.
unfoldable pub Listed : ℕ → ℕ → List ℕ → Type 0
Listed low j [] = Unit {0}
Listed low j (s ∷ ss) = (get_elem? block_sizes j ≡ some s) × ((low ≤ s) × Listed s (suc j) ss)

pub block_sizes-Listed : Listed 0 0 block_sizes
unfolding Listed
block_sizes-Listed = (
  refl,
  (
    omega arith,
    (
      refl,
      (
        omega arith,
        (
          refl,
          (
            omega arith,
            (
              refl,
              (
                omega arith,
                (
                  refl,
                  (
                    omega arith,
                    (refl, (omega arith, (refl, (omega arith, (refl, (omega arith, tt)))))),
                  ),
                ),
              ),
            ),
          ),
        ),
      ),
    ),
  ),
)

Listed-Room : (size low j : ℕ) (ss : List ℕ) → size ≤ low → Listed low j ss → Room size j ss
unfolding Listed Room
Listed-Room size low j [] h l = tt
Listed-Room size low j (s ∷ ss) h l =
    (l.0, (omega (arith, l.1.0), Listed-Room size s (suc j) ss (omega (arith, l.1.0)) l.1.1))

-- The bucket that is found, if the largest size is large enough.
pub bucket_found :
    (size low j : ℕ) (ss : List ℕ)
    → Listed low j ss
    → (bucket_for_len ss j (pos size) ≡ none)
      ⊎ ((i s : ℕ) × (rest : List ℕ) × (bucket_for_len ss j (pos size) ≡ some (i, (s, rest)))
          × Room size i (s ∷ rest))
unfolding bucket_for_len Listed Room
bucket_found size low j [] l = inl refl
bucket_found size low j (s ∷ ss) l = elim (Bool-cases (leb_ℤ (pos size) (pos s))) [
  | inl h ↦
      let le : size ≤ s = ground (arith, h) in
      inr (j, s, ss, rw (h) refl, (l.0, (le, Listed-Room size s (suc j) ss le l.1.1)))
  | inr h ↦ elim (bucket_found size s (suc j) ss l.1.1) [
    | inl e ↦ inl (rw (h) e)
    | inr (i, t, rest, e, r) ↦ inr (i, t, rest, rw (h) e, r)
  ]
]

pub no_bucket :
    (size : ℕ) → size ≤ max_block_size → ¬ (bucket_for_len block_sizes 0 (pos size) ≡ none)
unfolding bucket_for_len
no_bucket size h e = absurd (ground (arith, h, e))
