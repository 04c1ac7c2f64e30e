-- ===== src/BufferPool/Negative.antt =====
-- What `Get` of lib/protocol/bufferpool.go does with a negative size.
use vidsync_app.Base.{
  ℕ, suc, ◌≡◌, ◌⊎◌, inl, inr, refl, true, false, List, [], ◌∷◌, Option, none, some, Option-cases,
  arith, pos, negsuc, ltb_ℤ, leb_ℤ,
}
use vidsync_app.FileInfo.Compare.{block_sizes}
use vidsync_app.BufferPool.{
  max_block_size, min_block_size, BufferPool, bucket_for_len, search, allocate, get, slice,
}

search-negative :
    (take : List ℕ → Option (ℕ × List ℕ)) (p : BufferPool) (n j : ℕ) (ss : List ℕ)
    → (search take p (negsuc n) j ss ≡ none) ⊎ (search take p (negsuc n) j ss ≡ some none)
unfolding search slice
search-negative take p n j [] = elim (Option-cases (take (p.pools j))) [
  | inl e ↦ inr (rw (e, search) refl)
  | inr (r, e) ↦ inl (rw (e, search) refl)
]
search-negative take p n j (s ∷ ss) = elim (Option-cases (take (p.pools j))) [
  | inl e ↦ rw (e, search) (search-negative take p n (suc j) ss)
  | inr (r, e) ↦ inl (rw (e, search) refl)
]

-- The sizes behind the least one, which is the bucket of every negative size.
abbrev larger : List ℕ
larger = 262144 ∷ 524288 ∷ 1048576 ∷ 2097152 ∷ 4194304 ∷ 8388608 ∷ 16777216 ∷ []

first_bucket :
    (n : ℕ) → bucket_for_len block_sizes 0 (negsuc n) ≡ some (0, (min_block_size, larger))
unfolding bucket_for_len
first_bucket n = let h : leb_ℤ (negsuc n) (pos min_block_size) ≡ true = ground arith in rw (h) refl

allocate-negative :
    (take : List ℕ → Option (ℕ × List ℕ)) (p : BufferPool) (n s : ℕ)
    → allocate take p (negsuc n) s ≡ none
unfolding allocate slice
allocate-negative take p n s =
    let h : ltb_ℤ (negsuc n) (pos 2048) ≡ true = ground arith in rw (h, allocate) refl

pub get-negative :
    (take : List ℕ → Option (ℕ × List ℕ)) (p : BufferPool) (n : ℕ) → get take p (negsuc n) ≡ none
unfolding get
get-negative take p n =
    let h : ltb_ℤ (pos max_block_size) (negsuc n) ≡ false = ground arith in
    elim (search-negative take p n 0 larger) [
      | inl e ↦ rw (h, get) (rw (first_bucket n) (rw (e) refl))
      | inr e ↦
          rw (h, get) (rw (first_bucket n) (rw (e) (allocate-negative take p n min_block_size)))
    ]
