-- ===== src/BufferPool/Reuse.antt =====
-- That the buffers of lib/protocol/bufferpool.go fit, and can be put back.
use vidsync_app.Base.{
  ℕ, zero, suc, ◌≤◌, ◌<◌, ◌≡◌, ◌⊎◌, inl, inr, refl, sym, subst, ap, ◌∙◌, true, ◌||◌, List, [], ◌∷◌,
  Option, none, some, ltb, leb, ◌==◌, ==_iff, get_elem?, All, Bool-cases, Option-cases, arith, ℤ,
  pos, negsuc, ◌<ℤ◌, ltb_ℤ,
}
use vidsync_app.FileInfo.Compare.{block_sizes}
use vidsync_app.BufferPool.{
  max_block_size, min_block_size, Slice, BufferPool, set, new_buffer_pool, bucket_for_cap, search,
  allocate, get, put, slice,
}
use vidsync_app.BufferPool.Buckets.{Room, Listed, block_sizes-Listed, bucket_found, no_bucket}
use vidsync_app.BufferPool.Negative.{get-negative}

-- What a `sync.Pool` promises: what it hands out, and what it keeps, was put into it.
abbrev pub HandsOut : (List ℕ → Option (ℕ × List ℕ)) → Type 0
HandsOut take =
    (s c : ℕ) (xs ys : List ℕ)
    → take xs ≡ some (c, ys)
    → All (λ k. k ≡ s) xs
    → (c ≡ s) × All (λ k. k ≡ s) ys

-- Each bucket holds buffers of its block size only.
abbrev pub Pooled : BufferPool → Type 0
Pooled p = (j s : ℕ) → get_elem? block_sizes j ≡ some s → All (λ k. k ≡ s) (p.pools j)

-- A capacity that `Put` takes without a panic: a block size, or one outside the range of the pools.
abbrev pub Returnable : ℕ → Type 0
Returnable c =
    ((j : ℕ) × (get_elem? block_sizes j ≡ some c)) ⊎ ((max_block_size < c) ⊎ (c < min_block_size))

-- A slice of this size that fits its buffer and can be put back, and a pool that is still in order.
pub record FitsIn (size : ℕ) (r : BufferPool × Slice) : Type 0 where
  pub len : r.1.len ≡ size
  pub fits : size ≤ r.1.cap
  pub back : Returnable r.1.cap
  pub pooled : Pooled r.0

some_inj : {a b : ℕ} → some a ≡ some b → a ≡ b
some_inj e = ground arith

-- A bucket that gets other buffers of its size.
set-Pooled :
    (f : ℕ → List ℕ) (j s : ℕ) (xs : List ℕ)
    → ((i t : ℕ) → get_elem? block_sizes i ≡ some t → All (λ k. k ≡ t) (f i))
    → get_elem? block_sizes j ≡ some s
    → All (λ k. k ≡ s) xs
    → (i t : ℕ) → get_elem? block_sizes i ≡ some t
    → All (λ k. k ≡ t) (set f j xs i)
set-Pooled f j s xs w e h i t q = elim (Bool-cases (i == j)) [
  | inr n ↦ rw (n) (w i t q)
  | inl n ↦
      let ij : i ≡ j = (==_iff i j).0 n in
      let st : s ≡ t = some_inj (sym e ∙ ap (get_elem? block_sizes) (sym ij) ∙ q) in
      rw (n) (subst (λ u. All (λ k. k ≡ u) xs) st h)
]

module _ (take : List ℕ → Option (ℕ × List ℕ)) (law : HandsOut take) (p : BufferPool) (size : ℕ)
    (w : Pooled p) where
  abbrev Found : Option (Option (BufferPool × Slice)) → Type 0
  Found o = (o ≡ some none) ⊎ ((r : BufferPool × Slice) × (o ≡ some (some r)) × FitsIn size r)

  -- A buffer of the bucket `j`, taken out of it.
  abbrev taken : ℕ → ℕ → List ℕ → BufferPool × Slice
  taken j c rest = (
    record p { pools = set p.pools j rest; hits = set p.hits j (suc (p.hits j)) },
    record { len = size; cap = c },
  )

  taken-Fits :
      (j s c : ℕ) (rest : List ℕ)
      → get_elem? block_sizes j ≡ some s
      → size ≤ s
      → take (p.pools j) ≡ some (c, rest)
      → (leb size c ≡ true) × FitsIn size (taken j c rest)
  taken-Fits j s c rest e l t =
      let (q, k) = law s c (p.pools j) rest t (w j s e) in
      let le : size ≤ c = subst (λ x. size ≤ x) (sym q) l in
      (
        ground (arith, le),
        record {
          len = refl;
          fits = le;
          back = inl (j, e ∙ ap some (sym q));
          pooled = set-Pooled p.pools j s rest w e k;
        },
      )

  search-Found :
      (j s : ℕ) (ss : List ℕ) → Room size j (s ∷ ss) → Found (search take p (pos size) j ss)
  unfolding search slice Room
  search-Found j s [] m = elim (Option-cases (take (p.pools j))) [
    | inl e ↦ inl (rw (e, search) refl)
    | inr ((c, rest), e) ↦
        let (b, f) = taken-Fits j s c rest m.0 m.1.0 e in
        inr (taken j c rest, rw (e, search) (rw (b) refl), f)
  ]
  search-Found j s (u ∷ ss) m = elim (Option-cases (take (p.pools j))) [
    | inl e ↦ rw (e, search) (search-Found (suc j) u ss m.1.1)
    | inr ((c, rest), e) ↦
        let (b, f) = taken-Fits j s c rest m.0 m.1.0 e in
        inr (taken j c rest, rw (e, search) (rw (b) refl), f)
  ]

  allocate-Fits :
      (j s : ℕ)
      → get_elem? block_sizes j ≡ some s
      → size ≤ s
      → (r : BufferPool × Slice) × (allocate take p (pos size) s ≡ some r) × FitsIn size r
  unfolding allocate slice
  allocate-Fits j s e l = elim (Bool-cases (ltb_ℤ (pos size) (pos 2048))) [
    | inl h ↦ (
      (record p { misses = suc p.misses }, record { len = size; cap = size }),
      rw (h, allocate) refl,
      record { len = refl; fits = omega arith; back = inr (inr (ground (arith, h))); pooled = w },
    )
    | inr h ↦
        let fits : leb size s ≡ true = ground (arith, l) in
        (
          (record p { misses = suc p.misses }, record { len = size; cap = s }),
          rw (h, allocate) (rw (fits) refl),
          record { len = refl; fits = l; back = inl (j, e); pooled = w },
        )
  ]

  get-Fits : (r : BufferPool × Slice) × (get take p (pos size) ≡ some r) × FitsIn size r
  unfolding get Room
  get-Fits = elim (Bool-cases (ltb_ℤ (pos max_block_size) (pos size))) [
    | inl h ↦ (
      (record p { skips = suc p.skips }, record { len = size; cap = size }),
      rw (h, get) refl,
      record { len = refl; fits = omega arith; back = inr (inl (ground (arith, h))); pooled = w },
    )
    | inr h ↦ elim (bucket_found size 0 0 block_sizes block_sizes-Listed) [
      | inl e ↦ absurd (no_bucket size (ground (arith, h)) e)
      | inr (i, s, rest, e, m) ↦ elim (search-Found i s rest m) [
        | inl q ↦
            let (r, a, f) = allocate-Fits i s m.0 m.1.0 in (r, rw (h, get) (rw (e) (rw (q) a)), f)
        | inr (r, q, f) ↦ (r, rw (h, get) (rw (e) (rw (q) refl)), f)
      ]
    ]
  ]

-- The bucket of a capacity that is a block size.
cap_found :
    (c low j k : ℕ) (ss : List ℕ)
    → Listed low j ss
    → get_elem? ss k ≡ some c
    → (i : ℕ) × (bucket_for_cap ss j c ≡ some i) × (get_elem? block_sizes i ≡ some c)
unfolding bucket_for_cap Listed
cap_found c low j k [] l e = absurd (ground arith)
cap_found c low j zero (s ∷ ss) l e =
    let q : c ≡ s = some_inj (sym e) in (j, rw (q) (ground arith), l.0 ∙ ap some (sym q))
cap_found c low j (suc k) (s ∷ ss) l e = elim (Bool-cases (c == s)) [
  | inl h ↦ (j, rw (h) refl, l.0 ∙ ap some (sym ((==_iff c s).0 h)))
  | inr h ↦ let (i, b, q) = cap_found c s (suc j) k ss l.1.1 e in (i, rw (h) b, q)
]

put-Pooled :
    (p : BufferPool) (bs : Slice)
    → Pooled p
    → Returnable bs.cap
    → (q : BufferPool) × (put p bs ≡ some q) × Pooled q
unfolding put
put-Pooled p bs w r = elim (Bool-cases (ltb max_block_size bs.cap || ltb bs.cap min_block_size)) [
  | inl h ↦ (record p { skips = suc p.skips }, rw (h, put) refl, w)
  | inr h ↦ elim r [
    | inr o ↦ absurd (ground (arith, h, o))
    | inl (j, e) ↦
        let (i, b, q) = cap_found bs.cap 0 0 j block_sizes block_sizes-Listed e in
        (
          record p { puts = suc p.puts; pools = set p.pools i (bs.cap ∷ p.pools i) },
          rw (h, put) (rw (b) refl),
          set-Pooled p.pools i bs.cap (bs.cap ∷ p.pools i) w q (refl, w i bs.cap q),
        )
  ]
]

-- From a pool whose buckets hold buffers of their block size only, where a `sync.Pool` hands out and
-- keeps nothing but what was put in: for a negative size `Get` panics. For every other size it gives,
-- without a panic, a slice of that length that fits its buffer; and when that slice is put back,
-- `Put` does not panic. The buckets hold buffers of their size only after both.
pub get-put :
    (take : List ℕ → Option (ℕ × List ℕ)) (p : BufferPool) (size : ℤ)
    → HandsOut take
    → Pooled p
    → (size <ℤ pos 0) × (get take p size ≡ none)
      ⊎ (n : ℕ) × (size ≡ pos n)
        × (r : BufferPool × Slice) × (get take p size ≡ some r)
        × FitsIn n r
        × ((q : BufferPool) × (put r.0 r.1 ≡ some q) × Pooled q)
get-put take p (negsuc n) law w = inl (omega arith, get-negative take p n)
get-put take p (pos n) law w =
    let (r, e, f) = get-Fits take law p n w in
    inr (n, refl, r, e, f, put-Pooled r.0 r.1 f.pooled f.back)

pub new_buffer_pool-Pooled : Pooled new_buffer_pool
unfolding new_buffer_pool
new_buffer_pool-Pooled j s e = tt
