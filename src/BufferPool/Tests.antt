-- ===== src/BufferPool/Tests.antt =====
-- Runs of lib/protocol/bufferpool.go, and the theorem at such an input.
use vidsync_app.Base.{
  ℕ, pos, ◌<ℤ◌, ◌⊎◌, ◌≡◌, refl, List, [], ◌∷◌, Option, none, some, All, ap, sym, ◌∙◌, arith, subst,
}
use vidsync_app.BufferPool.{
  Slice, BufferPool, new_buffer_pool, get, put, bucket_for_len, bucket_for_cap, search, allocate,
  slice,
}
use vidsync_app.BufferPool.Reuse.{HandsOut, Pooled, FitsIn, get-put, new_buffer_pool-Pooled}

-- The buffer that was put last.
abbrev last_put : List ℕ → Option (ℕ × List ℕ)
last_put [] = none
last_put (c ∷ cs) = some (c, cs)

abbrev first_of : ℕ × List ℕ → Option (ℕ × List ℕ) → ℕ × List ℕ
first_of d none = d
first_of d (some r) = r

last_put-HandsOut : HandsOut last_put
last_put-HandsOut s c [] ys e h = absurd (ground arith)
last_put-HandsOut s c (x ∷ xs) ys e h =
    let q : (x, xs) ≡ (c, ys) = ap (first_of (c, ys)) e in
    (sym (ap (λ r. r.0) q) ∙ h.0, subst (All (λ k. k ≡ s)) (ap (λ r. r.1) q) h.1)

abbrev allocated : Slice
allocated = record { len = 200000; cap = 262144 }

misses_first :
    get last_put new_buffer_pool (pos 200000)
    ≡ some (record new_buffer_pool { misses = 1 }, allocated)
unfolding get new_buffer_pool bucket_for_len search allocate slice
misses_first = refl

rejects_odd : put new_buffer_pool (record { len = 5; cap = 200000 }) ≡ none
unfolding put bucket_for_cap
rejects_odd = refl

get-put_example :
    (pos 200000 <ℤ pos 0) × (get last_put new_buffer_pool (pos 200000) ≡ none)
    ⊎ (n : ℕ) × (pos 200000 ≡ pos n)
      × (r : BufferPool × Slice) × (get last_put new_buffer_pool (pos 200000) ≡ some r)
      × FitsIn n r
      × ((q : BufferPool) × (put r.0 r.1 ≡ some q) × Pooled q)
get-put_example =
    get-put last_put new_buffer_pool (pos 200000) last_put-HandsOut new_buffer_pool-Pooled
