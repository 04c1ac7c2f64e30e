-- ===== src/BufferPool.antt =====
-- lib/protocol/bufferpool.go: buffers by size, used again.
mod Tests
pub mod Buckets
pub mod Negative
pub mod Reuse
use vidsync_app.Base.{
  ℕ, suc, ◌+◌, Bool, true, false, ◌||◌, List, [], ◌∷◌, Option, none, some, if◌then◌else◌, ltb, leb,
  ◌==◌, ℤ, pos, negsuc, ltb_ℤ, leb_ℤ,
}
use vidsync_app.FileInfo.Compare.{block_sizes}

abbrev pub max_block_size : ℕ
max_block_size = 16777216

abbrev pub min_block_size : ℕ
min_block_size = 131072

-- A `[]byte`, by its length and its capacity.
pub record Slice : Type 0 where
  pub len : ℕ
  pub cap : ℕ

-- Each bucket holds the capacities of its buffers.
pub record BufferPool : Type 0 where
  pub puts : ℕ
  pub skips : ℕ
  pub misses : ℕ
  pub pools : ℕ → List ℕ
  pub hits : ℕ → ℕ

abbrev pub set {ℓ} : {A : Type ℓ} → (ℕ → A) → ℕ → A → ℕ → A
set f k a j = if j == k then a else f j

unfoldable pub new_buffer_pool : BufferPool
new_buffer_pool = record { puts = 0; skips = 0; misses = 0; pools = λ j. []; hits = λ j. 0 }

-- `bs[:size]` of a buffer with this capacity, and `make([]byte, size)`; none is the panic, on a
-- negative size or one beyond the capacity.
unfoldable pub slice : ℤ → ℕ → Option Slice
slice (pos n) c = if leb n c then some (record { len = n; cap = c }) else none
slice (negsuc n) c = none

abbrev pub make : ℤ → Option Slice
make (pos n) = some (record { len = n; cap = n })
make (negsuc n) = none

-- The pool after a call that did not panic.
abbrev pub with_slice : BufferPool → Option Slice → Option (BufferPool × Slice)
with_slice p none = none
with_slice p (some bs) = some (p, bs)

-- A buffer that was taken out of the bucket `j`, and what is left of it.
abbrev pub hit : BufferPool → ℕ → List ℕ → Option Slice → Option (Option (BufferPool × Slice))
hit p j rest none = none
hit p j rest (some bs) =
    some (some (record p { pools = set p.pools j rest; hits = set p.hits j (suc (p.hits j)) }, bs))

-- `getBucketForLen`: the index, with the block sizes from there on; none is the panic.
unfoldable pub bucket_for_len : List ℕ → ℕ → ℤ → Option (ℕ × (ℕ × List ℕ))
bucket_for_len [] j len = none
bucket_for_len (s ∷ ss) j len =
    let rest = bucket_for_len ss (suc j) len in
    if leb_ℤ len (pos s) then some (j, (s, ss)) else rest

unfoldable pub bucket_for_cap : List ℕ → ℕ → ℕ → Option ℕ
bucket_for_cap [] j cap = none
bucket_for_cap (s ∷ ss) j cap =
    let rest = bucket_for_cap ss (suc j) cap in if cap == s then some j else rest

-- `Get` of a `sync.Pool` is a parameter: it takes some buffer, or none, and may lose others.
module _ (take : List ℕ → Option (ℕ × List ℕ)) where
  -- A bucket with its index and the sizes of those behind it. The result is none for the panic of
  -- `bs[:size]`, and some none if all are empty.
  unfoldable pub search : BufferPool → ℤ → ℕ → List ℕ → Option (Option (BufferPool × Slice))
  unfolding slice
  search p size j [] = elim (take (p.pools j)) [
    | none ↦ some none
    | some (c, rest) ↦ hit p j rest (slice size c)
  ]
  search p size j (s ∷ ss) = elim (take (p.pools j)) [
    | none ↦ search p size (suc j) ss
    | some (c, rest) ↦ hit p j rest (slice size c)
  ]

  -- When all are empty: the size of the bucket, or a small buffer.
  unfoldable pub allocate : BufferPool → ℤ → ℕ → Option (BufferPool × Slice)
  unfolding slice
  allocate p size bucket_size =
      let q = record p { misses = suc p.misses } in
      if ltb_ℤ size (pos 2048)
      then with_slice q (make size)
      else with_slice q (slice size bucket_size)

  unfoldable pub get : BufferPool → ℤ → Option (BufferPool × Slice)
  unfolding bucket_for_len search allocate
  get p size =
      if ltb_ℤ (pos max_block_size) size
      then with_slice (record p { skips = suc p.skips }) (make size)
      else elim (bucket_for_len block_sizes 0 size) [
        | none ↦ none
        | some (j, (s, ss)) ↦ elim (search p size j ss) [
          | none ↦ none
          | some (some r) ↦ some r
          | some none ↦ allocate p size s
        ]
      ]

unfoldable pub put : BufferPool → Slice → Option BufferPool
unfolding bucket_for_cap
put p bs =
    if ltb max_block_size bs.cap || ltb bs.cap min_block_size
    then some (record p { skips = suc p.skips })
    else elim (bucket_for_cap block_sizes 0 bs.cap) [
      | none ↦ none
      | some j ↦ some (record p { puts = suc p.puts; pools = set p.pools j (bs.cap ∷ p.pools j) })
    ]
