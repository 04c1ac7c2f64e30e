-- ===== src/Vector/Sorted.antt =====
-- The order of a vector's counters: every operation of lib/protocol/vector.go expects and keeps the
-- counters strictly ascending by ID.
use vidsync_app.Base.{ℕ, suc, ◌≤◌, ◌<◌, ◌≡◌, refl, [], ◌∷◌, arith}
use vidsync_app.Vector.{Vector, counter}

-- The IDs ascend strictly, from `k` on.
abbrev pub From : ℕ → Vector → Type 0
From k [] = Unit {0}
From k (c ∷ v) = (k ≤ c.id) × From (suc c.id) v

abbrev pub IsSorted : Vector → Type 0
IsSorted v = From 0 v

pub From-mono : (j k : ℕ) (v : Vector) → j ≤ k → From k v → From j v
From-mono j k [] h s = tt
From-mono j k (c ∷ v) h s = (omega arith, s.1)

pub counter_below : (k i : ℕ) (v : Vector) → From k v → i < k → counter v i ≡ 0
unfolding counter
counter_below k i [] s h = refl
counter_below k i (c ∷ v) s h = ground (arith, counter_below (suc c.id) i v s.1)

pub counter-cons_self : (i x : ℕ) (v : Vector) → counter (record { id = i; value = x } ∷ v) i ≡ x
unfolding counter
counter-cons_self i x v = ground arith
