-- ===== src/Vector/Update.antt =====
-- `updateWithNow` of lib/protocol/vector.go: what it writes, and that the result is newer.
use native.Mathlib.Decide.{ℕ_discrete}
use vidsync_app.Base.{ℕ, suc, ◌+◌, ◌%◌, ◌≤◌, ◌<◌, max, ◌≡◌, ◌≢◌, refl, [], ◌∷◌, arith}
use vidsync_app.Vector.{
  Vector, u64_mod, counter, update_with_now, Ordering, equal, greater, lesser, concurrent_lesser,
  concurrent_greater, compare,
}
use vidsync_app.Vector.Sorted.{From, IsSorted, From-mono, counter_below}
use vidsync_app.Vector.Rounds.{Below, Exceeds}
use vidsync_app.Vector.Order.{Meaning, compare-Meaning}

From-update : (k i now : ℕ) (v : Vector) → k ≤ i → From k v → From k (update_with_now v i now)
unfolding update_with_now
From-update k i now [] h s = (h, tt)
From-update k i now (c ∷ v) h s =
    ground (arith, From-update (suc c.id) i now v, From-mono (suc i) k v)

counter-update_self :
    (k i now : ℕ) (v : Vector)
    → From k v
    → counter (update_with_now v i now) i ≡ max ((counter v i + 1) % u64_mod) now
unfolding update_with_now counter
counter-update_self k i now [] s = ground arith
counter-update_self k i now (c ∷ v) s =
    ground (arith, counter-update_self (suc c.id) i now v s.1, counter_below (suc c.id) i v s.1)

counter-update_ne :
    (i j now : ℕ) (v : Vector) → j ≢ i → counter (update_with_now v i now) j ≡ counter v j
unfolding update_with_now counter
counter-update_ne i j now [] h = ground arith
counter-update_ne i j now (c ∷ v) h = ground (arith, counter-update_ne i j now v h)

-- On a vector in ID order `updateWithNow` keeps the order, sets the counter of the given ID to the
-- larger of the clock and its old value plus one in `uint64` (a missing counter counts as 0), and
-- leaves every other counter as it was.
pub update_lem :
    (v : Vector) (i now : ℕ)
    → IsSorted v
    → IsSorted (update_with_now v i now)
      × (counter (update_with_now v i now) i ≡ max ((counter v i + 1) % u64_mod) now)
      × ((j : ℕ) → j ≢ i → counter (update_with_now v i now) j ≡ counter v j)
update_lem v i now s = (
  From-update 0 i now v (omega arith) s,
  counter-update_self 0 i now v s,
  λ j h. counter-update_ne i j now v h,
)

Below-update :
    (v : Vector) (i now : ℕ)
    → IsSorted v
    → counter v i + 1 < u64_mod
    → Below v (update_with_now v i now)
Below-update v i now s h j = elim (ℕ_discrete j i) [
  | yes e ↦ rw e (omega (arith, counter-update_self 0 i now v s))
  | no n ↦ omega (arith, counter-update_ne i j now v n)
]

Exceeds-update :
    (v : Vector) (i now : ℕ)
    → IsSorted v
    → counter v i + 1 < u64_mod
    → Exceeds (update_with_now v i now) v
Exceeds-update v i now s h = (i, omega (arith, counter-update_self 0 i now v s))

only_greater : (v b : Vector) (o : Ordering) → Meaning v b o → Below b v → Exceeds v b → o ≡ greater
only_greater v b equal m h (i, lt) = absurd (omega (arith, m.0 i))
only_greater v b greater m h e = refl
only_greater v b lesser m h (i, lt) = absurd (omega (arith, m.0 i))
only_greater v b concurrent_lesser (m, (j, gt)) h e = absurd (omega (arith, h j))
only_greater v b concurrent_greater (m, (j, gt)) h e = absurd (omega (arith, h j))

-- An updated vector compares as greater than the one before, whatever the clock says, where the
-- counters of the vector are in the order of their IDs and the counter that is updated has not
-- reached the largest `uint64`.
pub compare-update :
    (v : Vector) (i now : ℕ)
    → IsSorted v
    → counter v i + 1 < u64_mod
    → compare (update_with_now v i now) v ≡ greater
compare-update v i now s h =
    only_greater (update_with_now v i now) v (compare (update_with_now v i now) v)
      (compare-Meaning (update_with_now v i now) v (From-update 0 i now v (omega arith) s) s)
      (Below-update v i now s h) (Exceeds-update v i now s h)
