-- ===== src/Vector/Merge.antt =====
-- `Merge` of lib/protocol/vector.go is the pointwise maximum, the least vector above both.
use vidsync_app.Base.{ℕ, suc, max, ◌≡◌, true, [], ◌∷◌, arith, if◌then◌else◌, ◌==◌}
use vidsync_app.Vector.{Vector, counter, merge, drop_others, lesser_equal}
use vidsync_app.Vector.Sorted.{From, IsSorted, counter_below}
use vidsync_app.Vector.Rounds.{Below}
use vidsync_app.Vector.Order.{lesser_equal_iff}

From-merge : (k : ℕ) (v b : Vector) → From k v → From k b → From k (merge v b)
unfolding merge
From-merge k [] [] sv sb = tt
From-merge k (a ∷ v) [] sv sb = sv
From-merge k [] (c ∷ b) sv sb = sb
From-merge k (a ∷ v) (c ∷ b) sv sb = ground (
  arith,
  From-merge (suc c.id) (a ∷ v) b,
  From-merge (suc a.id) v b,
  From-merge (suc a.id) v (c ∷ b),
)

counter-merge :
    (j k i : ℕ) (v b : Vector)
    → From j v
    → From k b
    → counter (merge v b) i ≡ max (counter v i) (counter b i)
unfolding merge counter
counter-merge j k i [] [] sv sb = omega arith
counter-merge j k i (a ∷ v) [] sv sb = ground arith
counter-merge j k i [] (c ∷ b) sv sb = ground arith
counter-merge j k i (a ∷ v) (c ∷ b) sv sb = ground (
  arith,
  counter-merge j (suc c.id) i (a ∷ v) b sv sb.1,
  counter-merge (suc a.id) (suc c.id) i v b sv.1 sb.1,
  counter-merge (suc a.id) k i v (c ∷ b) sv.1 sb,
  counter_below (suc a.id) i v sv.1,
  counter_below (suc c.id) i b sb.1,
)

-- On vectors in ID order `Merge` keeps the order, and each counter of the result is the larger of
-- the two counters.
pub merge_lem :
    (v b : Vector)
    → IsSorted v
    → IsSorted b
    → IsSorted (merge v b) × ((i : ℕ) → counter (merge v b) i ≡ max (counter v i) (counter b i))
merge_lem v b sv sb = (From-merge 0 v b sv sb, λ i. counter-merge 0 0 i v b sv sb)

merge-upper : (v b : Vector) → IsSorted v → IsSorted b → Below v (merge v b) × Below b (merge v b)
merge-upper v b sv sb = (
  λ i. omega (arith, counter-merge 0 0 i v b sv sb),
  λ i. omega (arith, counter-merge 0 0 i v b sv sb),
)

merge-least :
    (v b u : Vector) → IsSorted v → IsSorted b → Below v u → Below b u → Below (merge v b) u
merge-least v b u sv sb hv hb i = omega (arith, counter-merge 0 0 i v b sv sb, hv i, hb i)

-- Under `LesserEqual` the merge of two vectors in ID order is above both of them, and below every
-- vector in ID order that is above both.
pub merge_is_lub :
    (v b u : Vector)
    → IsSorted v
    → IsSorted b
    → IsSorted u
    → (lesser_equal v (merge v b) ≡ true)
      × (lesser_equal b (merge v b) ≡ true)
      × (lesser_equal v u ≡ true → lesser_equal b u ≡ true → lesser_equal (merge v b) u ≡ true)
merge_is_lub v b u sv sb su =
    let sm = From-merge 0 v b sv sb in
    let up = merge-upper v b sv sb in
    (
      (lesser_equal_iff v (merge v b) sv sm).1 up.0,
      (lesser_equal_iff b (merge v b) sb sm).1 up.1,
      λ hv hb. (lesser_equal_iff (merge v b) u sm su).1 (
          merge-least v b u sv sb ((lesser_equal_iff v u sv su).0 hv)
            ((lesser_equal_iff b u sb su).0 hb)),
    )

-- `DropOthers` keeps the counter of the given ID and makes every other one 0.
pub counter-drop_others :
    (v : Vector) (i j : ℕ) → counter (drop_others v i) j ≡ (if i == j then counter v i else 0)
unfolding drop_others counter
counter-drop_others [] i j = ground arith
counter-drop_others (c ∷ v) i j = ground (arith, counter-drop_others v i j)
