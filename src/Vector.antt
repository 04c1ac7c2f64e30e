-- ===== src/Vector.antt =====
-- lib/protocol/vector.go: version vectors. A `Vector` is its one field, the slice of counters.
mod Tests
pub mod Sorted
pub mod Rounds
pub mod Order
pub mod Flip
pub mod Update
pub mod Merge
use vidsync_app.Base.{
  ℕ, ◌+◌, ◌%◌, ◌^◌, max, Bool, true, false, not, ◌&&◌, ◌||◌, List, [], ◌∷◌, ltb, leb, ◌==◌,
  if◌then◌else◌,
}

-- The sizes of Go's `uint64` and of a `ShortID`, which is one.
abbrev pub u64_mod : ℕ
u64_mod = 2 ^ 64

pub record Counter : Type 0 where
  pub id : ℕ
  pub value : ℕ

abbrev pub Vector : Type 0
Vector = List Counter

-- `v.Counter(id)`: a missing counter is 0.
unfoldable pub counter : Vector → ℕ → ℕ
counter [] i = 0
counter (c ∷ v) i = if c.id == i then c.value else counter v i

unfoldable pub is_empty : Vector → Bool
is_empty [] = true
is_empty (c ∷ v) = false

-- The loop of `updateWithNow`, over the counters from index `i` on.
unfoldable pub update_with_now : Vector → ℕ → ℕ → Vector
update_with_now [] i now = record { id = i; value = max 1 now } ∷ []
update_with_now (c ∷ v) i now =
    if c.id == i
    then record c { value = max ((c.value + 1) % u64_mod) now } ∷ v
    else if ltb i c.id
    then record { id = i; value = max 1 now } ∷ c ∷ v
    else c ∷ update_with_now v i now

-- The loop of `Merge`, over the counters from `vi` and from `bi` on. The two tests that follow an
-- insertion see the counter of `b`, so that both indices move on.
unfoldable pub merge : Vector → Vector → Vector
merge v [] = v
merge [] (b ∷ bs) = b ∷ bs
merge (a ∷ v) (b ∷ bs) = elim (ltb b.id a.id) [
  | true ↦ b ∷ merge (a ∷ v) bs
  | false ↦ elim (a.id == b.id) [
    | true ↦ (if ltb a.value b.value then record a { value = b.value } else a) ∷ merge v bs
    | false ↦ a ∷ merge v (b ∷ bs)
  ]
]

unfoldable pub drop_others : Vector → ℕ → Vector
drop_others [] i = []
drop_others (c ∷ v) i = if c.id == i then c ∷ [] else drop_others v i

pub data Ordering : Type 0 where
  equal greater lesser concurrent_lesser concurrent_greater : Ordering

-- What a round of `Compare` does: return at once, or go on with a new `result`.
pub data Round : Type 0 where
  return : Ordering → Round
  go_on : Ordering → Round

-- `a` holds the larger value in this round, or the smaller one.
unfoldable pub ahead : Ordering → Round
ahead lesser = return concurrent_lesser
ahead _ = go_on greater

unfoldable pub behind : Ordering → Round
behind greater = return concurrent_greater
behind _ = go_on lesser

-- The `switch`. A side that has run out is missing, and its counter is the zero `Counter{}`.
unfoldable pub judge : Counter → Bool → Counter → Bool → Ordering → Round
unfolding ahead behind
judge av a_missing bv b_missing result =
    if av.id == bv.id
    then (if ltb bv.value av.value
        then ahead result
        else if ltb av.value bv.value
        then behind result
        else go_on result)
    else if (not a_missing && ltb av.id bv.id) || b_missing
    then (if ltb 0 av.value then ahead result else go_on result)
    else if (not b_missing && ltb bv.id av.id) || a_missing
    then (if ltb 0 bv.value then behind result else go_on result)
    else go_on result

abbrev pub no_counter : Counter
no_counter = record { id = 0; value = 0 }

-- The loop of `Compare`, over the counters from `ai` and from `bi` on.
unfoldable pub compare_loop : Vector → Vector → Ordering → Ordering
unfolding judge
compare_loop [] [] result = result
compare_loop [] (b ∷ bs) result = elim (judge no_counter true b false result) [
  | return o ↦ o
  | go_on r ↦ compare_loop [] bs r
]
compare_loop (a ∷ v) [] result = elim (judge a false no_counter true result) [
  | return o ↦ o
  | go_on r ↦ compare_loop v [] r
]
compare_loop (a ∷ v) (b ∷ bs) result = elim (judge a false b false result) [
  | return o ↦ o
  | go_on r ↦ elim (leb a.id b.id) [
    | true ↦ elim (leb b.id a.id) [ true ↦ compare_loop v bs r | false ↦ compare_loop v (b ∷ bs) r ]
    | false ↦ compare_loop (a ∷ v) bs r
  ]
]

unfoldable pub compare : Vector → Vector → Ordering
unfolding compare_loop
compare v b = compare_loop v b equal

-- The convenience tests on the result.
abbrev pub is_equal : Ordering → Bool
is_equal equal = true
is_equal _ = false

abbrev pub is_lesser_equal : Ordering → Bool
is_lesser_equal lesser = true
is_lesser_equal equal = true
is_lesser_equal _ = false

abbrev pub is_greater_equal : Ordering → Bool
is_greater_equal greater = true
is_greater_equal equal = true
is_greater_equal _ = false

abbrev pub is_concurrent : Ordering → Bool
is_concurrent concurrent_greater = true
is_concurrent concurrent_lesser = true
is_concurrent _ = false

unfoldable pub equal_to : Vector → Vector → Bool
equal_to v b = is_equal (compare v b)

unfoldable pub lesser_equal : Vector → Vector → Bool
lesser_equal v b = is_lesser_equal (compare v b)

unfoldable pub greater_equal : Vector → Vector → Bool
greater_equal v b = is_greater_equal (compare v b)

unfoldable pub concurrent : Vector → Vector → Bool
concurrent v b = is_concurrent (compare v b)
