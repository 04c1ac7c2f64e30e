-- ===== src/Staggered.antt =====
-- lib/versioner/staggered.go: which archived versions of a file are removed.
mod Tests
pub mod Ages
pub mod Sorted
pub mod Spaced
use vidsync_app.Base.{
  ℕ, ◌+◌, ◌/◌, Bool, true, false, ◌&&◌, List, [], ◌∷◌, Option, none, some, if◌then◌else◌, ℤ, pos,
  negsuc, ◌-ℤ◌, ltb_ℤ,
}
use vidsync_app.DeviceId.Text.{Bytes}
use vidsync_app.Upgrade.{text_less}
use vidsync_app.PullerState.{quotient}

pub record Interval : Type 0 where
  pub step : ℤ
  pub end : ℤ

-- The four intervals of `newStaggered`, in seconds; the last one ends at the largest age.
abbrev pub intervals : ℤ → List Interval
intervals max_age =
    record { step = pos 30; end = pos 3600 }
    ∷ record { step = pos 3600; end = pos 86400 }
    ∷ record { step = pos 86400; end = pos 2592000 }
    ∷ record { step = pos 604800; end = max_age }
    ∷ []

-- `slices.Sort` of strings.
unfoldable pub insert : Bytes → List Bytes → List Bytes
unfolding text_less
insert v [] = v ∷ []
insert v (w ∷ ws) = let rest = insert v ws in if text_less w v then w ∷ rest else v ∷ (w ∷ ws)

unfoldable pub sort : List Bytes → List Bytes
unfolding insert
sort [] = []
sort (v ∷ vs) = insert v (sort vs)

-- The end of the last interval.
unfoldable pub last_end : List Interval → ℤ
last_end [] = pos 0
last_end (i ∷ []) = i.end
last_end (i ∷ (j ∷ is)) = last_end (j ∷ is)

-- The step of the interval that the age fits in, or of the last one.
unfoldable pub used_step : ℤ → List Interval → ℤ → ℤ
used_step age [] step = step
used_step age (i ∷ is) step =
    let rest = used_step age is i.step in if ltb_ℤ age i.end then i.step else rest

-- What is done with a version: it is passed over, removed, or kept.
pub data Verdict : Type 0 where
  ignored removed : Verdict
  kept : (age : ℤ) → Verdict

unfoldable pub too_old : List Interval → ℤ → Bool
unfolding last_end
too_old is age = ltb_ℤ (pos 0) (last_end is) && ltb_ℤ (last_end is) age

-- A version of this age; the option is the age of the version kept before.
unfoldable pub judge_age : List Interval → Option ℤ → ℤ → Verdict
unfolding used_step too_old
judge_age is prev age = if too_old is age then removed else elim prev [
  | none ↦ kept age
  | some p ↦ if ltb_ℤ (p -ℤ age) (used_step age is (pos 0)) then removed else kept age
]

-- The time of a version, read from its name, is a parameter: nanoseconds, or none for a name without
-- a valid time. `now.Sub(t).Seconds()` as an `int64`.
unfoldable pub age_at : ℤ → ℤ → ℤ
age_at now time = quotient (now -ℤ time) 1000000000

module _ (parse : Bytes → Option ℤ) (is : List Interval) (now : ℤ) where
  unfoldable pub judge : Option ℤ → Bytes → Verdict
  unfolding judge_age age_at
  judge prev v = elim (parse v) [ none ↦ ignored | some t ↦ judge_age is prev (age_at now t) ]

  -- The loop.
  unfoldable pub remove_from : Option ℤ → List Bytes → List Bytes
  unfolding judge
  remove_from prev [] = []
  remove_from prev (v ∷ vs) = elim (judge prev v) [
    | ignored ↦ remove_from prev vs
    | removed ↦ v ∷ remove_from prev vs
    | kept age ↦ remove_from (some age) vs
  ]

  unfoldable pub to_remove : List Bytes → List Bytes
  unfolding sort remove_from
  to_remove versions = remove_from none (sort versions)
