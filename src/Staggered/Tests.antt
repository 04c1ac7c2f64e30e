-- ===== src/Staggered/Tests.antt =====
-- Runs of lib/versioner/staggered.go, and the theorem at such an input.
use mathlib.Core.List.{Permᴰ}
use vidsync_app.Base.{◌*◌, ◌≡◌, refl, List, [], ◌∷◌, Option, none, some, ℤ, pos, ◌-ℤ◌}
use vidsync_app.DeviceId.Text.{Bytes}
use vidsync_app.Upgrade.{text_less}
use vidsync_app.Staggered.{
  Interval, intervals, to_remove, sort, insert, remove_from, judge, judge_age, used_step, too_old,
  last_end, age_at,
}
use vidsync_app.Staggered.Spaced.{Sifted, to_remove-Sifted}
use vidsync_app.Staggered.Sorted.{Ascending}

-- A version is named by its second.
abbrev second : Bytes → Option ℤ
second [] = none
second (c ∷ s) = some (pos (c * 1000000000))

abbrev year : List Interval
year = intervals (pos 31536000)

abbrev four : List Bytes
four = (140 ∷ []) ∷ (100 ∷ []) ∷ (110 ∷ []) ∷ [] ∷ []

-- Second 110 is too close to 100, and 140 is not.
removes_one : to_remove second year (pos 200000000000) four ≡ (110 ∷ []) ∷ []
unfolding to_remove sort insert text_less remove_from judge judge_age used_step too_old last_end
    age_at ◌-ℤ◌
removes_one = refl

to_remove-Sifted_example :
    Permᴰ four (sort four)
    × Ascending (sort four)
    × ((ks : List Bytes) × Sifted second
          (pos 31536000)
          (pos 200000000000)
          none
          (sort four)
          (to_remove second (intervals (pos 31536000)) (pos 200000000000) four)
          ks)
to_remove-Sifted_example = to_remove-Sifted second (pos 31536000) (pos 200000000000) four
