-- ===== src/Semaphore/Tests.antt =====
-- Runs of lib/semaphore/semaphore.go, and the theorems at such inputs.
use vidsync_app.Semaphore.Multi.{OptionValid, multi_take, took_all, multi_give, multi_give-take}
use vidsync_app.Base.{
  List, Bool, Option, none, some, map, All, ◌≡◌, refl, false, [], ◌∷◌, arith, pos, negsuc, ◌-ℤ◌,
}
use vidsync_app.Semaphore.{Semaphore, new, wait, taken, attempt}
use vidsync_app.Semaphore.Bounds.{IsValid, new-IsValid}
use vidsync_app.Semaphore.Balance.{
  System, Reach, here, next, take, start, Balanced, AllSized, Reach-Balanced,
}

abbrev two_left : Semaphore
two_left = record { max = pos 4; available = pos 2 }

abbrev none_left : Semaphore
none_left = record { max = pos 4; available = pos 0 }

two_left-IsValid : IsValid two_left
two_left-IsValid = record { nonneg = omega arith; bounded = omega arith }

oversized_waits : attempt false two_left (pos 9) ≡ wait
unfolding attempt
oversized_waits = refl

takes_two : attempt false two_left (pos 2) ≡ taken none_left
unfolding attempt ◌-ℤ◌
takes_two = refl

new_negative : IsValid (new (negsuc 2))
new_negative = new-IsValid (negsuc 2)

abbrev limiters : List (Bool × Option Semaphore)
limiters =
    (false, some two_left)
    ∷ (false, none)
    ∷ (false, some (record { max = pos 1; available = pos 1 }))
    ∷ []

limiters-valid : All OptionValid limiters
limiters-valid =
    (two_left-IsValid, (tt, (record { nonneg = omega arith; bounded = omega arith }, tt)))

takes_all : (multi_take limiters (pos 2)).1 ≡ took_all
unfolding multi_take attempt
takes_all = refl

multi_give-take_example :
    multi_give (multi_take limiters (pos 2)).0 (pos 2) ≡ map (λ x. x.1) limiters
multi_give-take_example = multi_give-take limiters (pos 2) limiters-valid (omega arith) takes_all

abbrev after_take : System
after_take = record {
  sem = record { max = pos 4; available = pos 0 };
  waiting = [];
  held = pos 9 ∷ [];
}

took_nine : Reach (start (pos 4)) after_take
unfolding attempt new ◌-ℤ◌
took_nine = next here (take (pos 9) none_left refl refl)

took_nine-AllSized : AllSized took_nine
unfolding took_nine
took_nine-AllSized = (tt, omega arith)

Reach-Balanced_example : Balanced (new (pos 4)).max after_take
Reach-Balanced_example = Reach-Balanced (pos 4) after_take took_nine took_nine-AllSized
