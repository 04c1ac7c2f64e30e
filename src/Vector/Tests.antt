-- ===== src/Vector/Tests.antt =====
-- Runs of lib/protocol/vector.go on small vectors, and the theorems at such inputs.
use vidsync_app.Base.{◌≡◌, refl, true, [], ◌∷◌, arith}
use vidsync_app.Vector.{
  Vector, counter, update_with_now, merge, compare, greater, concurrent_greater, lesser_equal,
}
use vidsync_app.Vector.Order.{Meaning, compare-Meaning}
use vidsync_app.Vector.Update.{compare-update}
use vidsync_app.Vector.Merge.{merge_is_lub}

abbrev two_devices : Vector
two_devices = record { id = 3; value = 5 } ∷ record { id = 8; value = 2 } ∷ []

abbrev other_device : Vector
other_device = record { id = 5; value = 1 } ∷ record { id = 8; value = 4 } ∷ []

abbrev three_devices : Vector
three_devices =
    record { id = 3; value = 5 } ∷ record { id = 5; value = 1 } ∷ record { id = 8; value = 4 } ∷ []

compare_run : compare two_devices other_device ≡ concurrent_greater
unfolding compare
compare_run = refl

merge_run : merge two_devices other_device ≡ three_devices
unfolding merge
merge_run = refl

update_run :
    update_with_now two_devices 5 0
    ≡ record { id = 3; value = 5 }
      ∷ record { id = 5; value = 1 }
      ∷ record { id = 8; value = 2 }
      ∷ []
unfolding update_with_now
update_run = refl

compare-Meaning_example : Meaning two_devices other_device (compare two_devices other_device)
compare-Meaning_example = compare-Meaning two_devices other_device (omega arith) (omega arith)

compare-update_example : compare (update_with_now two_devices 8 0) two_devices ≡ greater
unfolding counter
compare-update_example = compare-update two_devices 8 0 (omega arith) (omega arith)

merge_is_lub_example :
    (lesser_equal two_devices (merge two_devices other_device) ≡ true)
    × (lesser_equal other_device (merge two_devices other_device) ≡ true)
    × (lesser_equal two_devices three_devices ≡ true
        → lesser_equal other_device three_devices ≡ true
        → lesser_equal (merge two_devices other_device) three_devices ≡ true)
merge_is_lub_example =
    merge_is_lub two_devices other_device three_devices (omega arith) (omega arith) (omega arith)
