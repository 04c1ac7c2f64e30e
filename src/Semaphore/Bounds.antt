-- ===== src/Semaphore/Bounds.antt =====
-- The limits of lib/semaphore/semaphore.go: `available` stays between 0 and `max`.
use vidsync_app.Base.{Bool, arith, ℤ, pos, ◌≤ℤ◌, +ℤ_parts, -ℤ_parts}
use vidsync_app.Semaphore.{Semaphore, new, clamp_size, Attempt, taken, attempt, give, set_capacity}

pub record IsValid (s : Semaphore) : Type 0 where
  pub nonneg : pos 0 ≤ℤ s.available
  pub bounded : s.available ≤ℤ s.max

-- What an attempt leaves behind is valid.
abbrev pub AllValid : Attempt → Type 0
AllValid (taken q) = IsValid q
AllValid _ = Unit {0}

pub new-IsValid : (max : ℤ) → IsValid (new max)
unfolding new
new-IsValid max = ground arith

pub attempt-IsValid :
    (done : Bool) (s : Semaphore) (size : ℤ)
    → pos 0 ≤ℤ size
    → IsValid s
    → AllValid (attempt done s size)
unfolding attempt clamp_size
attempt-IsValid done s size h v =
    ground (arith, -ℤ_parts s.available size, -ℤ_parts s.available s.max)

pub give-IsValid : (s : Semaphore) (size : ℤ) → pos 0 ≤ℤ size → IsValid s → IsValid (give s size)
unfolding give clamp_size
give-IsValid s size h v = ground (arith, +ℤ_parts s.available size, +ℤ_parts s.available s.max)

-- A take or a give of a size that is not negative leaves `available` between 0 and `max`, if it was
-- before.
pub take_give-IsValid :
    (done : Bool) (s : Semaphore) (size : ℤ)
    → pos 0 ≤ℤ size
    → IsValid s
    → AllValid (attempt done s size) × IsValid (give s size)
take_give-IsValid done s size h v = (attempt-IsValid done s size h v, give-IsValid s size h v)

-- Whatever the semaphore was, and whatever capacity is asked for, also a negative one, `SetCapacity`
-- leaves `available` between 0 and the new `max`.
pub set_capacity-IsValid : (s : Semaphore) (c : ℤ) → IsValid (set_capacity s c)
unfolding set_capacity
set_capacity-IsValid s c = ground (arith)
