-- ===== src/Semaphore.antt =====
-- lib/semaphore/semaphore.go. The mutex makes each method one step; a taker that must wait parks on
-- the condition variable, and after a broadcast tests again.
mod Tests
pub mod Bounds
pub mod Balance
pub mod Multi
use vidsync_app.Base.{
  ℕ, ◌≡◌, Bool, true, false, List, [], ◌∷◌, ◌++◌, Option, none, some, if◌then◌else◌, ℤ, pos, negsuc,
  ◌+ℤ◌, ◌-ℤ◌, ltb_ℤ,
}

-- `max` and `available`, Go `int`s.
pub record Semaphore : Type 0 where
  pub max : ℤ
  pub available : ℤ

unfoldable pub new : ℤ → Semaphore
new max = let m = if ltb_ℤ max (pos 0) then pos 0 else max in record { max = m; available = m }

-- `if size > s.max { size = s.max }`.
unfoldable pub clamp_size : ℤ → ℤ → ℤ
clamp_size max size = if ltb_ℤ max size then max else size

-- What one pass of `takeInner` comes to: the context's error, a wait on the condition variable, or
-- the semaphore after the take.
pub data Attempt : Type 0 where
  cancelled : Attempt
  wait : Attempt
  taken : Semaphore → Attempt

-- The pass from the test of the context on: the clamp and the test of the `for` loop. The code makes
-- these when it enters, and again after each wake-up with the size as clamped before.
unfoldable pub attempt : Bool → Semaphore → ℤ → Attempt
unfolding clamp_size
attempt ctx_done s size =
    let n = clamp_size s.max size in
    if ctx_done
    then cancelled
    else if ltb_ℤ s.available n
    then wait
    else taken (record s { available = s.available -ℤ n })

unfoldable pub give : Semaphore → ℤ → Semaphore
unfolding clamp_size
give s size =
    let n = clamp_size s.max size in
    if ltb_ℤ s.max (s.available +ℤ n)
    then record s { available = s.max }
    else record s { available = s.available +ℤ n }

-- The clamp of `available` between 0 and the new capacity.
unfoldable pub clamp_available : ℤ → ℤ → ℤ
clamp_available max a = if ltb_ℤ a (pos 0) then pos 0 else if ltb_ℤ max a then max else a

unfoldable pub set_capacity : Semaphore → ℤ → Semaphore
unfolding clamp_available
set_capacity s capacity =
    let c = if ltb_ℤ capacity (pos 0) then pos 0 else capacity in
    let diff = c -ℤ s.max in record { max = c; available = clamp_available c (s.available +ℤ diff) }
