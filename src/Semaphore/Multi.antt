-- ===== src/Semaphore/Multi.antt =====
-- `MultiSemaphore` of lib/semaphore/semaphore.go: several semaphores, some of them nil, that are
-- taken in order and given back in reverse order.
use mathlib.Core.List.{reverse, reverse_aux, reverse-reverse}
use vidsync_app.Base.{
  ◌≡◌, refl, ap, ap₂, ◌∙◌, Bool, List, [], ◌∷◌, ◌⊎◌, inl, inr, Option, none, some, map, arith, ℤ,
  pos, ◌+ℤ◌, ◌-ℤ◌, ◌≤ℤ◌, +ℤ_parts, -ℤ_parts, eq_of_parts, All,
}
use vidsync_app.Semaphore.{Semaphore, clamp_size, Attempt, cancelled, wait, taken, attempt, give}
use vidsync_app.Semaphore.Bounds.{IsValid}

-- A `Give` of the size that was taken puts the semaphore back as it was before the take, also where
-- the size is above the capacity.
pub give-attempt :
    (done : Bool) (s q : Semaphore) (size : ℤ)
    → IsValid s
    → pos 0 ≤ℤ size
    → attempt done s size ≡ taken q
    → give q size ≡ s
unfolding attempt give clamp_size
give-attempt done s q size v h e = ground (
  arith,
  -ℤ_parts s.available size,
  -ℤ_parts s.available s.max,
  +ℤ_parts (s.available -ℤ size) size,
  +ℤ_parts (s.available -ℤ s.max) s.max,
  eq_of_parts (s.available -ℤ size +ℤ size) s.available,
  eq_of_parts (s.available -ℤ s.max +ℤ s.max) s.available,
)

-- How far the loop of `TakeWithContext` has come: it has taken all, it waits for one, or the context
-- was done at one.
pub data Progress : Type 0 where
  took_all waiting failed : Progress

-- The semaphores, and for each whether the context is done when the loop comes to it. `Take` is the
-- case of a context that is never done.
unfoldable pub multi_take : List (Bool × Option Semaphore) → ℤ → List (Option Semaphore) × Progress
multi_take [] size = ([], took_all)
multi_take ((done, none) ∷ ss) size = let (qs, p) = multi_take ss size in (none ∷ qs, p)
multi_take ((done, some s) ∷ ss) size = elim (attempt done s size) [
  | cancelled ↦ (some s ∷ map (λ x. x.1) ss, failed)
  | wait ↦ (some s ∷ map (λ x. x.1) ss, waiting)
  | taken q ↦ (some q ∷ (multi_take ss size).0, (multi_take ss size).1)
]

unfoldable pub give_option : ℤ → Option Semaphore → Option Semaphore
give_option size none = none
give_option size (some s) = some (give s size)

-- From the last semaphore to the first.
unfoldable pub multi_give : List (Option Semaphore) → ℤ → List (Option Semaphore)
unfolding give_option
multi_give ss size = reverse (map (give_option size) (reverse ss))

abbrev pub OptionValid : Bool × Option Semaphore → Type 0
OptionValid (done, none) = Unit {0}
OptionValid (done, some s) = IsValid s

Attempt-cases : (a : Attempt) → (a ≡ cancelled) ⊎ ((a ≡ wait) ⊎ ((q : Semaphore) × (a ≡ taken q)))
Attempt-cases cancelled = inl refl
Attempt-cases wait = inr (inl refl)
Attempt-cases (taken q) = inr (inr (q, refl))

give_all :
    (ss : List (Bool × Option Semaphore)) (size : ℤ)
    → All OptionValid ss
    → pos 0 ≤ℤ size
    → (multi_take ss size).1 ≡ took_all
    → map (give_option size) (multi_take ss size).0 ≡ map (λ x. x.1) ss
unfolding multi_take give_option
give_all [] size v h e = refl
give_all ((done, none) ∷ ss) size v h e = ap (◌∷◌ none) (give_all ss size v.1 h e)
give_all ((done, some s) ∷ ss) size v h e = elim (Attempt-cases (attempt done s size)) [
  | inl c ↦ absurd (cc (rw (c, multi_take) at e))
  | inr (inl c) ↦ absurd (cc (rw (c, multi_take) at e))
  | inr (inr (q, c)) ↦
      let rest = rw (c, multi_take) at e in
      rw (c, multi_take)
        (ap₂ (λ t ts. some t ∷ ts) (give-attempt done s q size v.0 h c)
          (give_all ss size v.1 h rest))
]

module _ {ℓ κ} {A : Type ℓ} {B : Type κ} (f : A → B) where
  map-reverse_aux : (xs ys : List A) → map f (reverse_aux xs ys) ≡ reverse_aux (map f xs) (map f ys)
  map-reverse_aux [] ys = refl
  map-reverse_aux (x ∷ xs) ys = map-reverse_aux xs (x ∷ ys)

  map-reverse : (xs : List A) → map f (reverse xs) ≡ reverse (map f xs)
  map-reverse xs = map-reverse_aux xs []

-- When several semaphores with `available` between 0 and `max` have all been taken from in order,
-- and the size is not negative, then giving the same size back in reverse order leaves each as it
-- was, also those whose capacity is below the size. Nil semaphores are skipped in both directions.
pub multi_give-take :
    (ss : List (Bool × Option Semaphore)) (size : ℤ)
    → All OptionValid ss
    → pos 0 ≤ℤ size
    → (multi_take ss size).1 ≡ took_all
    → multi_give (multi_take ss size).0 size ≡ map (λ x. x.1) ss
unfolding multi_give
multi_give-take ss size v h e =
    ap reverse (map-reverse (give_option size) (multi_take ss size).0)
    ∙ reverse-reverse (map (give_option size) (multi_take ss size).0)
    ∙ give_all ss size v h e
