-- ===== src/Semaphore/Balance.antt =====
-- Takers and givers of one semaphore of lib/semaphore/semaphore.go at a fixed capacity, as a step
-- relation: the mutex orders the passes of `takeInner` and the calls of `Give`.
use vidsync_app.Base.{
  ◌+◌, ◌≡◌, refl, true, false, List, [], ◌∷◌, ◌++◌, arith, ℤ, pos, pos_part, neg_part, ◌+ℤ◌, ◌-ℤ◌,
  ◌≤ℤ◌, +ℤ_parts, -ℤ_parts, eq_of_parts, int_laws, ap, All, subst, sym, ◌∙◌,
}
use vidsync_app.Semaphore.{Semaphore, new, clamp_size, cancelled, wait, taken, attempt, give}
use vidsync_app.Semaphore.Bounds.{IsValid, new-IsValid, AllValid, attempt-IsValid, give-IsValid}

-- The sizes that goroutines wait for, and those that have been taken and not given back.
pub record System : Type 0 where
  pub sem : Semaphore
  pub waiting : List ℤ
  pub held : List ℤ

pub data Step (a b : System) : Type 0 where
  take :
      (size : ℤ) (q : Semaphore)
      → attempt false a.sem size ≡ taken q
      → b ≡ record a { sem = q; held = size ∷ a.held }
      → Step a b
  park :
      (size : ℤ)
      → attempt false a.sem size ≡ wait
      → b ≡ record a { waiting = size ∷ a.waiting }
      → Step a b
  wake :
      (size : ℤ) (q : Semaphore) (xs ys : List ℤ)
      → a.waiting ≡ xs ++ (size ∷ ys)
      → attempt false a.sem size ≡ taken q
      → b ≡ record { sem = q; waiting = xs ++ ys; held = size ∷ a.held }
      → Step a b
  cancel :
      (size : ℤ) (xs ys : List ℤ)
      → a.waiting ≡ xs ++ (size ∷ ys)
      → attempt true a.sem size ≡ cancelled
      → b ≡ record a { waiting = xs ++ ys }
      → Step a b
  release :
      (size : ℤ) (xs ys : List ℤ)
      → a.held ≡ xs ++ (size ∷ ys)
      → b ≡ record a { sem = give a.sem size; held = xs ++ ys }
      → Step a b

pub data Reach (a : System) : System → Type 0 where
  here : Reach a a
  next : {b c : System} → Reach a b → Step b c → Reach a c

-- Every call of `takeInner` is for a size that is not negative, which the code does not check.
abbrev pub Sized : {a b : System} → Step a b → Type 0
Sized (take size q e f) = pos 0 ≤ℤ size
Sized (park size e f) = pos 0 ≤ℤ size
Sized (wake size q xs ys p e f) = Unit {0}
Sized (cancel size xs ys p e f) = Unit {0}
Sized (release size xs ys p f) = Unit {0}

abbrev pub AllSized : {a b : System} → Reach a b → Type 0
AllSized here = Unit {0}
AllSized (next r e) = AllSized r × Sized e

-- What a semaphore of this capacity charges for the sizes that are held.
pub charge : ℤ → List ℤ → ℤ
charge max [] = pos 0
charge max (n ∷ ns) = clamp_size max n +ℤ charge max ns

abbrev pub NonNeg : List ℤ → Type 0
NonNeg = All (λ n. pos 0 ≤ℤ n)

-- Nothing is lost and nothing is charged twice.
pub record Balanced (max : ℤ) (a : System) : Type 0 where
  pub valid : IsValid a.sem
  pub cap : a.sem.max ≡ max
  pub sum : a.sem.available +ℤ charge max a.held ≡ max
  pub held_nonneg : NonNeg a.held
  pub waiting_nonneg : NonNeg a.waiting

clamp-nonneg : (m n : ℤ) → pos 0 ≤ℤ m → pos 0 ≤ℤ n → pos 0 ≤ℤ clamp_size m n
unfolding clamp_size
clamp-nonneg m n hm hn = ground arith

charge-nonneg : (m : ℤ) (ns : List ℤ) → pos 0 ≤ℤ m → NonNeg ns → pos 0 ≤ℤ charge m ns
unfolding charge
charge-nonneg m [] hm h = omega arith
charge-nonneg m (n ∷ ns) hm h =
    omega (arith, +ℤ_parts, clamp-nonneg m n hm h.0, charge-nonneg m ns hm h.1)

charge-middle :
    (m n : ℤ) (xs ys : List ℤ) → charge m (xs ++ (n ∷ ys)) ≡ clamp_size m n +ℤ charge m (xs ++ ys)
unfolding charge
charge-middle m n [] ys = refl
charge-middle m n (x ∷ xs) ys = rw (charge-middle m n xs ys) (omega int_laws)

NonNeg-middle :
    (n : ℤ) (xs ys : List ℤ) → NonNeg (xs ++ (n ∷ ys)) → (pos 0 ≤ℤ n) × NonNeg (xs ++ ys)
NonNeg-middle n [] ys h = (h.0, h.1)
NonNeg-middle n (x ∷ xs) ys h = let r = NonNeg-middle n xs ys h.1 in (r.0, (h.0, r.1))

attempt-taken :
    (s q : Semaphore) (size : ℤ)
    → attempt false s size ≡ taken q
    → (q.max ≡ s.max) × (q.available +ℤ clamp_size s.max size ≡ s.available)
unfolding attempt
attempt-taken s q size e = ground (
  arith,
  -ℤ_parts s.available (clamp_size s.max size),
  +ℤ_parts (s.available -ℤ clamp_size s.max size) (clamp_size s.max size),
  eq_of_parts (s.available -ℤ clamp_size s.max size +ℤ clamp_size s.max size) s.available,
)

give-room :
    (s : Semaphore) (size : ℤ)
    → s.available +ℤ clamp_size s.max size ≤ℤ s.max
    → give s size ≡ record s { available = s.available +ℤ clamp_size s.max size }
unfolding give
give-room s size h = ground arith

parts_of_eq : (a b : ℤ) → a ≡ b → pos_part a + neg_part b ≡ pos_part b + neg_part a
parts_of_eq a b e = rw e (omega arith)

+ℤ_assoc : (a b c : ℤ) → a +ℤ b +ℤ c ≡ a +ℤ (b +ℤ c)
+ℤ_assoc a b c = omega int_laws

-- A take by this size, also of a goroutine that waited.
taken-Balanced :
    (m size : ℤ) (a : System) (q : Semaphore) (rest : List ℤ)
    → Balanced m a
    → pos 0 ≤ℤ size
    → NonNeg rest
    → attempt false a.sem size ≡ taken q
    → Balanced m (record { sem = q; waiting = rest; held = size ∷ a.held })
unfolding charge
taken-Balanced m size a q rest w h hr e =
    let t = attempt-taken a.sem q size e in
    record {
      valid = subst AllValid e (attempt-IsValid false a.sem size h w.valid);
      cap = t.0 ∙ w.cap;
      sum =
          sym (+ℤ_assoc q.available (clamp_size m size) (charge m a.held))
          ∙ ap (λ x. x +ℤ charge m a.held)
              (subst (λ k. q.available +ℤ clamp_size k size ≡ a.sem.available) w.cap t.1)
          ∙ w.sum;
      held_nonneg = (h, w.held_nonneg);
      waiting_nonneg = hr;
    }

room : (x y a m : ℤ) → a +ℤ (x +ℤ y) ≡ m → pos 0 ≤ℤ y → a +ℤ x ≤ℤ m
room x y a m e h =
    omega (arith, +ℤ_parts a x, +ℤ_parts x y, +ℤ_parts a (x +ℤ y), parts_of_eq (a +ℤ (x +ℤ y)) m e)

release-Balanced :
    (m size : ℤ) (a : System) (xs ys : List ℤ)
    → Balanced m a
    → a.held ≡ xs ++ (size ∷ ys)
    → Balanced m (record a { sem = give a.sem size; held = xs ++ ys })
release-Balanced m size a xs ys w e =
    let h = NonNeg-middle size xs ys (subst NonNeg e w.held_nonneg) in
    let cap0 : pos 0 ≤ℤ m =
      subst (λ k. pos 0 ≤ℤ k) w.cap (omega (arith, w.valid.nonneg, w.valid.bounded)) in
    let whole : a.sem.available +ℤ (clamp_size m size +ℤ charge m (xs ++ ys)) ≡ m =
      subst (λ k. a.sem.available +ℤ k ≡ m) (ap (charge m) e ∙ charge-middle m size xs ys) w.sum in
    let fits : a.sem.available +ℤ clamp_size a.sem.max size ≤ℤ a.sem.max =
      subst (λ k. a.sem.available +ℤ clamp_size k size ≤ℤ k) (sym w.cap)
        (room (clamp_size m size) (charge m (xs ++ ys)) a.sem.available m whole
          (charge-nonneg m (xs ++ ys) cap0 h.1)) in
    let g = give-room a.sem size fits in
    record {
      valid = give-IsValid a.sem size h.0 w.valid;
      cap = ap (λ r. r.max) g ∙ w.cap;
      sum =
          ap (λ r. r.available +ℤ charge m (xs ++ ys)) g
          ∙ ap (λ k. a.sem.available +ℤ clamp_size k size +ℤ charge m (xs ++ ys)) w.cap
          ∙ +ℤ_assoc a.sem.available (clamp_size m size) (charge m (xs ++ ys))
          ∙ whole;
      held_nonneg = h.1;
      waiting_nonneg = w.waiting_nonneg;
    }

pub Step-Balanced : (m : ℤ) (a b : System) (st : Step a b) → Sized st → Balanced m a → Balanced m b
Step-Balanced m a b (take size q e f) h w =
    subst (Balanced m) (sym f) (taken-Balanced m size a q a.waiting w h w.waiting_nonneg e)
Step-Balanced m a b (park size e f) h w = subst (Balanced m) (sym f) (record {
  valid = w.valid;
  cap = w.cap;
  sum = w.sum;
  held_nonneg = w.held_nonneg;
  waiting_nonneg = (h, w.waiting_nonneg);
})
Step-Balanced m a b (wake size q xs ys p e f) z w =
    let h = NonNeg-middle size xs ys (subst NonNeg p w.waiting_nonneg) in
    subst (Balanced m) (sym f) (taken-Balanced m size a q (xs ++ ys) w h.0 h.1 e)
Step-Balanced m a b (cancel size xs ys p e f) z w =
    let h = NonNeg-middle size xs ys (subst NonNeg p w.waiting_nonneg) in
    subst (Balanced m) (sym f) (record {
      valid = w.valid;
      cap = w.cap;
      sum = w.sum;
      held_nonneg = w.held_nonneg;
      waiting_nonneg = h.1;
    })
Step-Balanced m a b (release size xs ys p f) z w =
    subst (Balanced m) (sym f) (release-Balanced m size a xs ys w p)

abbrev pub start : ℤ → System
start max = record { sem = new max; waiting = []; held = [] }

start-Balanced : (max : ℤ) → Balanced (new max).max (start max)
unfolding new charge
start-Balanced max = record {
  valid = new-IsValid max;
  cap = refl;
  sum = eq_of_parts _ _ (omega (arith, +ℤ_parts (new max).max (pos 0)));
  held_nonneg = tt;
  waiting_nonneg = tt;
}

-- In every interleaving of takes, waits, wake-ups, cancellations and gives from a new semaphore, in
-- which no size that is asked for is negative, what is available and what the goroutines hold add up
-- to the capacity: nothing leaks, and the capacity is never overcommitted.
pub Reach-Balanced :
    (max : ℤ) (a : System) (r : Reach (start max) a) → AllSized r → Balanced (new max).max a
Reach-Balanced max a here h = start-Balanced max
Reach-Balanced max a (next {b = b} r st) h =
    Step-Balanced (new max).max b a st h.1 (Reach-Balanced max b r h.0)
