-- ===== src/Vector/Rounds.antt =====
-- One round of `Compare` of lib/protocol/vector.go, and what it says of the counters.
use native.Mathlib.Decide.{ℕ_discrete}
use vidsync_app.Base.{
  leb, ℕ, suc, ◌≤◌, ◌<◌, ◌≡◌, ◌≢◌, ◌⊎◌, subst, inl, inr, refl, true, false, ◌∷◌, arith, ltb,
  if◌then◌else◌,
}
use vidsync_app.Vector.{
  compare_loop, Counter, Vector, counter, Ordering, equal, greater, lesser, concurrent_lesser,
  concurrent_greater, Round, return, go_on, ahead, behind, judge, no_counter, is_concurrent,
}
use vidsync_app.Vector.Sorted.{From, counter_below}

-- No counter of `v` exceeds that of `b`.
abbrev pub Below : Vector → Vector → Type 0
Below v b = (i : ℕ) → counter v i ≤ counter b i

-- Some counter of `v` exceeds that of `b`.
abbrev pub Exceeds : Vector → Vector → Type 0
Exceeds v b = (i : ℕ) × (counter b i < counter v i)

-- The loop's result from `start`, in terms of what is left of both vectors.
abbrev pub Outcome : Ordering → Vector → Vector → Ordering → Type 0
Outcome start v b equal = (start ≡ equal) × Below v b × Below b v
Outcome start v b greater = (start ≢ lesser) × Below b v × ((start ≡ greater) ⊎ Exceeds v b)
Outcome start v b lesser = (start ≢ greater) × Below v b × ((start ≡ lesser) ⊎ Exceeds b v)
Outcome start v b concurrent_lesser =
    ((start ≡ greater) ⊎ Exceeds v b) × ((start ≡ lesser) ⊎ Exceeds b v)
Outcome start v b concurrent_greater =
    ((start ≡ greater) ⊎ Exceeds v b) × ((start ≡ lesser) ⊎ Exceeds b v)

-- A round takes the counter `k` out of both vectors, with its values `x` and `y`.
pub record Peel (k x y : ℕ) (v b v' b' : Vector) : Type 0 where
  pub here_v : counter v k ≡ x
  pub here_b : counter b k ≡ y
  pub gone_v : counter v' k ≡ 0
  pub gone_b : counter b' k ≡ 0
  pub else_v : (i : ℕ) → i ≢ k → counter v i ≡ counter v' i
  pub else_b : (i : ℕ) → i ≢ k → counter b i ≡ counter b' i

-- The verdict on two values of one counter.
pub versus : ℕ → ℕ → Ordering → Round
versus x y r = if ltb y x then ahead r else if ltb x y then behind r else go_on r

pub Peel-swap : {k x y : ℕ} {v b v' b' : Vector} → Peel k x y v b v' b' → Peel k y x b v b' v'
Peel-swap p = record {
  here_v = p.here_b;
  here_b = p.here_v;
  gone_v = p.gone_b;
  gone_b = p.gone_v;
  else_v = p.else_b;
  else_b = p.else_v;
}

module _ {k x y : ℕ} {v b v' b' : Vector} (p : Peel k x y v b v' b') where
  Below-peel : Below v' b' → x ≤ y → Below v b
  Below-peel h le i = elim (ℕ_discrete i k) [
    | yes e ↦ rw e (omega (arith, p.here_v, p.here_b))
    | no n ↦ omega (arith, p.else_v i n, p.else_b i n, h i)
  ]

  Exceeds-peel : Exceeds v' b' → Exceeds v b
  Exceeds-peel (i, h) = elim (ℕ_discrete i k) [
    | yes e ↦ absurd (omega (arith, p.gone_v, p.gone_b, rw e at h))
    | no n ↦ (i, omega (arith, p.else_v i n, p.else_b i n))
  ]

  Exceeds-here : y < x → Exceeds v b
  Exceeds-here h = (k, omega (arith, p.here_v, p.here_b))

-- What the verdict on the values `x` and `y` says, by the new result.
abbrev pub Verdict : ℕ → ℕ → Ordering → Round → Type 0
Verdict x y start (go_on r) =
    ((r ≡ start) × (x ≡ y))
    ⊎ ((r ≡ greater) × (start ≢ lesser) × (y < x))
    ⊎ ((r ≡ lesser) × (start ≢ greater) × (x < y))
Verdict x y start (return o) =
    ((o ≡ concurrent_lesser) × (start ≡ lesser) × (y < x))
    ⊎ ((o ≡ concurrent_greater) × (start ≡ greater) × (x < y))

pub versus-Verdict :
    (x y : ℕ) (r : Ordering) → is_concurrent r ≡ false → Verdict x y r (versus x y r)
unfolding versus ahead behind
versus-Verdict x y equal h = ground arith
versus-Verdict x y _ h = ground arith

or_peel {ℓ κ μ} : {A : Type ℓ} {B : Type κ} {C : Type μ} → (B → C) → A ⊎ B → A ⊎ C
or_peel f (inl a) = inl a
or_peel f (inr b) = inr (f b)

module _ {k x y : ℕ} {v b v' b' : Vector} (p : Peel k x y v b v' b') where
  same : (s o : Ordering) → x ≡ y → Outcome s v' b' o → Outcome s v b o
  same s equal e h =
      (h.0, Below-peel p h.1 (omega arith), Below-peel (Peel-swap p) h.2 (omega arith))
  same s greater e h =
      (h.0, Below-peel (Peel-swap p) h.1 (omega arith), or_peel (Exceeds-peel p) h.2)
  same s lesser e h =
      (h.0, Below-peel p h.1 (omega arith), or_peel (Exceeds-peel (Peel-swap p)) h.2)
  same s concurrent_lesser e h =
      (or_peel (Exceeds-peel p) h.0, or_peel (Exceeds-peel (Peel-swap p)) h.1)
  same s concurrent_greater e h =
      (or_peel (Exceeds-peel p) h.0, or_peel (Exceeds-peel (Peel-swap p)) h.1)

  other : {s t : Ordering} → s ≢ t → (s ≡ t) ⊎ Exceeds b' v' → Exceeds b v
  other n (inl e) = absurd (n e)
  other n (inr h) = Exceeds-peel (Peel-swap p) h

  up : (s o : Ordering) → s ≢ lesser → y < x → Outcome greater v' b' o → Outcome s v b o
  up s equal n lt h = absurd (cc (h.0))
  up s greater n lt h = (n, Below-peel (Peel-swap p) h.1 (omega arith), inr (Exceeds-here p lt))
  up s lesser n lt h = absurd (h.0 refl)
  up s concurrent_lesser n lt h = (inr (Exceeds-here p lt), inr (other (λ e. cc) h.1))
  up s concurrent_greater n lt h = (inr (Exceeds-here p lt), inr (other (λ e. cc) h.1))

  this : {s t : Ordering} → s ≢ t → (s ≡ t) ⊎ Exceeds v' b' → Exceeds v b
  this n (inl e) = absurd (n e)
  this n (inr h) = Exceeds-peel p h

  down : (s o : Ordering) → s ≢ greater → x < y → Outcome lesser v' b' o → Outcome s v b o
  down s equal n lt h = absurd (cc (h.0))
  down s greater n lt h = absurd (h.0 refl)
  down s lesser n lt h = (n, Below-peel p h.1 (omega arith), inr (Exceeds-here (Peel-swap p) lt))
  down s concurrent_lesser n lt h = (inr (this (λ e. cc) h.0), inr (Exceeds-here (Peel-swap p) lt))
  down s concurrent_greater n lt h = (inr (this (λ e. cc) h.0), inr (Exceeds-here (Peel-swap p) lt))

  Outcome-go_on : (s r o : Ordering) → Verdict x y s (go_on r) → Outcome r v' b' o → Outcome s v b o
  Outcome-go_on s r o (inl (e, q)) h = same s o q (subst (λ t. Outcome t v' b' o) e h)
  Outcome-go_on s r o (inr (inl (e, n, lt))) h = up s o n lt (subst (λ t. Outcome t v' b' o) e h)
  Outcome-go_on s r o (inr (inr (e, n, lt))) h = down s o n lt (subst (λ t. Outcome t v' b' o) e h)

  Outcome-return : (s o : Ordering) → Verdict x y s (return o) → Outcome s v b o
  Outcome-return s o (inl (e, f, lt)) = rw e (inr (Exceeds-here p lt), inl f)
  Outcome-return s o (inr (e, f, lt)) = rw e (inl f, inr (Exceeds-here (Peel-swap p) lt))

  -- A round, and what the rest of the loop gives where it goes on.
  pub Outcome-round :
      (s : Ordering) (d : Round) (rest : Ordering → Ordering)
      → Verdict x y s d
      → ((r : Ordering) → is_concurrent r ≡ false → Outcome r v' b' (rest r))
      → is_concurrent s ≡ false
      → Outcome s v b (elim d [ return t ↦ t | go_on r ↦ rest r ])
  Outcome-round s (return t) rest w ih h = Outcome-return s t w
  Outcome-round s (go_on r) rest w ih h = Outcome-go_on s r (rest r) w (ih r (ground arith))

pub Peel-left :
    (a : Counter) (v b : Vector)
    → From (suc a.id) v
    → From (suc a.id) b
    → Peel a.id a.value 0 (a ∷ v) b v b
unfolding counter
Peel-left a v b sv sb = record {
  here_v = ground arith;
  here_b = counter_below (suc a.id) a.id b sb (omega arith);
  gone_v = counter_below (suc a.id) a.id v sv (omega arith);
  gone_b = counter_below (suc a.id) a.id b sb (omega arith);
  else_v = λ i n. ground arith;
  else_b = λ i n. refl;
}

pub Peel-both :
    (a c : Counter) (v b : Vector)
    → a.id ≡ c.id
    → From (suc a.id) v
    → From (suc c.id) b
    → Peel a.id a.value c.value (a ∷ v) (c ∷ b) v b
unfolding counter
Peel-both a c v b e sv sb = record {
  here_v = ground arith;
  here_b = ground arith;
  gone_v = counter_below (suc a.id) a.id v sv (omega arith);
  gone_b = counter_below (suc c.id) a.id b sb (omega arith);
  else_v = λ i n. ground arith;
  else_b = λ i n. ground arith;
}

module _ (a c : Counter) (r : Ordering) where
  pub judge_left_only : judge a false no_counter true r ≡ versus a.value 0 r
  unfolding judge versus
  judge_left_only = ground arith

  pub judge_right_only : judge no_counter true c false r ≡ versus 0 c.value r
  unfolding judge versus
  judge_right_only = ground arith

  pub judge_both : a.id ≡ c.id → judge a false c false r ≡ versus a.value c.value r
  unfolding judge versus
  judge_both e = ground arith

  pub judge_left : a.id < c.id → judge a false c false r ≡ versus a.value 0 r
  unfolding judge versus
  judge_left e = ground arith

  pub judge_right : c.id < a.id → judge a false c false r ≡ versus 0 c.value r
  unfolding judge versus
  judge_right e = ground arith

-- How the loop goes on where both vectors have a counter.
abbrev pub choose : Counter → Counter → Vector → Vector → Ordering → Ordering
choose a c v b r = elim (leb a.id c.id) [
  | true ↦ elim (leb c.id a.id) [ true ↦ compare_loop v b r | false ↦ compare_loop v (c ∷ b) r ]
  | false ↦ compare_loop (a ∷ v) b r
]
