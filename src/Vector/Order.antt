-- ===== src/Vector/Order.antt =====
-- `Compare` of lib/protocol/vector.go decides the pointwise order of the counters.
use vidsync_app.Base.{
  ℕ, suc, ◌<◌, ◌≡◌, ◌≢◌, ◌⊎◌, ◌↔◌, subst, inl, inr, refl, true, false, [], ◌∷◌, arith, leb,
  Bool-cases,
}
use vidsync_app.Vector.{
  Counter, Vector, Ordering, equal, greater, lesser, concurrent_lesser, concurrent_greater,
  no_counter, compare_loop, compare, is_concurrent, is_lesser_equal, is_greater_equal, lesser_equal,
  greater_equal,
}
use vidsync_app.Vector.Sorted.{From, IsSorted}
use vidsync_app.Vector.Rounds.{
  choose, Below, Exceeds, Outcome, versus, Peel-swap, versus-Verdict, Peel-left, Peel-both,
  Outcome-round, judge_left_only, judge_right_only, judge_both, judge_left, judge_right,
}

module _ (a c : Counter) (v b : Vector) (r : Ordering) where
  choose_both : a.id ≡ c.id → compare_loop v b r ≡ choose a c v b r
  choose_both e = ground arith

  choose_left : a.id < c.id → compare_loop v (c ∷ b) r ≡ choose a c v b r
  choose_left e = ground arith

  choose_right : c.id < a.id → compare_loop (a ∷ v) b r ≡ choose a c v b r
  choose_right e = ground arith

compare_loop-Outcome :
    (j k : ℕ) (v b : Vector) (s : Ordering)
    → From j v
    → From k b
    → is_concurrent s ≡ false
    → Outcome s v b (compare_loop v b s)
unfolding compare_loop
compare_loop-Outcome j k [] [] s sv sb h = ground arith
compare_loop-Outcome j k [] (c ∷ b) s sv sb h =
    rw (judge_right_only no_counter c s, compare_loop)
      (Outcome-round (Peel-swap (Peel-left c b [] sb.1 tt)) s (versus 0 c.value s)
        (λ r. compare_loop [] b r) (versus-Verdict 0 c.value s h)
        (λ r. compare_loop-Outcome j (suc c.id) [] b r tt sb.1) h)
compare_loop-Outcome j k (a ∷ v) [] s sv sb h =
    rw (judge_left_only a a s, compare_loop)
      (Outcome-round (Peel-left a v [] sv.1 tt) s (versus a.value 0 s) (λ r. compare_loop v [] r)
        (versus-Verdict a.value 0 s h) (λ r. compare_loop-Outcome (suc a.id) k v [] r sv.1 tt) h)
compare_loop-Outcome j k (a ∷ v) (c ∷ b) s sv sb h = elim (Bool-cases (leb a.id c.id)) [
  | inl le ↦ elim (Bool-cases (leb c.id a.id)) [
    | inl ge ↦
        let e : a.id ≡ c.id = ground arith in
        rw (judge_both a c s e, compare_loop)
          (Outcome-round (Peel-both a c v b e sv.1 sb.1) s (versus a.value c.value s)
            (choose a c v b) (versus-Verdict a.value c.value s h)
            (λ r p.
              subst (Outcome r v b) (choose_both a c v b r e)
                (compare_loop-Outcome (suc a.id) (suc c.id) v b r sv.1 sb.1 p))
            h)
    | inr lt ↦
        let e : a.id < c.id = ground arith in
        rw (judge_left a c s e, compare_loop)
          (Outcome-round (Peel-left a v (c ∷ b) sv.1 (e, sb.1)) s (versus a.value 0 s)
            (choose a c v b) (versus-Verdict a.value 0 s h)
            (λ r p.
              subst (Outcome r v (c ∷ b)) (choose_left a c v b r e)
                (compare_loop-Outcome (suc a.id) k v (c ∷ b) r sv.1 sb p))
            h)
  ]
  | inr gt ↦
      let e : c.id < a.id = ground arith in
      rw (judge_right a c s e, compare_loop)
        (Outcome-round (Peel-swap (Peel-left c b (a ∷ v) sb.1 (e, sv.1))) s (versus 0 c.value s)
          (choose a c v b) (versus-Verdict 0 c.value s h)
          (λ r p.
            subst (Outcome r (a ∷ v) b) (choose_right a c v b r e)
              (compare_loop-Outcome j (suc c.id) (a ∷ v) b r sv sb.1 p))
          h)
]

module _ (v b : Vector) (sv : IsSorted v) (sb : IsSorted b) where
  compare-Outcome : Outcome equal v b (compare v b)
  unfolding compare
  compare-Outcome = compare_loop-Outcome 0 0 v b equal sv sb refl

not-Exceeds : (v b : Vector) → Below v b → ¬ Exceeds v b
not-Exceeds v b h (i, lt) = omega (arith, h i)

to_Exceeds : {s t : Ordering} (v b : Vector) → s ≢ t → (s ≡ t) ⊎ Exceeds v b → Exceeds v b
to_Exceeds v b n (inl e) = absurd (n e)
to_Exceeds v b n (inr h) = h

-- What each result of `Compare` says of the counters.
abbrev pub Meaning : Vector → Vector → Ordering → Type 0
Meaning v b equal = Below v b × Below b v
Meaning v b greater = Below b v × Exceeds v b
Meaning v b lesser = Below v b × Exceeds b v
Meaning v b concurrent_lesser = Exceeds v b × Exceeds b v
Meaning v b concurrent_greater = Exceeds v b × Exceeds b v

Meaning-of_Outcome : (v b : Vector) (o : Ordering) → Outcome equal v b o → Meaning v b o
Meaning-of_Outcome v b equal h = (h.1, h.2)
Meaning-of_Outcome v b greater h = (h.1, to_Exceeds v b (λ e. cc) h.2)
Meaning-of_Outcome v b lesser h = (h.1, to_Exceeds b v (λ e. cc) h.2)
Meaning-of_Outcome v b concurrent_lesser h =
    (to_Exceeds v b (λ e. cc) h.0, to_Exceeds b v (λ e. cc) h.1)
Meaning-of_Outcome v b concurrent_greater h =
    (to_Exceeds v b (λ e. cc) h.0, to_Exceeds b v (λ e. cc) h.1)

-- On vectors in ID order `Compare` tells the truth about the counters, whatever it returns: equal
-- everywhere; nowhere smaller and somewhere larger; nowhere larger and somewhere smaller; or larger
-- at one counter and smaller at another.
pub compare-Meaning : (v b : Vector) → IsSorted v → IsSorted b → Meaning v b (compare v b)
unfolding compare
compare-Meaning v b sv sb =
    Meaning-of_Outcome v b (compare_loop v b equal) (compare_loop-Outcome 0 0 v b equal sv sb refl)

lesser_equal-Below :
    (v b : Vector) (o : Ordering) → Meaning v b o → (is_lesser_equal o ≡ true) ↔ Below v b
lesser_equal-Below v b equal m = (λ e. m.0, λ h. refl)
lesser_equal-Below v b lesser m = (λ e. m.0, λ h. refl)
lesser_equal-Below v b greater m = (λ e. cc, λ h. absurd (not-Exceeds v b h m.1))
lesser_equal-Below v b concurrent_lesser m = (λ e. cc, λ h. absurd (not-Exceeds v b h m.0))
lesser_equal-Below v b concurrent_greater m = (λ e. cc, λ h. absurd (not-Exceeds v b h m.0))

-- `LesserEqual` holds exactly when no counter of the first vector exceeds that of the second.
pub lesser_equal_iff :
    (v b : Vector) → IsSorted v → IsSorted b → (lesser_equal v b ≡ true) ↔ Below v b
unfolding lesser_equal
lesser_equal_iff v b sv sb = lesser_equal-Below v b (compare v b) (compare-Meaning v b sv sb)

greater_equal-Below :
    (v b : Vector) (o : Ordering) → Meaning v b o → (is_greater_equal o ≡ true) ↔ Below b v
greater_equal-Below v b equal m = (λ e. m.1, λ h. refl)
greater_equal-Below v b greater m = (λ e. m.0, λ h. refl)
greater_equal-Below v b lesser m = (λ e. cc, λ h. absurd (not-Exceeds b v h m.1))
greater_equal-Below v b concurrent_lesser m = (λ e. cc, λ h. absurd (not-Exceeds b v h m.1))
greater_equal-Below v b concurrent_greater m = (λ e. cc, λ h. absurd (not-Exceeds b v h m.1))

-- `GreaterEqual` holds exactly when no counter of the second vector exceeds that of the first.
pub greater_equal_iff :
    (v b : Vector) → IsSorted v → IsSorted b → (greater_equal v b ≡ true) ↔ Below b v
unfolding greater_equal
greater_equal_iff v b sv sb = greater_equal-Below v b (compare v b) (compare-Meaning v b sv sb)
