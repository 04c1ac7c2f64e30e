-- ===== src/Vector/Flip.antt =====
-- `Compare` of lib/protocol/vector.go with its arguments the other way round.
use vidsync_app.Base.{◌≡◌, refl, ap, ◌∙◌, Bool, true, false, [], ◌∷◌, arith}
use vidsync_app.Vector.{
  Counter, Vector, Ordering, equal, greater, lesser, concurrent_lesser, concurrent_greater, Round,
  return, go_on, ahead, behind, judge, no_counter, compare_loop, compare, is_concurrent,
}
use vidsync_app.Vector.Rounds.{choose}

unfoldable pub flip : Ordering → Ordering
flip equal = equal
flip greater = lesser
flip lesser = greater
flip concurrent_lesser = concurrent_greater
flip concurrent_greater = concurrent_lesser

flip_round : Round → Round
flip_round (return o) = return (flip o)
flip_round (go_on r) = go_on (flip r)

ahead-flip : (r : Ordering) → is_concurrent r ≡ false → behind (flip r) ≡ flip_round (ahead r)
unfolding flip flip_round ahead behind
ahead-flip equal h = refl
ahead-flip _ h = ground arith

behind-flip : (r : Ordering) → is_concurrent r ≡ false → ahead (flip r) ≡ flip_round (behind r)
unfolding flip flip_round ahead behind
behind-flip equal h = refl
behind-flip _ h = ground arith

go_on-flip : (r : Ordering) → go_on (flip r) ≡ flip_round (go_on r)
unfolding flip_round
go_on-flip r = refl

module _ (a b : Counter) (r : Ordering) (h : is_concurrent r ≡ false) where
  judge-flip : judge b false a false (flip r) ≡ flip_round (judge a false b false r)
  unfolding judge
  judge-flip = ground (arith, ahead-flip r h, behind-flip r h, go_on-flip r)

  judge_left-flip :
      judge no_counter true a false (flip r) ≡ flip_round (judge a false no_counter true r)
  unfolding judge
  judge_left-flip = ground (arith, ahead-flip r h, behind-flip r h, go_on-flip r)

  judge_right-flip :
      judge b false no_counter true (flip r) ≡ flip_round (judge no_counter true b false r)
  unfolding judge
  judge_right-flip = ground (arith, ahead-flip r h, behind-flip r h, go_on-flip r)

-- Where a round goes on, the result is not yet concurrent.
abbrev Plain : Round → Type 0
Plain (return o) = Unit {0}
Plain (go_on r) = is_concurrent r ≡ false

ahead-Plain : (r : Ordering) → Plain (ahead r)
unfolding ahead
ahead-Plain equal = refl
ahead-Plain _ = ground arith

behind-Plain : (r : Ordering) → Plain (behind r)
unfolding behind
behind-Plain equal = refl
behind-Plain _ = ground arith

judge-Plain :
    (a b : Counter) (am bm : Bool) (r : Ordering)
    → is_concurrent r ≡ false
    → Plain (judge a am b bm r)
unfolding judge
judge-Plain a b am bm r h = ground (arith, ahead-Plain r, behind-Plain r)

abbrev then_go : Round → (Ordering → Ordering) → Ordering
then_go d rest = elim d [ return o ↦ o | go_on r ↦ rest r ]

then_go-flip :
    (d : Round) (rest rest' : Ordering → Ordering)
    → Plain d
    → ((r : Ordering) → is_concurrent r ≡ false → rest' (flip r) ≡ flip (rest r))
    → then_go (flip_round d) rest' ≡ flip (then_go d rest)
unfolding flip_round
then_go-flip (return o) rest rest' p h = refl
then_go-flip (go_on r) rest rest' p h = h r p

choose-flip :
    (a c : Counter) (v b : Vector) (r : Ordering)
    → compare_loop b v (flip r) ≡ flip (compare_loop v b r)
    → compare_loop (c ∷ b) v (flip r) ≡ flip (compare_loop v (c ∷ b) r)
    → compare_loop b (a ∷ v) (flip r) ≡ flip (compare_loop (a ∷ v) b r)
    → choose c a b v (flip r) ≡ flip (choose a c v b r)
choose-flip a c v b r both left right = ground arith

compare_loop-flip :
    (v b : Vector) (r : Ordering)
    → is_concurrent r ≡ false
    → compare_loop b v (flip r) ≡ flip (compare_loop v b r)
unfolding compare_loop
compare_loop-flip [] [] r h = refl
compare_loop-flip (a ∷ v) [] r h =
    ap (λ d. then_go d (λ q. compare_loop [] v q)) (judge_left-flip a a r h)
    ∙ then_go-flip (judge a false no_counter true r) (λ q. compare_loop v [] q)
        (λ q. compare_loop [] v q) (judge-Plain a no_counter false true r h)
        (λ q p. compare_loop-flip v [] q p)
compare_loop-flip [] (c ∷ b) r h =
    ap (λ d. then_go d (λ q. compare_loop b [] q)) (judge_right-flip c c r h)
    ∙ then_go-flip (judge no_counter true c false r) (λ q. compare_loop [] b q)
        (λ q. compare_loop b [] q) (judge-Plain no_counter c true false r h)
        (λ q p. compare_loop-flip [] b q p)
compare_loop-flip (a ∷ v) (c ∷ b) r h =
    ap (λ d. then_go d (choose c a b v)) (judge-flip a c r h)
    ∙ then_go-flip (judge a false c false r) (choose a c v b) (choose c a b v)
        (judge-Plain a c false false r h)
        (λ q p.
          choose-flip a c v b q (compare_loop-flip v b q p) (compare_loop-flip v (c ∷ b) q p)
            (compare_loop-flip (a ∷ v) b q p))

-- Exchanging the two vectors exchanges greater and lesser, and the two kinds of concurrent: two
-- devices that compare the same two versions never disagree.
pub compare-flip : (v b : Vector) → compare b v ≡ flip (compare v b)
unfolding compare
compare-flip v b = ap (compare_loop b v) flip-equal ∙ compare_loop-flip v b equal refl
  where
    flip-equal : equal ≡ flip equal
    flip-equal = unfold flip in refl
