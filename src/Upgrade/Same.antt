-- ===== src/Upgrade/Same.antt =====
-- Which versions `CompareVersions` of lib/upgrade/upgrade_common.go takes for the same.
use vidsync_app.Base.{
  ◌&&◌, eqb_ℤ, pos, ℕ, ◌≡◌, ◌≢◌, subst, ◌↔◌, refl, ap, ap₂, Bool, true, false, List, [], ◌∷◌,
  Option, none, some, Option-cases, inl, inr, length, ℤ, ltb_ℤ, eq_of_parts, arith, if◌then◌else◌,
}
use vidsync_app.DeviceId.Text.{Bytes}
use vidsync_app.Upgrade.{
  Relation, major_older, older, equal, newer, major_newer, Part, number, text, version_parts,
  compare_release, older_by, newer_by, compare_number, text_less, compare_part, compare_prerelease,
  compare_length, compare_kind, or_else, or_equal, compare_parts, compare_versions,
}
use vidsync_app.Upgrade.Order.{flip, parts_flip}

two_tests :
    (less more : Bool) (r q : Relation)
    → (if less then some r else if more then some q else none) ≡ none
    → (less ≡ false) × (more ≡ false)
two_tests less more r q h = ground arith

not_less : (a b : ℤ) → ltb_ℤ a b ≡ false → ltb_ℤ b a ≡ false → a ≡ b
not_less a b h k = eq_of_parts a b (ground arith)

compare_number-none : (f : Bool) (a b : ℤ) → compare_number f a b ≡ none → a ≡ b
unfolding compare_number
compare_number-none f a b h =
    let (l, m) = two_tests (ltb_ℤ a b) (ltb_ℤ b a) (older_by f a b) (newer_by f a b) h in
    not_less a b l m

compare_release-none :
    (f : Bool) (xs ys : List ℤ) → compare_release f xs ys ≡ none → length xs ≡ length ys → xs ≡ ys
unfolding compare_release
compare_release-none f [] [] h k = refl
compare_release-none f [] (y ∷ ys) h k = absurd (omega arith)
compare_release-none f (x ∷ xs) [] h k = absurd (omega arith)
compare_release-none f (x ∷ xs) (y ∷ ys) h k = elim (Option-cases (compare_number f x y)) [
  | inl e ↦
      ap₂ (◌∷◌) (compare_number-none f x y e)
        (compare_release-none false xs ys (rw (e, compare_release) at h) (omega arith))
  | inr (r, e) ↦ absurd (cc (rw (e, compare_release) at h))
]

text_less_total : (s t : Bytes) → text_less s t ≡ false → text_less t s ≡ false → s ≡ t
unfolding text_less
text_less_total [] [] h k = refl
text_less_total [] (d ∷ t) h k = cc
text_less_total (c ∷ s) [] h k = cc
text_less_total (c ∷ s) (d ∷ t) h k = ground (arith, text_less_total s t)

compare_part-none : (p q : Part) → compare_part p q ≡ none → p ≡ q
unfolding compare_part
compare_part-none (number a) (number b) h =
    let (l, m) = two_tests (ltb_ℤ a b) (ltb_ℤ b a) older newer h in ap number (not_less a b l m)
compare_part-none (number a) (text t) h = cc
compare_part-none (text s) (number b) h = cc
compare_part-none (text s) (text t) h =
    let (l, m) = two_tests (text_less s t) (text_less t s) older newer h in
    ap text (text_less_total s t l m)

compare_prerelease-none :
    (ps qs : List Part) → compare_prerelease ps qs ≡ none → length ps ≡ length qs → ps ≡ qs
unfolding compare_prerelease
compare_prerelease-none [] [] h k = refl
compare_prerelease-none [] (q ∷ qs) h k = absurd (omega arith)
compare_prerelease-none (p ∷ ps) [] h k = absurd (omega arith)
compare_prerelease-none (p ∷ ps) (q ∷ qs) h k = elim (Option-cases (compare_part p q)) [
  | inl e ↦
      ap₂ (◌∷◌) (compare_part-none p q e)
        (compare_prerelease-none ps qs (rw (e, compare_prerelease) at h) (omega arith))
  | inr (r, e) ↦ absurd (cc (rw (e, compare_prerelease) at h))
]

compare_length-none : (m n : ℕ) → compare_length m n ≡ none → m ≡ n
unfolding compare_length
compare_length-none m n h = ground arith

-- No test returns "equal" before the end.
abbrev Decides : Option Relation → Type 0
Decides o = o ≢ some equal

either-not_equal :
    (p : Bool) (r q : Relation) → r ≢ equal → q ≢ equal → (if p then r else q) ≢ equal
either-not_equal true r q h k = h
either-not_equal false r q h k = k

tests-Decides :
    (less more : Bool) (r q : Relation)
    → r ≢ equal
    → q ≢ equal
    → Decides (if less then some r else if more then some q else none)
tests-Decides less more r q h k = ground arith

older_by-not_equal : (f : Bool) (a b : ℤ) → older_by f a b ≢ equal
unfolding older_by
older_by-not_equal false a b = cc
older_by-not_equal true a b =
    let h : older ≢ equal = cc in
    let k : major_older ≢ equal = cc in
    either-not_equal (eqb_ℤ a (pos 0) && eqb_ℤ b (pos 1)) older major_older h k

newer_by-not_equal : (f : Bool) (a b : ℤ) → newer_by f a b ≢ equal
unfolding newer_by
newer_by-not_equal false a b = cc
newer_by-not_equal true a b =
    let h : newer ≢ equal = cc in
    let k : major_newer ≢ equal = cc in
    either-not_equal (eqb_ℤ a (pos 1) && eqb_ℤ b (pos 0)) newer major_newer h k

compare_number-Decides : (f : Bool) (a b : ℤ) → Decides (compare_number f a b)
unfolding compare_number
compare_number-Decides f a b =
    tests-Decides (ltb_ℤ a b) (ltb_ℤ b a) (older_by f a b) (newer_by f a b)
      (older_by-not_equal f a b) (newer_by-not_equal f a b)

compare_release-Decides : (f : Bool) (xs ys : List ℤ) → Decides (compare_release f xs ys)
unfolding compare_release
compare_release-Decides f [] ys = cc
compare_release-Decides f (x ∷ xs) [] = cc
compare_release-Decides f (x ∷ xs) (y ∷ ys) =
    ground (arith, compare_number-Decides f x y, compare_release-Decides false xs ys)

compare_part-Decides : (p q : Part) → Decides (compare_part p q)
unfolding compare_part
compare_part-Decides (number a) (number b) = ground arith
compare_part-Decides (number a) (text t) = cc
compare_part-Decides (text s) (number b) = cc
compare_part-Decides (text s) (text t) = ground arith

compare_prerelease-Decides : (ps qs : List Part) → Decides (compare_prerelease ps qs)
unfolding compare_prerelease
compare_prerelease-Decides [] qs = cc
compare_prerelease-Decides (p ∷ ps) [] = cc
compare_prerelease-Decides (p ∷ ps) (q ∷ qs) =
    ground (arith, compare_part-Decides p q, compare_prerelease-Decides ps qs)

compare_length-Decides : (m n : ℕ) → Decides (compare_length m n)
unfolding compare_length
compare_length-Decides m n = ground arith

compare_kind-Decides : (m n : ℕ) → Decides (compare_kind m n)
unfolding compare_kind
compare_kind-Decides m n = ground arith

passed :
    (a b : Option Relation)
    → Decides a
    → or_equal (or_else a b) ≡ equal
    → (a ≡ none) × (or_equal b ≡ equal)
passed none b d h = (refl, h)
passed (some r) b d h = absurd (d (ap some h))

last_passed : (a : Option Relation) → Decides a → or_equal a ≡ equal → a ≡ none
last_passed none d h = refl
last_passed (some r) d h = absurd (d (ap some h))

same_parts : (a b : List ℤ × List Part) → compare_parts a b ≡ equal → a ≡ b
unfolding compare_parts
same_parts a b h =
    let (e1, h1) = passed _ _ (compare_release-Decides true a.0 b.0) h in
    let (e2, h2) = passed _ _ (compare_length-Decides (length a.0) (length b.0)) h1 in
    let (e3, h3) = passed _ _ (compare_kind-Decides (length a.1) (length b.1)) h2 in
    let (e4, h4) = passed _ _ (compare_prerelease-Decides a.1 b.1) h3 in
    let e5 = last_passed _ (compare_length-Decides (length a.1) (length b.1)) h4 in
    let release = compare_release-none true a.0 b.0 e1 (compare_length-none _ _ e2) in
    let prerelease = compare_prerelease-none a.1 b.1 e4 (compare_length-none _ _ e5) in
    λ i. (release i, prerelease i)

flip_fixed : (r : Relation) → r ≡ flip r → r ≡ equal
flip_fixed major_older h = cc
flip_fixed older h = cc
flip_fixed equal h = refl
flip_fixed newer h = cc
flip_fixed major_newer h = cc

-- Two versions are equal exactly when they have the same parts: the same numbers, and the same
-- parts of the prerelease. What stands behind a "+", and a "v" in front, do not count.
pub compare_versions-equal :
    (a b : Bytes) → (compare_versions a b ≡ equal) ↔ (version_parts a ≡ version_parts b)
unfolding compare_versions
compare_versions-equal a b = (
  same_parts (version_parts a) (version_parts b),
  λ e.
      subst (λ p. compare_parts (version_parts a) p ≡ equal) e
        (flip_fixed _ (parts_flip (version_parts a) (version_parts a))),
)
