-- ===== src/Upgrade/Order.antt =====
-- `CompareVersions` of lib/upgrade/upgrade_common.go orders the versions.
use vidsync_app.Base.{
  ℕ, ◌≡◌, refl, ap, sym, ◌∙◌, Bool, true, false, List, [], ◌∷◌, Option, none, some, Option-cases,
  inl, inr, pos, eqb_ℤ, ◌&&◌, length, ℤ, ltb_ℤ, arith, if◌then◌else◌,
}
use vidsync_app.DeviceId.Text.{Bytes}
use vidsync_app.Upgrade.{
  Relation, major_older, older, equal, newer, major_newer, Part, number, text, version_parts,
  compare_release, older_by, newer_by, compare_number, text_less, compare_part, compare_prerelease,
  compare_length, compare_kind, or_else, or_equal, compare_parts, compare_versions,
}

-- The relation seen from the other version.
abbrev pub flip : Relation → Relation
flip major_older = major_newer
flip older = newer
flip equal = equal
flip newer = older
flip major_newer = major_older

abbrev flip_option : Option Relation → Option Relation
flip_option none = none
flip_option (some r) = some (flip r)

flip_twice : (r : Relation) → flip (flip r) ≡ r
flip_twice major_older = refl
flip_twice older = refl
flip_twice equal = refl
flip_twice newer = refl
flip_twice major_newer = refl

major_flip :
    (p q : Bool)
    → (if q && p then newer else major_newer) ≡ flip (if p && q then older else major_older)
major_flip true true = refl
major_flip true false = refl
major_flip false true = refl
major_flip false false = refl

-- A comparison that tests one way first gives the flipped answer when it tests the other way first.
number_flip :
    (less more : Bool) (a b c d : Relation)
    → (less ≡ true → more ≡ true → c ≡ flip a)
    → b ≡ flip a
    → c ≡ flip d
    → (if more then some c else if less then some b else none)
      ≡ flip_option (if less then some a else if more then some d else none)
number_flip true true a b c d both p q = ap some (both refl refl)
number_flip true false a b c d both p q = ap some p
number_flip false true a b c d both p q = ap some q
number_flip false false a b c d both p q = refl

older_by-flip : (f : Bool) (a b : ℤ) → newer_by f b a ≡ flip (older_by f a b)
unfolding older_by newer_by
older_by-flip false a b = refl
older_by-flip true a b = major_flip (eqb_ℤ a (pos 0)) (eqb_ℤ b (pos 1))

compare_number-flip :
    (f : Bool) (a b : ℤ) → compare_number f b a ≡ flip_option (compare_number f a b)
unfolding compare_number
compare_number-flip f a b =
    number_flip (ltb_ℤ a b) (ltb_ℤ b a) (older_by f a b) (newer_by f b a) (older_by f b a)
      (newer_by f a b) (λ h k. absurd (ground arith)) (older_by-flip f a b)
      (sym (flip_twice (older_by f b a)) ∙ sym (ap flip (older_by-flip f b a)))

compare_release-flip :
    (f : Bool) (xs ys : List ℤ) → compare_release f ys xs ≡ flip_option (compare_release f xs ys)
unfolding compare_release
compare_release-flip f [] [] = refl
compare_release-flip f [] (y ∷ ys) = refl
compare_release-flip f (x ∷ xs) [] = refl
compare_release-flip f (x ∷ xs) (y ∷ ys) = elim (Option-cases (compare_number f x y)) [
  | inl e ↦
      rw (e, compare_number-flip f x y ∙ ap flip_option e, compare_release)
        (compare_release-flip false xs ys)
  | inr (r, e) ↦ rw (e, compare_number-flip f x y ∙ ap flip_option e, compare_release) refl
]

pub text_less_asym : (s t : Bytes) → text_less s t ≡ true → text_less t s ≡ false
unfolding text_less
text_less_asym [] [] h = refl
text_less_asym [] (d ∷ t) h = refl
text_less_asym (c ∷ s) [] h = cc
text_less_asym (c ∷ s) (d ∷ t) h = ground (arith, text_less_asym s t)

compare_part-flip : (p q : Part) → compare_part q p ≡ flip_option (compare_part p q)
unfolding compare_part
compare_part-flip (number a) (number b) = ground arith
compare_part-flip (number a) (text t) = refl
compare_part-flip (text s) (number b) = refl
compare_part-flip (text s) (text t) = ground (arith, text_less_asym s t, text_less_asym t s)

compare_prerelease-flip :
    (ps qs : List Part) → compare_prerelease qs ps ≡ flip_option (compare_prerelease ps qs)
unfolding compare_prerelease
compare_prerelease-flip [] [] = refl
compare_prerelease-flip [] (q ∷ qs) = refl
compare_prerelease-flip (p ∷ ps) [] = refl
compare_prerelease-flip (p ∷ ps) (q ∷ qs) =
    ground (arith, compare_part-flip p q, compare_prerelease-flip ps qs)

compare_length-flip : (m n : ℕ) → compare_length n m ≡ flip_option (compare_length m n)
unfolding compare_length
compare_length-flip m n = ground arith

compare_kind-flip : (m n : ℕ) → compare_kind n m ≡ flip_option (compare_kind m n)
unfolding compare_kind
compare_kind-flip m n = ground arith

or_else-flip :
    (a b : Option Relation) → or_else (flip_option a) (flip_option b) ≡ flip_option (or_else a b)
or_else-flip none b = refl
or_else-flip (some r) b = refl

or_equal-flip : (a : Option Relation) → or_equal (flip_option a) ≡ flip (or_equal a)
or_equal-flip none = refl
or_equal-flip (some r) = refl

pub parts_flip : (a b : List ℤ × List Part) → compare_parts b a ≡ flip (compare_parts a b)
unfolding compare_parts
parts_flip a b =
    rw
      (
        compare_release-flip true a.0 b.0,
        compare_length-flip (length a.0) (length b.0),
        compare_kind-flip (length a.1) (length b.1),
        compare_prerelease-flip a.1 b.1,
        compare_length-flip (length a.1) (length b.1),
        or_else-flip,
        or_else-flip,
        or_else-flip,
        or_else-flip,
        or_equal-flip,
      )
      refl

-- Exchanging the two versions turns the answer round: older becomes newer, also for the major
-- relations, and equal stays equal.
pub compare_versions-flip : (a b : Bytes) → compare_versions b a ≡ flip (compare_versions a b)
unfolding compare_versions compare_parts
compare_versions-flip a b = parts_flip (version_parts a) (version_parts b)
