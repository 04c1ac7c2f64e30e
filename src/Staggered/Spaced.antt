-- ===== src/Staggered/Spaced.antt =====
-- What is left of the versions that lib/versioner/staggered.go looks at.
use mathlib.Core.List.{Permᴰ}
use vidsync_app.Base.{
  ◌≡◌, inl, inr, true, false, List, [], ◌∷◌, Option, none, some, ℤ, pos, ◌-ℤ◌, ltb_ℤ, ◌≤ℤ◌, ◌<ℤ◌,
  Bool-cases, Option-cases, arith,
}
use vidsync_app.DeviceId.Text.{Bytes}
use vidsync_app.Staggered.Sorted.{Ascending, sort-Perm, sort-Ascending}
use vidsync_app.Staggered.Ages.{
  Seconds, Spacing, Expired, Alive, age_at-Seconds, too_old-Expired, too_old-Alive,
  used_step-Spacing,
}
use vidsync_app.Staggered.{
  Interval, intervals, sort, used_step, too_old, judge_age, age_at, judge, remove_from, to_remove,
}

-- What counts as the age of a version: it has a time, and this many seconds lie between it and now.
abbrev pub HasAge : (Bytes → Option ℤ) → ℤ → Bytes → ℤ → Type 0
HasAge parse now v a = (t : ℤ) × (parse v ≡ some t) × Seconds (now -ℤ t) a

module _ (parse : Bytes → Option ℤ) (max_age now : ℤ) where
  -- The versions in order, each passed over because its name has no time, removed, or kept; the option
  -- is the age of the version kept before.
  pub data Sifted : Option ℤ → List Bytes → List Bytes → List Bytes → Type 0 where
    done : (prev : Option ℤ) → Sifted prev [] [] []
    pass :
        (prev : Option ℤ) (v : Bytes) (vs rs ks : List Bytes)
        → parse v ≡ none
        → Sifted prev vs rs ks
        → Sifted prev (v ∷ vs) rs ks
    drop_old :
        (prev : Option ℤ) (v : Bytes) (a : ℤ) (vs rs ks : List Bytes)
        → HasAge parse now v a
        → Expired max_age a
        → Sifted prev vs rs ks
        → Sifted prev (v ∷ vs) (v ∷ rs) ks
    drop_close :
        (p : ℤ) (v : Bytes) (a step : ℤ) (vs rs ks : List Bytes)
        → HasAge parse now v a
        → Spacing a step
        → (p -ℤ a) <ℤ step
        → Sifted (some p) vs rs ks
        → Sifted (some p) (v ∷ vs) (v ∷ rs) ks
    keep_first :
        (v : Bytes) (a : ℤ) (vs rs ks : List Bytes)
        → HasAge parse now v a
        → Alive max_age a
        → Sifted (some a) vs rs ks
        → Sifted none (v ∷ vs) rs (v ∷ ks)
    keep_next :
        (p : ℤ) (v : Bytes) (a step : ℤ) (vs rs ks : List Bytes)
        → HasAge parse now v a
        → Alive max_age a
        → Spacing a step
        → step ≤ℤ (p -ℤ a)
        → Sifted (some a) vs rs ks
        → Sifted (some p) (v ∷ vs) rs (v ∷ ks)

  abbrev is : List Interval
  is = intervals max_age

  aged : (v : Bytes) (t : ℤ) → parse v ≡ some t → HasAge parse now v (age_at now t)
  aged v t n = (t, n, age_at-Seconds now t)

  below : (a b : ℤ) → ltb_ℤ a b ≡ true → a <ℤ b
  below a b h = ground (arith, h)

  at_least : (a b : ℤ) → ltb_ℤ a b ≡ false → b ≤ℤ a
  at_least a b h = ground (arith, h)

  -- A version that has a time and is not too old.
  young-Sifted :
      (prev : Option ℤ) (v : Bytes) (t : ℤ) (vs : List Bytes)
      → parse v ≡ some t
      → too_old is (age_at now t) ≡ false
      → ((q : Option ℤ) → (ks : List Bytes) × Sifted q vs (remove_from parse is now q vs) ks)
      → (ks : List Bytes) × Sifted prev (v ∷ vs) (remove_from parse is now prev (v ∷ vs)) ks
  unfolding remove_from judge judge_age
  young-Sifted none v t vs n o rest =
      let (ks, s) = rest (some (age_at now t)) in
      rw (n, remove_from)
        (rw (o) (
          v ∷ ks,
          keep_first v (age_at now t) vs (remove_from parse is now (some (age_at now t)) vs) ks
              (aged v t n) (too_old-Alive max_age (age_at now t) o) s,
        ))
  young-Sifted (some p) v t vs n o rest =
      let a = age_at now t in
      let step = used_step a is (pos 0) in
      elim (Bool-cases (ltb_ℤ (p -ℤ age_at now t) (used_step (age_at now t) is (pos 0)))) [
        | inl c ↦
            let (ks, s) = rest (some p) in
            rw (n, remove_from)
              (rw (o) (
                rw (c) (
                  ks,
                  drop_close p v a step vs (remove_from parse is now (some p) vs) ks (aged v t n)
                      (used_step-Spacing max_age a) (below (p -ℤ a) step c) s,
                )))
        | inr c ↦
            let (ks, s) = rest (some (age_at now t)) in
            rw (n, remove_from)
              (rw (o) (
                rw (c) (
                  v ∷ ks,
                  keep_next p v a step vs (remove_from parse is now (some a) vs) ks (aged v t n)
                      (too_old-Alive max_age a o) (used_step-Spacing max_age a)
                      (at_least (p -ℤ a) step c) s,
                )))
      ]

  remove_from-Sifted :
      (prev : Option ℤ) (vs : List Bytes)
      → (ks : List Bytes) × Sifted prev vs (remove_from parse is now prev vs) ks
  unfolding remove_from judge judge_age
  remove_from-Sifted prev [] = ([], done prev)
  remove_from-Sifted prev (v ∷ vs) = elim (Option-cases (parse v)) [
    | inl n ↦
        let (ks, s) = remove_from-Sifted prev vs in
        rw (n, remove_from) (ks, pass prev v vs (remove_from parse is now prev vs) ks n s)
    | inr (t, n) ↦ elim (Bool-cases (too_old is (age_at now t))) [
      | inl o ↦
          let (ks, s) = remove_from-Sifted prev vs in
          rw (n, remove_from)
            (rw (o) (
              ks,
              drop_old prev v (age_at now t) vs (remove_from parse is now prev vs) ks (aged v t n)
                  (too_old-Expired max_age (age_at now t) o) s,
            ))
      | inr o ↦ young-Sifted prev v t vs n o (λ q. remove_from-Sifted q vs)
    ]
  ]

-- What `toRemove` removes, and what is left, with the intervals of `newStaggered`. It looks at the
-- versions in ascending order of their names. Those with a time in their name fall into the removed
-- and the kept ones. With the age of a version in whole seconds: no kept version is older than the
-- largest age, where that is positive; the first is kept unless it is older; and the age of a kept
-- version is below that of the one kept before it by at least 30 seconds in the last hour, an hour
-- in the last day, a day in the last 30 days, and a week before that. Every removed version is older
-- than the largest age, or closer than that to the one kept before it.
pub to_remove-Sifted :
    (parse : Bytes → Option ℤ) (max_age now : ℤ) (versions : List Bytes)
    → Permᴰ versions (sort versions)
      × Ascending (sort versions)
      × ((ks : List Bytes) × Sifted parse max_age now none
            (sort versions)
            (to_remove parse (intervals max_age) now versions)
            ks)
unfolding to_remove
to_remove-Sifted parse max_age now versions = (
  sort-Perm versions,
  sort-Ascending versions,
  remove_from-Sifted parse max_age now none (sort versions),
)
