-- ===== src/Staggered/Ages.antt =====
-- The ages of versions and the spacing that lib/versioner/staggered.go promises for them, apart from its
-- code.
use vidsync_app.Base.{
  ℕ, suc, ◌≡◌, ◌≤◌, ◌<◌, ◌⊎◌, ◌*◌, ◌+◌, ◌/◌, inl, inr, true, false, ℤ, pos, negsuc, ◌-ℤ◌, ◌≤ℤ◌,
  ◌<ℤ◌, ltb_ℤ, Bool-cases, arith,
}
use vidsync_app.PullerState.{quotient}
use vidsync_app.Staggered.{intervals, last_end, used_step, too_old, age_at}

-- The whole seconds of a time span in nanoseconds, cut off towards 0.
pub data Seconds : ℤ → ℤ → Type 0 where
  since : (d k : ℕ) → k * 1000000000 ≤ d → d < suc k * 1000000000 → Seconds (pos d) (pos k)
  until :
      (n k : ℕ)
      → k * 1000000000 ≤ suc n
      → suc n < suc k * 1000000000
      → Seconds (negsuc n) (pos 0 -ℤ pos k)

-- The seconds that must lie between two versions, by the age of the newer one: a version every 30
-- seconds in the last hour, every hour in the last day, every day in the last 30 days, and then one
-- every week.
pub data Spacing (age : ℤ) : ℤ → Type 0 where
  last_hour : age <ℤ pos 3600 → Spacing age (pos 30)
  last_day : pos 3600 ≤ℤ age → age <ℤ pos 86400 → Spacing age (pos 3600)
  last_month : pos 86400 ≤ℤ age → age <ℤ pos 2592000 → Spacing age (pos 86400)
  before : pos 2592000 ≤ℤ age → Spacing age (pos 604800)

-- Older than the largest age, where one is set.
abbrev pub Expired : ℤ → ℤ → Type 0
Expired max_age age = (pos 0 <ℤ max_age) × (max_age <ℤ age)

abbrev pub Alive : ℤ → ℤ → Type 0
Alive max_age age = (max_age ≤ℤ pos 0) ⊎ (age ≤ℤ max_age)

cut : (n : ℕ) → (n / 1000000000 * 1000000000 ≤ n) × (n < suc (n / 1000000000) * 1000000000)
cut n = (omega arith, omega arith)

quotient-Seconds : (d : ℤ) → Seconds d (quotient d 1000000000)
quotient-Seconds (pos d) = since d (d / 1000000000) (cut d).0 (cut d).1
quotient-Seconds (negsuc n) = until n ((n + 1) / 1000000000) (omega arith) (omega arith)

pub age_at-Seconds : (now t : ℤ) → Seconds (now -ℤ t) (age_at now t)
unfolding age_at
age_at-Seconds now t = quotient-Seconds (now -ℤ t)

pub too_old-Expired : (m a : ℤ) → too_old (intervals m) a ≡ true → Expired m a
unfolding too_old last_end
too_old-Expired m a h = ground (arith, h)

pub too_old-Alive : (m a : ℤ) → too_old (intervals m) a ≡ false → Alive m a
unfolding too_old last_end
too_old-Alive m a h = ground (arith, h)

pub used_step-Spacing : (m a : ℤ) → Spacing a (used_step a (intervals m) (pos 0))
unfolding used_step
used_step-Spacing m a = elim (Bool-cases (ltb_ℤ a (pos 3600))) [
  | inl h ↦ rw (h) (last_hour (ground (arith, h)))
  | inr h ↦ elim (Bool-cases (ltb_ℤ a (pos 86400))) [
    | inl d ↦ rw (h) (rw (d) (last_day (ground (arith, h)) (ground (arith, d))))
    | inr d ↦ elim (Bool-cases (ltb_ℤ a (pos 2592000))) [
      | inl e ↦ rw (h) (rw (d) (rw (e) (last_month (ground (arith, d)) (ground (arith, e)))))
      | inr e ↦ rw (h) (
          rw (d) (
            rw (e) (elim (Bool-cases (ltb_ℤ a m)) [
              | inl f ↦ rw (f) (before (ground (arith, e)))
              | inr f ↦ rw (f) (before (ground (arith, e)))
            ])))
    ]
  ]
]
