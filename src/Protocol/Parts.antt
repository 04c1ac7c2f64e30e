-- ===== src/Protocol/Parts.antt =====
-- The parts of a path of lib/protocol/protocol.go: splitting it at its slashes, joining the parts, and
-- what `path.Clean` makes of them.
use vidsync_app.Base.{
  ℕ, ◌≡◌, inl, inr, refl, sym, ap, ◌∙◌, List, [], ◌∷◌, ◌++◌, ◌==◌, All, arith, Bool-cases, subst,
}
use vidsync_app.DeviceId.Text.{Bytes}
use vidsync_app.Upgrade.{split}
use vidsync_app.Protocol.Path.{join, SlashFree}

pub split_cases : (s : Bytes) → (p : Bytes) × (cs : List Bytes) × (split s b'/' ≡ p ∷ cs)
unfolding split
split_cases [] = ([], [], refl)
split_cases (c ∷ s) =
    let (p, cs, e) = split_cases s in
    elim (Bool-cases (c == b'/')) [
      | inl h ↦ ([], split s b'/', rw (h) refl)
      | inr h ↦ (c ∷ p, cs, rw (h) (rw (e) refl))
    ]

join_longer : (c : ℕ) (p : Bytes) (cs : List Bytes) → join ((c ∷ p) ∷ cs) ≡ c ∷ join (p ∷ cs)
unfolding join
join_longer c p [] = refl
join_longer c p (d ∷ cs) = refl

join_empty :
    (ws : List Bytes) (p : Bytes) (cs : List Bytes) → ws ≡ p ∷ cs → join ([] ∷ ws) ≡ b'/' ∷ join ws
unfolding join
join_empty ws p cs e = rw (e) refl

pub join-split : (s : Bytes) → join (split s b'/') ≡ s
unfolding split join
join-split [] = refl
join-split (c ∷ s) =
    let (p, cs, e) = split_cases s in
    elim (Bool-cases (c == b'/')) [
      | inl h ↦ rw (h) (
          join_empty (split s b'/') p cs e
          ∙ ap (◌∷◌ b'/') (join-split s)
          ∙ ap (λ k. k ∷ s) (ground (arith, h)))
      | inr h ↦ rw (h) (rw (e) (join_longer c p cs ∙ ap (◌∷◌ c) (ap join (sym e) ∙ join-split s)))
    ]

pub split-SlashFree : (s : Bytes) → All SlashFree (split s b'/')
unfolding split
split-SlashFree [] = (tt, tt)
split-SlashFree (c ∷ s) =
    let (p, cs, e) = split_cases s in
    let h = split-SlashFree s in
    elim (Bool-cases (c == b'/')) [
      | inl q ↦ rw (q) (tt, h)
      | inr q ↦ let k = subst (All SlashFree) e h in rw (q) (rw (e) ((ground (arith, q), k.0), k.1))
    ]

split_part : (c : Bytes) → SlashFree c → split c b'/' ≡ c ∷ []
unfolding split
split_part [] h = refl
split_part (d ∷ c) h = rw (split_part c h.1) (ground (arith, h.0))

split_append : (c t : Bytes) → SlashFree c → split (c ++ (b'/' ∷ t)) b'/' ≡ c ∷ split t b'/'
unfolding split
split_append [] t h = refl
split_append (d ∷ c) t h = rw (split_append c t h.1) (ground (arith, h.0))

pub split-join :
    (c : Bytes) (cs : List Bytes) → All SlashFree (c ∷ cs) → split (join (c ∷ cs)) b'/' ≡ c ∷ cs
unfolding join
split-join c [] h = split_part c h.0
split-join c (d ∷ cs) h = split_append c (join (d ∷ cs)) h.0 ∙ ap (◌∷◌ c) (split-join d cs h.1)
