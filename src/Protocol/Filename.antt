-- ===== src/Protocol/Filename.antt =====
-- Which names `checkFilename` of lib/protocol/protocol.go accepts.
use mathlib.Core.List.{reverse, reverse-reverse}
use vidsync_app.Base.{
  ℕ, ◌≡◌, ◌≢◌, ◌⊎◌, ◌↔◌, inl, inr, refl, sym, ap, ◌∙◌, true, false, List, [], ◌∷◌, ◌++◌, ◌==◌, none,
  All, arith, Bool-cases, subst, ==_iff,
}
use vidsync_app.DeviceId.Text.{Bytes, bytes_equal, bytes_equal-eq, bytes_equal_refl}
use vidsync_app.Upgrade.{split}
use vidsync_app.Protocol.Path.{kind, dot_dot, walk, join, rebuild, clean, has_prefix, SlashFree}
use vidsync_app.Protocol.Parts.{split_cases, join-split, split-SlashFree, split-join}
use vidsync_app.Protocol.Check.{check_filename}
use vidsync_app.Protocol.Walk.{
  Proper, Shaped, walk-Walked, walk-Proper, All-reverse_aux, first_part,
}

-- The tests of the check.
record Passes (name : Bytes) : Type 0 where
  cleaned : clean name ≡ name
  nonempty : name ≢ []
  no_dot : name ≢ b'.' ∷ []
  no_dots : name ≢ dot_dot
  relative : has_prefix name (b'/' ∷ []) ≡ false
  inside : has_prefix name (b'.' ∷ b'.' ∷ b'/' ∷ []) ≡ false

not_equal : (s t : Bytes) → bytes_equal s t ≡ false → s ≢ t
not_equal s t h e =
    absurd (ground (arith, sym h ∙ ap (λ k. bytes_equal k t) e ∙ bytes_equal_refl t))

equal_false : (s t : Bytes) → s ≢ t → bytes_equal s t ≡ false
equal_false s t h = elim (Bool-cases (bytes_equal s t)) [
  | inl e ↦ absurd (h (bytes_equal-eq s t e))
  | inr e ↦ e
]

check-Passes : (name : Bytes) → check_filename name ≡ none → Passes name
unfolding check_filename
check-Passes name h =
    let q : (bytes_equal (clean name) name ≡ true)
        × ((bytes_equal name [] ≡ false)
            × ((bytes_equal name (b'.' ∷ []) ≡ false)
                × ((bytes_equal name dot_dot ≡ false)
                    × ((has_prefix name (b'/' ∷ []) ≡ false)
                        × (has_prefix name (b'.' ∷ b'.' ∷ b'/' ∷ []) ≡ false))))) =
      ground arith in
    record {
      cleaned = bytes_equal-eq (clean name) name q.0;
      nonempty = not_equal name [] q.1.0;
      no_dot = not_equal name (b'.' ∷ []) q.1.1.0;
      no_dots = not_equal name dot_dot q.1.1.1.0;
      relative = q.1.1.1.1.0;
      inside = q.1.1.1.1.1;
    }

Passes-check : (name : Bytes) → Passes name → check_filename name ≡ none
unfolding check_filename
Passes-check name p =
    rw (ap (λ k. bytes_equal k name) p.cleaned ∙ bytes_equal_refl name, check_filename)
      (rw (equal_false name [] p.nonempty) (
        rw (equal_false name (b'.' ∷ []) p.no_dot)
          (rw (equal_false name dot_dot p.no_dots) (rw (p.relative) (rw (p.inside) refl)))))

not_rooted : (c : ℕ) (s : Bytes) → has_prefix (c ∷ s) (b'/' ∷ []) ≡ (c == b'/')
unfolding has_prefix
not_rooted c s = ground arith

climbs :
    (cs : List Bytes) (t : Bytes)
    → has_prefix (dot_dot ++ (b'/' ∷ t)) (b'.' ∷ b'.' ∷ b'/' ∷ []) ≡ true
unfolding has_prefix
climbs cs t = refl

-- The parts that are left of a name that passes.
kept :
    (name : Bytes) (out : List Bytes)
    → rebuild false out ≡ name
    → All SlashFree out
    → Proper out ⊎ ((cs : List Bytes) × (out ≡ dot_dot ∷ cs))
    → Passes name
    → Proper (split name b'/')
unfolding rebuild
kept name [] e f w p = absurd (p.no_dot (sym e))
kept name (d ∷ ds) e f (inl w) p =
    subst (λ k. Proper (split k b'/')) e (subst Proper (sym (split-join d ds f)) w)
kept name (d ∷ ds) e f (inr ([], q)) p = absurd (p.no_dots (sym e ∙ ap join q))
kept name (d ∷ ds) e f (inr ((x ∷ xs), q)) p = absurd (
    ground (
      arith,
      sym (climbs [] (join (x ∷ xs)))
          ∙ ap (λ k. has_prefix k (b'.' ∷ b'.' ∷ b'/' ∷ [])) (sym (ap join q) ∙ e)
          ∙ p.inside,
    ))

Passes-Proper : (name : Bytes) → Passes name → Proper (split name b'/')
unfolding clean Shaped
Passes-Proper [] p = absurd (p.nonempty refl)
Passes-Proper (c ∷ s) p =
    let r : (c == b'/') ≡ false = sym (not_rooted c s) ∙ p.relative in
    let w = walk-Walked [] (split (c ∷ s) b'/') (tt, tt) (split-SlashFree (c ∷ s)) in
    let st = walk false [] (split (c ∷ s) b'/') in
    kept (c ∷ s) (reverse st)
      (ap (λ k. rebuild k (reverse (walk k [] (split (c ∷ s) b'/')))) (sym r) ∙ p.cleaned)
      (All-reverse_aux SlashFree st [] w.1 tt) (first_part st [] w.0 tt) p

-- The other direction: names with a part that is not plain at the front.
not-Proper_empty : ¬ Proper (split [] b'/')
unfolding split kind
not-Proper_empty h = absurd (ground (arith, h.0))

not-Proper_dot : ¬ Proper (split (b'.' ∷ []) b'/')
unfolding split kind
not-Proper_dot h = absurd (ground (arith, h.0))

not-Proper_dots : ¬ Proper (split dot_dot b'/')
unfolding split kind
not-Proper_dots h = absurd (ground (arith, h.0))

not-Proper_slash : (s : Bytes) → ¬ Proper (split (b'/' ∷ s) b'/')
unfolding split kind
not-Proper_slash s h = absurd (ground (arith, h.0))

not-Proper_up : (s : Bytes) → ¬ Proper (split (b'.' ∷ (b'.' ∷ (b'/' ∷ s))) b'/')
unfolding split kind
not-Proper_up s h = absurd (ground (arith, h.0))

climbs-is :
    (name : Bytes)
    → has_prefix name (b'.' ∷ b'.' ∷ b'/' ∷ []) ≡ true
    → (s : Bytes) × (name ≡ b'.' ∷ (b'.' ∷ (b'/' ∷ s)))
unfolding has_prefix
climbs-is [] h = absurd (ground arith)
climbs-is (c ∷ []) h = absurd (ground arith)
climbs-is (c ∷ (d ∷ [])) h = absurd (ground arith)
climbs-is (c ∷ (d ∷ (e ∷ s))) h = (s, ground arith)

rebuild_parts :
    (cs : List Bytes) (p : Bytes) (ps : List Bytes) → cs ≡ p ∷ ps → rebuild false cs ≡ join cs
unfolding rebuild
rebuild_parts cs p ps e = rw (e) refl

clean-Proper :
    (c : ℕ) (s : Bytes) → (c == b'/') ≡ false → Proper (split (c ∷ s) b'/') → clean (c ∷ s) ≡ c ∷ s
unfolding clean
clean-Proper c s r h =
    let cs = split (c ∷ s) b'/' in
    let (p, ps, e) = split_cases (c ∷ s) in
    ap (λ k. rebuild k (reverse (walk k [] cs))) r
    ∙ ap (λ k. rebuild false (reverse k)) (walk-Proper [] cs h)
    ∙ ap (rebuild false) (reverse-reverse cs)
    ∙ rebuild_parts cs p ps e
    ∙ join-split (c ∷ s)

Proper-Passes : (name : Bytes) → Proper (split name b'/') → Passes name
Proper-Passes [] h = absurd (not-Proper_empty h)
Proper-Passes (c ∷ s) h =
    let r : (c == b'/') ≡ false = elim (Bool-cases (c == b'/')) [
      | inr e ↦ e
      | inl e ↦
          absurd
            (not-Proper_slash s (subst (λ k. Proper (split (k ∷ s) b'/')) ((==_iff c b'/').0 e) h))
    ] in
    record {
      cleaned = clean-Proper c s r h;
      nonempty = λ e. absurd (not-Proper_empty (subst (λ k. Proper (split k b'/')) e h));
      no_dot = λ e. absurd (not-Proper_dot (subst (λ k. Proper (split k b'/')) e h));
      no_dots = λ e. absurd (not-Proper_dots (subst (λ k. Proper (split k b'/')) e h));
      relative = not_rooted c s ∙ r;
      inside = elim (Bool-cases (has_prefix (c ∷ s) (b'.' ∷ b'.' ∷ b'/' ∷ []))) [
        | inr e ↦ e
        | inl e ↦
            let (t, q) = climbs-is (c ∷ s) e in
            absurd (not-Proper_up t (subst (λ k. Proper (split k b'/')) q h))
      ];
    }

-- A name is accepted exactly when each of its parts between slashes is plain: not empty, not "." and
-- not "..". Such a name names something below the folder, and is in canonical form.
pub check_filename_iff : (name : Bytes) → (check_filename name ≡ none) ↔ Proper (split name b'/')
check_filename_iff name =
    (λ h. Passes-Proper name (check-Passes name h), λ h. Passes-check name (Proper-Passes name h))
