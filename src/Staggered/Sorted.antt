-- ===== src/Staggered/Sorted.antt =====
-- The order in which lib/versioner/staggered.go looks at the versions.
use mathlib.Core.List.{Permᴰ}
use mathlib.Core.List.Permᴰ
use vidsync_app.Base.{◌≡◌, inl, inr, refl, sym, subst, true, false, List, [], ◌∷◌, Bool-cases}
use vidsync_app.DeviceId.Text.{Bytes}
use vidsync_app.Upgrade.{text_less}
use vidsync_app.Upgrade.Order.{text_less_asym}
use vidsync_app.Staggered.{insert, sort}

insert-Perm : (v : Bytes) (ws : List Bytes) → Permᴰ (v ∷ ws) (insert v ws)
unfolding insert
insert-Perm v [] = Permᴰ.refl (v ∷ [])
insert-Perm v (w ∷ ws) = elim (Bool-cases (text_less w v)) [
  | inl h ↦ rw (h, insert) (Permᴰ.trans (Permᴰ.swap refl refl) (Permᴰ.cons refl (insert-Perm v ws)))
  | inr h ↦ rw (h, insert) (Permᴰ.refl (v ∷ (w ∷ ws)))
]

pub sort-Perm : (vs : List Bytes) → Permᴰ vs (sort vs)
unfolding sort
sort-Perm [] = Permᴰ.refl []
sort-Perm (v ∷ vs) = Permᴰ.trans (Permᴰ.cons refl (sort-Perm vs)) (insert-Perm v (sort vs))

-- Names in ascending order.
pub Ascending : List Bytes → Type 0
Ascending [] = Unit {0}
Ascending (v ∷ []) = Unit {0}
Ascending (v ∷ (w ∷ ws)) = (text_less w v ≡ false) × Ascending (w ∷ ws)

insert_behind :
    (w v : Bytes) (ws : List Bytes)
    → text_less w v ≡ true
    → Ascending (w ∷ ws)
    → Ascending (insert v ws)
    → Ascending (w ∷ insert v ws)
unfolding Ascending insert
insert_behind w v [] h a b = (text_less_asym w v h, tt)
insert_behind w v (u ∷ us) h a b = elim (Bool-cases (text_less u v)) [
  | inl l ↦
      let e : insert v (u ∷ us) ≡ u ∷ insert v us = rw (l, insert) refl in
      subst (λ x. Ascending (w ∷ x)) (sym e) (a.0, subst Ascending e b)
  | inr l ↦ rw (l, insert) (text_less_asym w v h, (l, a.1))
]

tail-Ascending : (w : Bytes) (ws : List Bytes) → Ascending (w ∷ ws) → Ascending ws
unfolding Ascending
tail-Ascending w [] a = tt
tail-Ascending w (u ∷ us) a = a.1

insert-Ascending : (v : Bytes) (ws : List Bytes) → Ascending ws → Ascending (insert v ws)
unfolding Ascending insert
insert-Ascending v [] a = tt
insert-Ascending v (w ∷ ws) a = elim (Bool-cases (text_less w v)) [
  | inl h ↦
      rw (h, insert) (insert_behind w v ws h a (insert-Ascending v ws (tail-Ascending w ws a)))
  | inr h ↦ rw (h, insert) (h, a)
]

pub sort-Ascending : (vs : List Bytes) → Ascending (sort vs)
unfolding sort Ascending
sort-Ascending [] = tt
sort-Ascending (v ∷ vs) = insert-Ascending v (sort vs) (sort-Ascending vs)
