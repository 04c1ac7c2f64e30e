-- ===== src/BlockOrder/Reorder.antt =====
-- The standard order of lib/model/blockpullreorderer.go permutes the blocks.
use mathlib.Core.List.{Permᴰ}
use mathlib.Core.List.Permᴰ
use vidsync_app.Base.{
  ℕ, zero, suc, ◌+◌, ◌-◌, ◌/◌, ◌<◌, ◌≤◌, ◌≡◌, ◌≢◌, refl, sym, ap, ap₂, drop-all, ltb, ◌∙◌, subst,
  ◌⊎◌, inl, inr, false, List, [], ◌∷◌, ◌++◌, none, some, ◌==◌, ==_iff, length, get_elem?, drop,
  arith, Bool-cases, Option-cases, append-nil, All, length-drop, take-append-drop,
}
use native.Mathlib.Nat.{le-div_iff_mul-le}
use vidsync_app.FileInfo.{BlockInfo}
use vidsync_app.BlockOrder.{
  Standard, standard, cut, chunk, indexes_from, append_chunks, own_chunk, reorder_chunks, reorder,
}
use vidsync_app.BlockOrder.Perms.{All_of_perm, flat, flat_of_perm}

-- The chunks in their order are the blocks.
abbrev concat : List (List BlockInfo) → List BlockInfo
concat [] = []
concat (c ∷ cs) = c ++ concat cs

concat-cut :
    (n size : ℕ) (bs : List BlockInfo) → length bs ≤ n → 0 < size → concat (cut n size bs) ≡ bs
unfolding cut
concat-cut zero size [] h p = refl
concat-cut zero size (b ∷ bs) h p = absurd (omega arith)
concat-cut (suc n) size [] h p = refl
concat-cut (suc n) size (b ∷ bs) h p =
    rw (concat-cut n size (drop size (b ∷ bs)) (omega (arith, length-drop size (b ∷ bs))) p)
      (take-append-drop size (b ∷ bs))

size_positive : (n k : ℕ) → 0 < n → k ≢ 0 → 0 < (n + k - 1) / k
size_positive n k h e =
    (le-div_iff_mul-le {k = k} {x = 1} {y = n + k - 1} (omega arith)).1 (omega arith)

concat-chunk : (bs : List BlockInfo) (k : ℕ) → 0 < length bs → concat (chunk bs k) ≡ bs
unfolding chunk
concat-chunk bs k h = elim (Bool-cases (k == 0)) [
  | inl e ↦ rw (e, chunk) (append-nil bs)
  | inr e ↦
      rw (e, chunk)
        (concat-cut (length bs) ((length bs + k - 1) / k) bs (omega arith)
          (size_positive (length bs) k h (λ z. cc (e, (==_iff k 0).1 z))))
]

get_elem?-in : (cs : List (List BlockInfo)) (i : ℕ) → i < length cs → get_elem? cs i ≢ none
get_elem?-in [] i h e = absurd (omega arith)
get_elem?-in (c ∷ cs) zero h e = cc
get_elem?-in (c ∷ cs) (suc i) h e = get_elem?-in cs i (omega arith) e

-- All indexes from `i` on.
abbrev range : ℕ → ℕ → List ℕ
range i zero = []
range i (suc n) = i ∷ range (suc i) n

indexes-in : (mine i n m : ℕ) → i + n ≤ m → All (λ k. k < m) (indexes_from mine i n)
unfolding indexes_from
indexes-in mine i zero m h = tt
indexes-in mine i (suc n) m h = elim (Bool-cases (i == mine)) [
  | inl e ↦ rw (e, indexes_from) (indexes-in mine (suc i) n m (omega arith))
  | inr e ↦ rw (e, indexes_from) (omega arith, indexes-in mine (suc i) n m (omega arith))
]

-- Without our own index, nothing is left out.
indexes-all : (mine i n : ℕ) → (mine < i) ⊎ (i + n ≤ mine) → indexes_from mine i n ≡ range i n
unfolding indexes_from
indexes-all mine i zero h = refl
indexes-all mine i (suc n) h = elim (Bool-cases (i == mine)) [
  | inl e ↦ absurd (ground arith)
  | inr e ↦ rw (e, indexes_from) (ap (◌∷◌ i) (indexes-all mine (suc i) n (ground arith)))
]

indexes-own :
    (mine i n : ℕ) → i ≤ mine → mine < i + n → Permᴰ (mine ∷ indexes_from mine i n) (range i n)
unfolding indexes_from
indexes-own mine i zero h k = absurd (omega arith)
indexes-own mine i (suc n) h k = elim (Bool-cases (i == mine)) [
  | inl e ↦
      let p = (==_iff i mine).0 e in
      rw (e, indexes_from)
        (Permᴰ.cons (sym p) (
          subst (λ l. Permᴰ l (range (suc i) n))
            (sym (indexes-all mine (suc i) n (inl (omega (arith, p)))))
            (Permᴰ.refl (range (suc i) n))))
  | inr e ↦
      rw (e, indexes_from)
        (Permᴰ.trans (Permᴰ.swap refl refl)
          (Permᴰ.cons refl (indexes-own mine (suc i) n (ground arith) (omega arith))))
]

own_chunk-at :
    (cs : List (List BlockInfo)) (i : ℕ) (c : List BlockInfo)
    → get_elem? cs i ≡ some c
    → own_chunk cs i ≡ c
unfolding own_chunk
own_chunk-at cs i c e = rw (e, own_chunk) refl

append_chunks-flat :
    (cs : List (List BlockInfo)) (ks : List ℕ)
    → All (λ i. i < length cs) ks
    → append_chunks cs ks ≡ some (flat (own_chunk cs) ks)
unfolding append_chunks flat
append_chunks-flat cs [] h = refl
append_chunks-flat cs (i ∷ ks) h = elim (Option-cases (get_elem? cs i)) [
  | inl e ↦ absurd (get_elem?-in cs i h.0 e)
  | inr (c, e) ↦
      rw (e, append_chunks-flat cs ks h.1, append_chunks)
        (ap (λ x. some (x ++ flat (own_chunk cs) ks)) (sym (own_chunk-at cs i c e)))
]

drop-get_elem? :
    (cs : List (List BlockInfo)) (i : ℕ) (c : List BlockInfo)
    → get_elem? cs i ≡ some c
    → drop i cs ≡ c ∷ drop (suc i) cs
drop-get_elem? [] i c e = cc
drop-get_elem? (d ∷ cs) zero c e = cc (e)
drop-get_elem? (d ∷ cs) (suc i) c e = drop-get_elem? cs i c e

flat-range :
    (cs : List (List BlockInfo)) (i n : ℕ)
    → i + n ≡ length cs
    → flat (own_chunk cs) (range i n) ≡ concat (drop i cs)
unfolding flat
flat-range cs i zero h = sym (ap concat (drop-all i cs (omega arith)))
flat-range cs i (suc n) h = elim (Option-cases (get_elem? cs i)) [
  | inl e ↦ absurd (get_elem?-in cs i (omega arith) e)
  | inr (c, e) ↦
      ap₂ (◌++◌) (own_chunk-at cs i c e) (flat-range cs (suc i) n (omega arith))
      ∙ sym (ap concat (drop-get_elem? cs i c e))
]

own_chunk-out : (cs : List (List BlockInfo)) (i : ℕ) → length cs ≤ i → own_chunk cs i ≡ []
unfolding own_chunk
own_chunk-out [] i h = refl
own_chunk-out (c ∷ cs) zero h = absurd (omega arith)
own_chunk-out (c ∷ cs) (suc i) h = own_chunk-out cs i (omega arith)

-- Our own chunk and the others are all chunks.
all_chunks :
    (cs : List (List BlockInfo)) (mine : ℕ)
    → Permᴰ
        (own_chunk cs mine ++ flat (own_chunk cs) (indexes_from mine 0 (length cs)))
        (flat (own_chunk cs) (range 0 (length cs)))
unfolding flat
all_chunks cs mine = elim (Bool-cases (ltb mine (length cs))) [
  | inl e ↦
      flat_of_perm (own_chunk cs) (indexes-own mine 0 (length cs) (omega arith) (ground arith))
  | inr e ↦
      rw (own_chunk-out cs mine (ground arith), indexes-all mine 0 (length cs) (inr (ground arith)))
        (Permᴰ.refl (flat (own_chunk cs) (range 0 (length cs))))
]

module _ (shuffle : List ℕ → List ℕ) (shuffle_blocks : List BlockInfo → List BlockInfo) where
  reorder_chunks-concat :
      ((ks : List ℕ) → Permᴰ (shuffle ks) ks)
      → (cs : List (List BlockInfo)) (mine : ℕ)
      → (r : List BlockInfo) × (reorder_chunks shuffle shuffle_blocks cs mine ≡ some r)
        × Permᴰ r (concat cs)
  unfolding reorder_chunks
  reorder_chunks-concat perm cs mine =
      let ks = indexes_from mine 0 (length cs) in
      let inside = indexes-in mine 0 (length cs) (length cs) (omega arith) in
      let fits = All_of_perm (λ k. k < length cs) (Permᴰ.symm (perm ks)) inside in
      (
        own_chunk cs mine ++ flat (own_chunk cs) (shuffle ks),
        rw (append_chunks-flat cs (shuffle ks) fits, reorder_chunks) refl,
        Permᴰ.trans (Permᴰ.append_left (own_chunk cs mine) (flat_of_perm (own_chunk cs) (perm ks)))
            (subst (Permᴰ (own_chunk cs mine ++ flat (own_chunk cs) ks))
              (flat-range cs 0 (length cs) (omega arith)) (all_chunks cs mine)),
      )

  pub standard_lem :
      ((ks : List ℕ) → Permᴰ (shuffle ks) ks)
      → (s : Standard) (bs : List BlockInfo)
      → (r : List BlockInfo) × (reorder shuffle shuffle_blocks (standard s) bs ≡ some r)
        × Permᴰ r bs
  unfolding reorder
  standard_lem perm s [] = ([], refl, Permᴰ.nil)
  standard_lem perm s (b ∷ bs) =
      let (r, e, p) = reorder_chunks-concat perm (chunk (b ∷ bs) s.count) s.my_index in
      let nonempty : (length (b ∷ bs) == 0) ≡ false = ground arith in
      (r, rw (nonempty, reorder) e, subst (Permᴰ r) (concat-chunk (b ∷ bs) s.count (omega arith)) p)
