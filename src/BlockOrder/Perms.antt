-- ===== src/BlockOrder/Perms.antt =====
-- Permutations of lists that are put together from parts, for the reordering of blocks.
use mathlib.Core.List.{Permᴰ}
use mathlib.Core.List.Permᴰ
use vidsync_app.Base.{ℕ, refl, subst, List, [], ◌∷◌, ◌++◌, All}

module _ {ℓ} {A : Type ℓ} where
  move_middle : (x : A) (b l : List A) → Permᴰ (x ∷ (b ++ l)) (b ++ (x ∷ l))
  move_middle x [] l = Permᴰ.refl (x ∷ l)
  move_middle x (y ∷ b) l = Permᴰ.trans (Permᴰ.swap refl refl) (Permᴰ.cons refl (move_middle x b l))

  pub exchange : (a b l : List A) → Permᴰ (a ++ (b ++ l)) (b ++ (a ++ l))
  exchange [] b l = Permᴰ.refl (b ++ l)
  exchange (x ∷ a) b l = Permᴰ.trans (Permᴰ.cons refl (exchange a b l)) (move_middle x b (a ++ l))

  pub All_of_perm {κ} : (P : A → Type κ) {xs ys : List A} → Permᴰ xs ys → All P xs → All P ys
  All_of_perm P Permᴰ.nil h = tt
  All_of_perm P (Permᴰ.cons e d) h = (subst P e h.0, All_of_perm P d h.1)
  All_of_perm P (Permᴰ.swap e f) h = (subst P f h.1.0, (subst P e h.0, h.1.1))
  All_of_perm P (Permᴰ.trans d e) h = All_of_perm P e (All_of_perm P d h)

  -- The parts with these indexes, one after the other.
  unfoldable pub flat : (ℕ → List A) → List ℕ → List A
  flat pick [] = []
  flat pick (i ∷ ks) = pick i ++ flat pick ks

  pub flat_of_perm :
      (pick : ℕ → List A) {is js : List ℕ} → Permᴰ is js → Permᴰ (flat pick is) (flat pick js)
  unfolding flat
  flat_of_perm pick Permᴰ.nil = Permᴰ.nil
  flat_of_perm pick (Permᴰ.cons {a = a} {l₁ = l} {l₂ = m} e d) =
      subst (λ c. Permᴰ (pick a ++ flat pick l) (pick c ++ flat pick m)) e
        (Permᴰ.append_left (pick a) (flat_of_perm pick d))
  flat_of_perm pick (Permᴰ.swap {a = a} {b = b} {b' = d} {l = l} e f) =
      subst (λ x. Permᴰ (pick a ++ (pick b ++ flat pick l)) (pick x ++ (pick d ++ flat pick l))) f
        (subst (λ y. Permᴰ (pick a ++ (pick b ++ flat pick l)) (pick b ++ (pick y ++ flat pick l)))
          e (exchange (pick a) (pick b) (flat pick l)))
  flat_of_perm pick (Permᴰ.trans d e) = Permᴰ.trans (flat_of_perm pick d) (flat_of_perm pick e)
