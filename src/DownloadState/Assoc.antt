-- ===== src/DownloadState/Assoc.antt =====
-- Go's `map[string]V`, as a list of keys and values of which the first for a key counts.
use Prim.Native.String.{String}
use text.Mathlib.Text.{◌==◌ as str_eq}
use text.Mathlib.TextEquality.{eq_iff}
use vidsync_app.Base.{
  ◌≡◌, ◌≢◌, ◌⊎◌, inl, inr, refl, sym, ◌∙◌, true, false, List, [], ◌∷◌, Option, none, some,
  Bool-cases,
}

pub key_cases : (k j : String) → ((k ≡ j) × (str_eq k j ≡ true)) ⊎ ((k ≢ j) × (str_eq k j ≡ false))
key_cases k j = elim (Bool-cases (str_eq k j)) [
  | inl e ↦ inl ((eq_iff k j).0 e, e)
  | inr e ↦ inr (λ h. cc (e, (eq_iff k j).1 h), e)
]

pub str_eq_refl : (k : String) → str_eq k k ≡ true
str_eq_refl k = (eq_iff k k).1 refl

pub str_eq-false : (k j : String) → k ≢ j → str_eq k j ≡ false
str_eq-false k j n = elim (key_cases k j) [ inl (e, _) ↦ absurd (n e) | inr (_, e) ↦ e ]

module _ {ℓ} {V : Type ℓ} where
  -- `m[k]`, with `none` for a key that is not there.
  unfoldable pub lookup : String → List (String × V) → Option V
  lookup k [] = none
  lookup k ((j, v) ∷ m) = elim (str_eq j k) [ true ↦ some v | false ↦ lookup k m ]

  -- `m[k] = v`.
  unfoldable pub store : String → V → List (String × V) → List (String × V)
  store k v [] = (k, v) ∷ []
  store k v ((j, w) ∷ m) = elim (str_eq j k) [ true ↦ (j, v) ∷ m | false ↦ (j, w) ∷ store k v m ]

  -- `delete(m, k)`.
  unfoldable pub delete : String → List (String × V) → List (String × V)
  delete k [] = []
  delete k ((j, w) ∷ m) = elim (str_eq j k) [ true ↦ delete k m | false ↦ (j, w) ∷ delete k m ]

  pub lookup-hit :
      (j k : String) (v : V) (m : List (String × V))
      → str_eq j k ≡ true
      → lookup k ((j, v) ∷ m) ≡ some v
  unfolding lookup
  lookup-hit j k v m e = rw (e, lookup) refl

  pub lookup-miss :
      (j k : String) (v : V) (m : List (String × V))
      → str_eq j k ≡ false
      → lookup k ((j, v) ∷ m) ≡ lookup k m
  unfolding lookup
  lookup-miss j k v m e = rw (e, lookup) refl

  pub lookup-store_self :
      (k : String) (v : V) (m : List (String × V)) → lookup k (store k v m) ≡ some v
  unfolding store
  lookup-store_self k v [] = lookup-hit k k v [] (str_eq_refl k)
  lookup-store_self k v ((j, w) ∷ m) = elim (Bool-cases (str_eq j k)) [
    | inl e ↦ rw (e, store) (lookup-hit j k v m e)
    | inr e ↦ rw (e, store) (lookup-miss j k w (store k v m) e ∙ lookup-store_self k v m)
  ]

  -- Two maps whose first entries have the same key and value, or a key that is not looked for.
  pub same_head :
      (i j : String) (w : V) (m n : List (String × V))
      → lookup j m ≡ lookup j n
      → lookup j ((i, w) ∷ m) ≡ lookup j ((i, w) ∷ n)
  same_head i j w m n h = elim (Bool-cases (str_eq i j)) [
    | inl e ↦ lookup-hit i j w m e ∙ sym (lookup-hit i j w n e)
    | inr e ↦ lookup-miss i j w m e ∙ h ∙ sym (lookup-miss i j w n e)
  ]

  pub lookup-store_other :
      (k j : String) (v : V) (m : List (String × V)) → k ≢ j → lookup j (store k v m) ≡ lookup j m
  unfolding store
  lookup-store_other k j v [] n = lookup-miss k j v [] (str_eq-false k j n)
  lookup-store_other k j v ((i, w) ∷ m) n = elim (key_cases i k) [
    | inl (p, e) ↦
        let d = str_eq-false i j (λ h. n (sym p ∙ h)) in
        rw (e, store) (lookup-miss i j v m d ∙ sym (lookup-miss i j w m d))
    | inr (_, e) ↦ rw (e, store) (same_head i j w (store k v m) m (lookup-store_other k j v m n))
  ]

  pub lookup-delete_self : (k : String) (m : List (String × V)) → lookup k (delete k m) ≡ none
  unfolding lookup delete
  lookup-delete_self k [] = refl
  lookup-delete_self k ((j, w) ∷ m) = elim (Bool-cases (str_eq j k)) [
    | inl e ↦ rw (e, delete) (lookup-delete_self k m)
    | inr e ↦ rw (e, delete) (lookup-miss j k w (delete k m) e ∙ lookup-delete_self k m)
  ]

  pub lookup-delete_other :
      (k j : String) (m : List (String × V)) → k ≢ j → lookup j (delete k m) ≡ lookup j m
  unfolding lookup delete
  lookup-delete_other k j [] n = refl
  lookup-delete_other k j ((i, w) ∷ m) n = elim (key_cases i k) [
    | inl (p, e) ↦
        let d = str_eq-false i j (λ h. n (sym p ∙ h)) in
        rw (e, delete) (lookup-delete_other k j m n ∙ sym (lookup-miss i j w m d))
    | inr (_, e) ↦ rw (e, delete) (same_head i j w (delete k m) m (lookup-delete_other k j m n))
  ]
