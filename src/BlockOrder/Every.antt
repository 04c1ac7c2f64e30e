-- ===== src/BlockOrder/Every.antt =====
-- Every order of lib/model/blockpullreorderer.go pulls every block once.
use mathlib.Core.List.{Permᴰ}
use mathlib.Core.List.Permᴰ
use vidsync_app.Base.{
  ℕ, suc, ◌≡◌, refl, ◌⊎◌, inl, inr, true, List, [], ◌∷◌, ◌++◌, some, length, Bool-cases,
  Option-cases, ℤ, eqb_ℤ,
}
use vidsync_app.DeviceId.Text.{Bytes, bytes_equal, bytes_equal_refl}
use vidsync_app.Upgrade.{text_less}
use vidsync_app.FileInfo.{BlockInfo}
use vidsync_app.BlockOrder.{
  order_random, order_in_order, Standard, Reorderer, in_order, random, standard, insert, sort,
  find_index, new_standard, new_reorderer, reorder,
}
use vidsync_app.BlockOrder.Reorder.{standard_lem}

abbrev Found : Bytes → List Bytes → Type 0
Found id ds = (i : ℕ) × (find_index id ds ≡ some i)

Found-cons : (id d : Bytes) (ds : List Bytes) → Found id ds → Found id (d ∷ ds)
unfolding find_index
Found-cons id d ds (i, f) = elim (Bool-cases (bytes_equal d id)) [
  | inl e ↦ (0, rw (e, find_index) refl)
  | inr e ↦ (suc i, rw (e, f, find_index) refl)
]

Found-head : (id d : Bytes) (ds : List Bytes) → bytes_equal d id ≡ true → Found id (d ∷ ds)
unfolding find_index
Found-head id d ds e = (0, rw (e, find_index) refl)

Found-either :
    (id d : Bytes) (ds : List Bytes) → Found id (d ∷ ds) → (bytes_equal d id ≡ true) ⊎ Found id ds
unfolding find_index
Found-either id d ds (i, f) = elim (Bool-cases (bytes_equal d id)) [
  | inl e ↦ inl e
  | inr e ↦ elim (Option-cases (find_index id ds)) [
    | inl n ↦ absurd (cc (rw (e, n, find_index) at f))
    | inr (j, g) ↦ inr (j, g)
  ]
]

insert-Found_self : (id : Bytes) (es : List Bytes) → Found id (insert id es)
unfolding insert
insert-Found_self id [] = Found-head id id [] (bytes_equal_refl id)
insert-Found_self id (e ∷ es) = elim (Bool-cases (text_less e id)) [
  | inl l ↦ rw (l, insert) (Found-cons id e (insert id es) (insert-Found_self id es))
  | inr l ↦ rw (l, insert) (Found-head id id (e ∷ es) (bytes_equal_refl id))
]

insert-Found : (id d : Bytes) (es : List Bytes) → Found id es → Found id (insert d es)
unfolding insert
insert-Found id d [] f = Found-cons id d [] f
insert-Found id d (e ∷ es) f = elim (Bool-cases (text_less e d)) [
  | inr l ↦ rw (l, insert) (Found-cons id d (e ∷ es) f)
  | inl l ↦
      rw (l, insert)
        (elim (Found-either id e es f) [
          | inl h ↦ Found-head id e (insert d es) h
          | inr g ↦ Found-cons id e (insert d es) (insert-Found id d es g)
        ])
]

sort-Found : (id : Bytes) (others : List Bytes) → Found id (sort (others ++ id ∷ []))
unfolding sort
sort-Found id [] = insert-Found_self id []
sort-Found id (d ∷ ds) = insert-Found id d (sort (ds ++ id ∷ [])) (sort-Found id ds)

new_standard-total :
    (id : Bytes) (others : List Bytes) → (s : Standard) × (new_standard id others ≡ some s)
unfolding new_standard
new_standard-total id others =
    let (i, f) = sort-Found id others in
    (record { my_index = i; count = length (sort (others ++ id ∷ [])) }, rw (f, new_standard) refl)

module _ (shuffle : List ℕ → List ℕ) (shuffle_blocks : List BlockInfo → List BlockInfo) where
  -- Each block pull order can be set up for every device and its peers, and reorders the blocks of
  -- a file without a panic into a permutation of them, so that every block is pulled exactly once.
  -- The shuffles of lib/rand are taken to permute what they are given.
  pub reorder_lem :
      ((ks : List ℕ) → Permᴰ (shuffle ks) ks)
      → ((bs : List BlockInfo) → Permᴰ (shuffle_blocks bs) bs)
      → (order : ℤ) (id : Bytes) (others : List Bytes) (blocks : List BlockInfo)
      → (o : Reorderer) × (r : List BlockInfo) × (new_reorderer order id others ≡ some o)
        × (reorder shuffle shuffle_blocks o blocks ≡ some r)
        × Permᴰ r blocks
  unfolding new_reorderer reorder
  reorder_lem perm perm_blocks order id others blocks =
      elim (Bool-cases (eqb_ℤ order order_random)) [
        | inl e ↦
            (random, shuffle_blocks blocks, rw (e, new_reorderer) refl, refl, perm_blocks blocks)
        | inr e ↦ elim (Bool-cases (eqb_ℤ order order_in_order)) [
          | inl f ↦ (in_order, blocks, rw (e, f, new_reorderer) refl, refl, Permᴰ.refl blocks)
          | inr f ↦
              let (s, g) = new_standard-total id others in
              let (r, h, p) = standard_lem shuffle shuffle_blocks perm s blocks in
              (standard s, r, rw (e, f, g, new_reorderer) refl, h, p)
        ]
      ]
