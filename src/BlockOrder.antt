-- ===== src/BlockOrder.antt =====
-- lib/model/blockpullreorderer.go: in which order the blocks of a file are pulled. The shuffles of
-- lib/rand are parameters.
pub mod Perms
pub mod Reorder
pub mod Every
mod Tests
use vidsync_app.Base.{
  ℕ, zero, suc, ◌+◌, ◌-◌, ◌/◌, Bool, true, false, List, [], ◌∷◌, ◌++◌, Option, none, some, ltb,
  ◌==◌, if◌then◌else◌, length, get_elem?, take, drop, ℤ, pos, eqb_ℤ,
}
use vidsync_app.DeviceId.Text.{Bytes, bytes_equal}
use vidsync_app.Upgrade.{text_less}
use vidsync_app.FileInfo.{BlockInfo}

-- `BlockPullOrder`, an `int32`.
abbrev pub order_random : ℤ
order_random = pos 1

abbrev pub order_in_order : ℤ
order_in_order = pos 2

pub record Standard : Type 0 where
  pub my_index : ℕ
  pub count : ℕ

pub data Reorderer : Type 0 where
  in_order random : Reorderer
  standard : Standard → Reorderer

-- `slices.SortFunc` by `Compare`, as insertion.
unfoldable pub insert : Bytes → List Bytes → List Bytes
insert d [] = d ∷ []
insert d (e ∷ es) = let rest = insert d es in if text_less e d then e ∷ rest else d ∷ e ∷ es

unfoldable pub sort : List Bytes → List Bytes
sort [] = []
sort (d ∷ ds) = insert d (sort ds)

-- The loop that looks for our index.
unfoldable pub find_index : Bytes → List Bytes → Option ℕ
find_index id [] = none
find_index id (d ∷ ds) = elim (bytes_equal d id) [
  | true ↦ some 0
  | false ↦ elim (find_index id ds) [ none ↦ none | some i ↦ some (suc i) ]
]

-- `none` is the panic when there is no index.
unfoldable pub new_standard : Bytes → List Bytes → Option Standard
new_standard id others =
    let all = sort (others ++ id ∷ []) in
    elim (find_index id all) [
      | none ↦ none
      | some i ↦ some (record { my_index = i; count = length all })
    ]

unfoldable pub new_reorderer : ℤ → Bytes → List Bytes → Option Reorderer
unfolding new_standard
new_reorderer order id others = elim (eqb_ℤ order order_random) [
  | true ↦ some random
  | false ↦ elim (eqb_ℤ order order_in_order) [
    | true ↦ some in_order
    | false ↦ elim (new_standard id others) [ none ↦ none | some s ↦ some (standard s) ]
  ]
]

-- The loop of `chunk`, over the blocks from `i` on. The fuel is the number of blocks, of which each
-- round takes at least one.
unfoldable pub cut : ℕ → ℕ → List BlockInfo → List (List BlockInfo)
cut zero size bs = []
cut (suc n) size [] = []
cut (suc n) size (b ∷ bs) = take size (b ∷ bs) ∷ cut n size (drop size (b ∷ bs))

unfoldable pub chunk : List BlockInfo → ℕ → List (List BlockInfo)
unfolding cut
chunk blocks part_count =
    if part_count == 0
    then blocks ∷ []
    else cut (length blocks) ((length blocks + part_count - 1) / part_count) blocks

-- The indexes from `i` on, `n` of them, without our own.
unfoldable pub indexes_from : ℕ → ℕ → ℕ → List ℕ
indexes_from mine i zero = []
indexes_from mine i (suc n) =
    let rest = indexes_from mine (suc i) n in if i == mine then rest else i ∷ rest

-- The last loop. `none` is the panic of an index out of range.
unfoldable pub append_chunks : List (List BlockInfo) → List ℕ → Option (List BlockInfo)
append_chunks chunks [] = some []
append_chunks chunks (i ∷ ks) = elim (get_elem? chunks i) [
  | none ↦ none
  | some c ↦ elim (append_chunks chunks ks) [ none ↦ none | some rest ↦ some (c ++ rest) ]
]

-- Our own chunk, if there is one.
unfoldable pub own_chunk : List (List BlockInfo) → ℕ → List BlockInfo
own_chunk chunks mine = elim (get_elem? chunks mine) [ none ↦ [] | some c ↦ c ]

module _ (shuffle : List ℕ → List ℕ) (shuffle_blocks : List BlockInfo → List BlockInfo) where
  unfoldable pub reorder_chunks : List (List BlockInfo) → ℕ → Option (List BlockInfo)
  reorder_chunks chunks mine =
      elim (append_chunks chunks (shuffle (indexes_from mine 0 (length chunks)))) [
        | none ↦ none
        | some rest ↦ some (own_chunk chunks mine ++ rest)
      ]

  unfoldable pub reorder : Reorderer → List BlockInfo → Option (List BlockInfo)
  unfolding chunk reorder_chunks
  reorder in_order blocks = some blocks
  reorder random blocks = some (shuffle_blocks blocks)
  reorder (standard s) blocks =
      if length blocks == 0 then some blocks else reorder_chunks (chunk blocks s.count) s.my_index
