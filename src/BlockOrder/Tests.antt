-- ===== src/BlockOrder/Tests.antt =====
-- Runs of lib/model/blockpullreorderer.go, and its theorem at such inputs.
use mathlib.Core.List.{Permᴰ}
use mathlib.Core.List.Permᴰ
use vidsync_app.Base.{ℕ, ◌≡◌, refl, List, [], ◌∷◌, some, pos, replicate}
use vidsync_app.DeviceId.Text.{Bytes, bytes_equal}
use vidsync_app.Upgrade.{text_less}
use vidsync_app.FileInfo.{BlockInfo}
use vidsync_app.BlockOrder.{
  Reorderer, new_standard, sort, insert, find_index, new_reorderer, reorder, chunk,
}
use vidsync_app.BlockOrder.Every.{reorder_lem}

abbrev block : ℕ → BlockInfo
block n = record { hash = n ∷ []; offset = pos n; size = pos 1 }

abbrev five : List BlockInfo
five = block 0 ∷ block 1 ∷ block 2 ∷ block 3 ∷ block 4 ∷ []

abbrev device : ℕ → Bytes
device n = replicate 32 n

chunk_run : chunk five 3 ≡ (block 0 ∷ block 1 ∷ []) ∷ (block 2 ∷ block 3 ∷ []) ∷ (block 4 ∷ []) ∷ []
unfolding chunk
chunk_run = refl

index_run :
    new_standard (device 2) (device 3 ∷ device 1 ∷ []) ≡ some (record { my_index = 1; count = 3 })
unfolding new_standard sort insert find_index bytes_equal text_less
index_run = refl

abbrev keep {ℓ} : {A : Type ℓ} → List A → List A
keep xs = xs

reorder_lem_example :
    (o : Reorderer) × (r : List BlockInfo) × (new_reorderer
        (pos 0)
        (device 2)
        (device 3 ∷ device 1 ∷ [])
      ≡ some o)
    × (reorder keep keep o five ≡ some r)
    × Permᴰ r five
reorder_lem_example =
    reorder_lem keep keep (λ ks. Permᴰ.refl ks) (λ bs. Permᴰ.refl bs) (pos 0) (device 2)
      (device 3 ∷ device 1 ∷ []) five
