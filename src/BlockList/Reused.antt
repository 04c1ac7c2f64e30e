-- ===== src/BlockList/Reused.antt =====
-- What `blockDiff` of lib/model/folder_sendrecv.go says of two files of which it gets the blocks.
use vidsync_app.Base.{◌≡◌, List, [], ◌∷◌, take, drop, pos_part}
use vidsync_app.DeviceId.Text.{Bytes}
use vidsync_app.FileInfo.{BlockInfo}

-- Two lists that together are a third one, each in its order.
pub data Interleaved : List BlockInfo → List BlockInfo → List BlockInfo → Type 0 where
  none_left : Interleaved [] [] []
  left :
      (b : BlockInfo) (xs ys zs : List BlockInfo)
      → Interleaved xs ys zs
      → Interleaved (b ∷ xs) ys (b ∷ zs)
  right :
      (b : BlockInfo) (xs ys zs : List BlockInfo)
      → Interleaved xs ys zs
      → Interleaved xs (b ∷ ys) (b ∷ zs)

-- The bytes at the place of a block are the same in both files.
abbrev pub InPlace : Bytes → Bytes → BlockInfo → Type 0
InPlace old new b =
    take (pos_part b.size) (drop (pos_part b.offset) old)
    ≡ take (pos_part b.size) (drop (pos_part b.offset) new)
