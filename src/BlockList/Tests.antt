-- ===== src/BlockList/Tests.antt =====
-- Runs of the list of blocks, and the theorems at such inputs. The hash is the data behind a zero.
use vidsync_app.Base.{◌≡◌, refl, false, List, [], ◌∷◌, some, pos, negsuc}
use vidsync_app.DeviceId.Text.{Bytes, bytes_equal}
use vidsync_app.FileInfo.{BlockInfo}
use vidsync_app.BlockList.{
  Reader, limit, chunks, block_infos, or_empty, blocks_of, blocks, sha256_of_nothing,
  populate_offsets, diff_loop, block_diff,
}
use vidsync_app.BlockList.Cut.{Listing, blocks-Listing}

abbrev mark : Bytes → Bytes
mark [] = sha256_of_nothing
mark (b ∷ bs) = 0 ∷ (b ∷ bs)

abbrev tail_of : Bytes → Bytes
tail_of [] = []
tail_of (x ∷ xs) = xs

abbrev before : Bytes
before = 1 ∷ 2 ∷ 3 ∷ 4 ∷ 5 ∷ []

abbrev later : Bytes
later = 1 ∷ 2 ∷ 9 ∷ 4 ∷ 5 ∷ []

abbrev whole : Reader
whole = record { content = later; fails = false }

-- Blocks of two bytes: the first and the last one are there, the second one is needed.
two_there : block_diff (blocks_of mark 2 before) (blocks_of mark 2 later) ≡ (
  record { hash = 0 ∷ 1 ∷ 2 ∷ []; offset = pos 0; size = pos 2 }
      ∷ record { hash = 0 ∷ 5 ∷ []; offset = pos 4; size = pos 1 }
      ∷ [],
  record { hash = 0 ∷ 9 ∷ 4 ∷ []; offset = pos 2; size = pos 2 } ∷ [],
)
unfolding block_diff diff_loop blocks_of chunks block_infos or_empty bytes_equal
two_there = refl

no_failure : (limit (negsuc 0) whole).fails ≡ false
unfolding limit
no_failure = refl

blocks-Listing_example :
    (bs : List BlockInfo) × (blocks mark false 2 (negsuc 0) whole ≡ some bs)
    × Listing mark 2 (limit (negsuc 0) whole).content bs
    × (populate_offsets bs ≡ bs)
blocks-Listing_example = blocks-Listing mark 1 (negsuc 0) whole no_failure
