-- ===== src/FileInfo/Blocks.antt =====
-- `BlockSize` of lib/protocol/bep_fileinfo.go: the block size for a file size.
use vidsync_app.Base.{ℕ, ◌*◌, ◌≤◌, ◌<◌, ◌≡◌, ◌⊎◌, arith, pos}
use vidsync_app.FileInfo.Compare.{pick_size, block_size}

abbrev pub min_block_size : ℕ
min_block_size = 131072

abbrev pub max_block_size : ℕ
max_block_size = 16777216

-- For a file whose size is not negative, the block size that `BlockSize` returns is from 128 KiB to
-- 16 MiB. The file is smaller than 2000 such blocks, so that it has at most 2000 of them, unless the
-- block size is 16 MiB; and it is not smaller than 2000 blocks of half the size, unless the block size
-- is 128 KiB.
pub block_size_lem :
    (size : ℕ)
    → (min_block_size ≤ block_size (pos size))
      × (block_size (pos size) ≤ max_block_size)
      × ((size < 2000 * block_size (pos size)) ⊎ (block_size (pos size) ≡ max_block_size))
      × ((2000 * block_size (pos size) ≤ 2 * size) ⊎ (block_size (pos size) ≡ min_block_size))
unfolding block_size pick_size
block_size_lem size = ground arith
