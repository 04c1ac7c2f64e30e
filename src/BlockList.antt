-- ===== src/BlockList.antt =====
-- The list of a file's blocks: `Blocks` of lib/scanner/blocks.go, and `blockDiff` and `populateOffsets` of
-- lib/model/folder_sendrecv.go.
mod Tests
pub mod Cut
pub mod Reused
use vidsync_app.Base.{
  ℕ, zero, suc, ◌+◌, Bool, true, false, ◌&&◌, ◌||◌, List, [], ◌∷◌, Option, none, some,
  if◌then◌else◌, ltb, length, take, drop, ℤ, pos, negsuc, ◌+ℤ◌,
}
use vidsync_app.DeviceId.Text.{Bytes, bytes_equal}
use vidsync_app.FileInfo.{BlockInfo}

abbrev pub sha256_of_nothing : Bytes
sha256_of_nothing =
    0xe3 ∷ 0xb0 ∷ 0xc4 ∷ 0x42 ∷ 0x98 ∷ 0xfc ∷ 0x1c ∷ 0x14 ∷ 0x9a ∷ 0xfb ∷ 0xf4 ∷ 0xc8 ∷ 0x99 ∷ 0x6f
    ∷ 0xb9 ∷ 0x24 ∷ 0x27 ∷ 0xae ∷ 0x41 ∷ 0xe4 ∷ 0x64 ∷ 0x9b ∷ 0x93 ∷ 0x4c ∷ 0xa4 ∷ 0x95 ∷ 0x99
    ∷ 0x1b ∷ 0x78 ∷ 0x52 ∷ 0xb8 ∷ 0x55 ∷ []

-- A reader: what it gives, and whether an error follows it instead of the end.
pub record Reader : Type 0 where
  pub content : Bytes
  pub fails : Bool

-- `io.LimitReader(r, sizehint)`, where the hint is not negative.
unfoldable pub limit : ℤ → Reader → Reader
limit (negsuc n) r = r
limit (pos n) r = record { content = take n r.content; fails = r.fails && ltb (length r.content) n }

-- The loop, as the data of each round; the fuel is the length of the data.
unfoldable pub chunks : ℕ → ℕ → Bytes → List Bytes
chunks zero size data_left = []
chunks (suc fuel) size [] = []
chunks (suc fuel) zero (b ∷ bs) = []
chunks (suc fuel) (suc n) (b ∷ bs) =
    take (suc n) (b ∷ bs) ∷ chunks fuel (suc n) (drop (suc n) (b ∷ bs))

-- SHA-256 is a parameter.
module _ (hash : Bytes → Bytes) where
  unfoldable pub block_infos : ℕ → List Bytes → List BlockInfo
  block_infos offset [] = []
  block_infos offset (c ∷ cs) =
      record { hash = hash c; offset = pos offset; size = pos (length c) }
      ∷ block_infos (offset + length c) cs

  unfoldable pub or_empty : List BlockInfo → List BlockInfo
  or_empty [] = record { hash = sha256_of_nothing; offset = pos 0; size = pos 0 } ∷ []
  or_empty (b ∷ bs) = b ∷ bs

  unfoldable pub blocks_of : ℕ → Bytes → List BlockInfo
  unfolding chunks block_infos or_empty
  blocks_of size content = or_empty (block_infos 0 (chunks (length content) size content))

  -- None is an error of the context, which may be done in some round, or of the reader.
  unfoldable pub blocks : Bool → ℕ → ℤ → Reader → Option (List BlockInfo)
  unfolding limit blocks_of
  blocks cancelled size sizehint r =
      let l = limit sizehint r in
      if cancelled || l.fails then none else some (blocks_of size l.content)

  -- `Validate`.
  unfoldable pub validate : Bytes → Bytes → Bool
  validate buf [] = true
  validate buf (h ∷ hs) = bytes_equal (hash buf) (h ∷ hs)

unfoldable pub offsets_from : ℤ → List BlockInfo → List BlockInfo
offsets_from offset [] = []
offsets_from offset (b ∷ bs) = record b { offset = offset } ∷ offsets_from (offset +ℤ b.size) bs

unfoldable pub populate_offsets : List BlockInfo → List BlockInfo
unfolding offsets_from
populate_offsets bs = offsets_from (pos 0) bs

-- The loop of `blockDiff`.
unfoldable pub diff_loop : List BlockInfo → List BlockInfo → List BlockInfo × List BlockInfo
diff_loop ss [] = ([], [])
diff_loop [] (t ∷ ts) = ([], t ∷ ts)
diff_loop (s ∷ ss) (t ∷ ts) =
    let (have, need) = diff_loop ss ts in
    if bytes_equal t.hash s.hash then (t ∷ have, need) else (have, t ∷ need)

unfoldable pub block_diff : List BlockInfo → List BlockInfo → List BlockInfo × List BlockInfo
unfolding diff_loop
block_diff ss [] = ([], [])
block_diff [] (t ∷ ts) = ([], t ∷ ts)
block_diff (s ∷ ss) (t ∷ ts) = diff_loop (s ∷ ss) (t ∷ ts)
