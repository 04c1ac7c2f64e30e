-- ===== src/FileInfo/Tests.antt =====
-- Runs of lib/protocol/bep_fileinfo.go, and the theorems at such inputs.
use vidsync_app.Base.{
  ◌*◌, ◌≤◌, ◌<◌, ◌≡◌, ◌⊎◌, refl, true, false, not, [], ◌∷◌, some, arith, pos, negsuc,
}
use vidsync_app.Vector.{compare, concurrent, greater, counter}
use vidsync_app.FileInfo.{
  FileInfo, is_invalid, wins_conflict, in_conflict_with, set_deleted, file_size, type_file,
  has_flag,
}
use vidsync_app.FileInfo.Platform.{
  xattrs, set_xattrs, on_linux, on_darwin, on_freebsd, on_netbsd, xattrs-set_xattrs,
}
use vidsync_app.FileInfo.Compare.{FileInfoComparison, mod_time_equal, block_size}
use vidsync_app.FileInfo.Blocks.{min_block_size, max_block_size, block_size_lem}
use vidsync_app.FileInfo.Conflict.{wins_conflict-one, set_deleted_lem}
use vidsync_app.FileInfo.Equivalent.{mod_time_equal_far}
use vidsync_app.FileInfo.Wire.{to_wire, from_wire, no_platform, file_message}
use vidsync_app.FileInfo.Wire.RoundTrip.{Fits, received, from_wire-to_wire}

abbrev photo : FileInfo
photo = record {
  name = "photo.jpg";
  size = pos 10;
  modified_s = pos 100;
  modified_by = 3;
  version = record { id = 3; value = 5 } ∷ [];
  sequence = pos 1;
  blocks = record { hash = 1 ∷ []; offset = pos 0; size = pos 10 } ∷ [];
  symlink_target = [];
  blocks_hash = 9 ∷ [];
  previous_blocks_hash = [];
  encrypted = [];
  platform = no_platform;
  type = type_file;
  permissions = 0o644;
  modified_ns = pos 0;
  raw_block_size = pos 131072;
  local_flags = 2;
  encryption_trailer_size = pos 0;
  deleted = false;
  no_permissions = false;
  truncated = false;
}

abbrev edited : FileInfo
edited = record photo { version = record { id = 4; value = 1 } ∷ []; size = pos 12 }

abbrev whole : FileInfoComparison
whole = record {
  mod_time_window = pos 0;
  ignore_perms = false;
  ignore_blocks = false;
  ignore_flags = 0;
  ignore_ownership = false;
  ignore_xattrs = false;
}

photo-Fits : Fits photo
photo-Fits = record {
  block_sizes = (record { low = omega arith; high = omega arith }, tt);
  owner = tt;
  trailer = record { low = omega arith; high = omega arith };
}

ignored_is_invalid : is_invalid photo ≡ true
unfolding is_invalid has_flag
ignored_is_invalid = refl

block_size_run : block_size (pos 300000000) ≡ 262144
unfolding block_size
block_size_run = refl

block_size_lem_example :
    (min_block_size ≤ block_size (pos 300000000))
    × (block_size (pos 300000000) ≤ max_block_size)
    × ((300000000 < 2000 * block_size (pos 300000000))
        ⊎ (block_size (pos 300000000) ≡ max_block_size))
    × ((2000 * block_size (pos 300000000) ≤ 2 * 300000000)
        ⊎ (block_size (pos 300000000) ≡ min_block_size))
block_size_lem_example = block_size_lem 300000000

wins_conflict-one_example : wins_conflict photo edited ≡ not (wins_conflict edited photo)
unfolding concurrent compare
wins_conflict-one_example = wins_conflict-one photo edited refl

set_deleted_lem_example :
    (in_conflict_with (set_deleted photo 3 0) photo ≡ false)
    × (compare (set_deleted photo 3 0).version photo.version ≡ greater)
    × (file_size (set_deleted photo 3 0) ≡ pos 0)
    × ((set_deleted photo 3 0).blocks ≡ [])
unfolding counter
set_deleted_lem_example = set_deleted_lem photo 3 0 (omega arith) (omega arith)

mod_time_equal_far_example :
    (mod_time_equal (negsuc 9999999999999999999) (pos 0) (pos 0) ≡ true)
    × (mod_time_equal (pos 0) (negsuc 9999999999999999999) (pos 0) ≡ false)
mod_time_equal_far_example =
    mod_time_equal_far (negsuc 9999999999999999999) (pos 0) 0 (omega arith) (omega arith)

xattrs_kept :
    (xattrs on_linux (set_xattrs on_linux no_platform []) ≡ [])
    × (xattrs on_darwin (set_xattrs on_darwin no_platform []) ≡ [])
    × (xattrs on_freebsd (set_xattrs on_freebsd no_platform []) ≡ [])
    × (xattrs on_netbsd (set_xattrs on_netbsd no_platform []) ≡ [])
xattrs_kept = xattrs-set_xattrs no_platform []

sent : to_wire false photo ≡ some (file_message false photo)
unfolding to_wire
sent = refl

from_wire-to_wire_example :
    (from_wire (file_message false photo) ≡ received photo)
    × (is_invalid (from_wire (file_message false photo)) ≡ is_invalid photo)
from_wire-to_wire_example = from_wire-to_wire photo (file_message false photo) photo-Fits sent
