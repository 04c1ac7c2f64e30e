-- ===== src/FileInfo.antt =====
-- lib/protocol/bep_fileinfo.go: the state of one file, as devices exchange it.
mod Tests
pub mod Platform
pub mod Wire
pub mod Conflict
pub mod Compare
pub mod Equivalent
pub mod Blocks
use Prim.Native.Nat.{bit_and}
use Prim.Native.String.{String}
use text.Mathlib.Text.{◌==◌ as str_eq}
use vidsync_app.Base.{
  ℕ, ◌+◌, ◌-◌, ◌*◌, Bool, true, false, not, ◌&&◌, ◌||◌, List, [], ◌∷◌, Option, none, some, ◌==◌,
  ltb, leb, if◌then◌else◌, length, ℤ, pos, negsuc, ◌+ℤ◌, ◌-ℤ◌, ltb_ℤ, leb_ℤ, eqb_ℤ,
}
use vidsync_app.DeviceId.Text.{Bytes, bytes_equal}
use vidsync_app.Vector.{
  Vector, update_with_now, compare, greater_equal, Ordering, concurrent_greater,
}
use Platform.{PlatformData, xattrs_equal, unix_ownership_equal, windows_ownership_equal, bool_eq}

-- The bits of `FlagLocal`, a `uint32`.
abbrev pub flag_local_unsupported : ℕ
flag_local_unsupported = 1

abbrev pub flag_local_ignored : ℕ
flag_local_ignored = 2

abbrev pub flag_local_must_rescan : ℕ
flag_local_must_rescan = 4

abbrev pub flag_local_receive_only : ℕ
flag_local_receive_only = 8

abbrev pub flag_local_remote_invalid : ℕ
flag_local_remote_invalid = 64

-- The or of the bits 1, 2, 4, 8 and 64.
abbrev pub local_invalid_flags : ℕ
local_invalid_flags = 79

-- The or of the bits 1, 2 and 8.
abbrev pub local_conflict_flags : ℕ
local_conflict_flags = 11

-- `f & mask != 0`.
unfoldable pub has_flag : ℕ → ℕ → Bool
has_flag f mask = not (bit_and f mask == 0)

-- `f &^ mask`.
unfoldable pub clear_flags : ℕ → ℕ → ℕ
clear_flags f mask = f - bit_and f mask

-- `FileInfoType`, an `int32` with five named values.
abbrev pub FileInfoType : Type 0
FileInfoType = ℤ

abbrev pub type_file : FileInfoType
type_file = pos 0

abbrev pub type_directory : FileInfoType
type_directory = pos 1

abbrev pub type_symlink_file : FileInfoType
type_symlink_file = pos 2

abbrev pub type_symlink_directory : FileInfoType
type_symlink_directory = pos 3

abbrev pub type_symlink : FileInfoType
type_symlink = pos 4

pub record BlockInfo : Type 0 where
  pub hash : Bytes
  pub offset : ℤ
  pub size : ℤ

pub record FileInfo : Type 0 where
  pub name : String
  pub size : ℤ
  pub modified_s : ℤ
  pub modified_by : ℕ
  pub version : Vector
  pub sequence : ℤ
  pub blocks : List BlockInfo
  pub symlink_target : Bytes
  pub blocks_hash : Bytes
  pub previous_blocks_hash : Bytes
  pub encrypted : Bytes
  pub platform : PlatformData
  pub type : FileInfoType
  pub permissions : ℕ
  pub modified_ns : ℤ
  pub raw_block_size : ℤ
  pub local_flags : ℕ
  pub encryption_trailer_size : ℤ
  pub deleted : Bool
  pub no_permissions : Bool
  pub truncated : Bool

unfoldable pub is_invalid : FileInfo → Bool
is_invalid f = has_flag f.local_flags local_invalid_flags

unfoldable pub is_ignored : FileInfo → Bool
is_ignored f = has_flag f.local_flags flag_local_ignored

unfoldable pub must_rescan : FileInfo → Bool
must_rescan f = has_flag f.local_flags flag_local_must_rescan

unfoldable pub is_receive_only_changed : FileInfo → Bool
is_receive_only_changed f = has_flag f.local_flags flag_local_receive_only

unfoldable pub should_conflict : FileInfo → Bool
should_conflict f = has_flag f.local_flags local_conflict_flags

abbrev pub is_directory : FileInfo → Bool
is_directory f = eqb_ℤ f.type type_directory

abbrev pub is_symlink : FileInfo → Bool
is_symlink f =
    eqb_ℤ f.type type_symlink
    || (eqb_ℤ f.type type_symlink_directory || eqb_ℤ f.type type_symlink_file)

abbrev pub synthetic_directory_size : ℤ
synthetic_directory_size = pos 128

unfoldable pub file_size : FileInfo → ℤ
file_size f =
    if f.deleted
    then pos 0
    else if is_directory f || is_symlink f
    then synthetic_directory_size
    else f.size

-- `time.Unix(ModifiedS, ModifiedNs)`, as nanoseconds.
abbrev pub seconds : ℤ → ℤ
seconds (pos n) = pos (n * 1000000000)
seconds (negsuc n) = negsuc (n * 1000000000 + 999999999)

unfoldable pub mod_time : FileInfo → ℤ
mod_time f = seconds f.modified_s +ℤ f.modified_ns

unfoldable pub set_no_content : FileInfo → FileInfo
set_no_content f = record f { blocks = []; blocks_hash = []; size = pos 0 }

unfoldable pub set_local_flags : FileInfo → ℕ → FileInfo
unfolding set_no_content
set_local_flags f flags = set_no_content (record f { local_flags = flags })

unfoldable pub set_must_rescan : FileInfo → FileInfo
set_must_rescan f = set_local_flags f flag_local_must_rescan

unfoldable pub set_ignored : FileInfo → FileInfo
set_ignored f = set_local_flags f flag_local_ignored

unfoldable pub set_unsupported : FileInfo → FileInfo
set_unsupported f = set_local_flags f flag_local_unsupported

-- `now` is the clock, in seconds: of `Version.Update`, and of the new modification time.
unfoldable pub set_deleted : FileInfo → ℕ → ℕ → FileInfo
unfolding set_no_content
set_deleted f by now = set_no_content (record f {
  modified_by = by;
  deleted = true;
  version = update_with_now f.version by now;
  modified_s = pos now;
})

unfoldable pub in_conflict_with : FileInfo → FileInfo → Bool
in_conflict_with f previous =
    if greater_equal f.version previous.version
    then false
    else if length f.previous_blocks_hash == 0 || length f.blocks_hash == 0
    then true
    else not (bytes_equal f.previous_blocks_hash previous.blocks_hash)

abbrev pub is_concurrent_greater : Ordering → Bool
is_concurrent_greater concurrent_greater = true
is_concurrent_greater _ = false

unfoldable pub wins_conflict : FileInfo → FileInfo → Bool
wins_conflict f other =
    if not (bool_eq (is_invalid f) (is_invalid other))
    then not (is_invalid f)
    else if ltb_ℤ (mod_time other) (mod_time f)
    then true
    else if ltb_ℤ (mod_time f) (mod_time other)
    then false
    else is_concurrent_greater (compare f.version other.version)
