-- ===== src/Protocol/Check.antt =====
-- The checks of lib/protocol/protocol.go on names and file infos that arrive.
use vidsync_app.Base.{
  Bool, true, false, not, ◌&&◌, ◌||◌, List, [], ◌∷◌, Option, none, some, if◌then◌else◌, eqb_ℤ,
}
use vidsync_app.DeviceId.Text.{Bytes, bytes_equal, codes}
use vidsync_app.FileInfo.{FileInfo, is_invalid, is_directory, type_file}
use vidsync_app.Protocol.Path.{clean, has_prefix, dot_dot}

-- The errors that end a connection: the package's variables, those that it makes, and the others by
-- their text.
pub data Failure : Type 0 where
  invalid_filename unclean_filename deleted_has_blocks directory_has_blocks : Failure
  file_has_no_blocks invalid_state closed_by_remote request_too_small : Failure
  request_too_large closed : Failure
  handling : Bytes → Failure

abbrev is_special : Bytes → Bool
is_special name = bytes_equal name [] || (bytes_equal name (b'.' ∷ []) || bytes_equal name dot_dot)

-- `nil` is none.
unfoldable pub check_filename : Bytes → Option Failure
unfolding clean has_prefix
check_filename name =
    if not (bytes_equal (clean name) name)
    then some unclean_filename
    else if is_special name
    then some invalid_filename
    else if has_prefix name (b'/' ∷ [])
    then some invalid_filename
    else if has_prefix name (b'.' ∷ b'.' ∷ b'/' ∷ [])
    then some invalid_filename
    else none

abbrev pub has_blocks : FileInfo → Bool
has_blocks f = elim f.blocks [ [] ↦ false | b ∷ bs ↦ true ]

-- The switch.
unfoldable pub check_blocks : FileInfo → Option Failure
check_blocks f =
    if f.deleted && has_blocks f
    then some deleted_has_blocks
    else if is_directory f && has_blocks f
    then some directory_has_blocks
    else if not f.deleted && (not (is_invalid f) && (eqb_ℤ f.type type_file && not (has_blocks f)))
    then some file_has_no_blocks
    else none

unfoldable pub check_file_info_consistency : FileInfo → Option Failure
unfolding check_filename check_blocks
check_file_info_consistency f = elim (check_filename (codes f.name)) [
  | some e ↦ some e
  | none ↦ check_blocks f
]

unfoldable pub check_index_consistency : List FileInfo → Option Failure
unfolding check_file_info_consistency
check_index_consistency [] = none
check_index_consistency (f ∷ fs) = elim (check_file_info_consistency f) [
  | some e ↦ some e
  | none ↦ check_index_consistency fs
]
