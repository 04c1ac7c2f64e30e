-- ===== src/FileInfo/Compare.antt =====
-- The comparisons of lib/protocol/bep_fileinfo.go: `isEquivalent` and what it calls, and `BlockSize`.
use Prim.Native.Nat.{bit_and}
use text.Mathlib.Text.{◌==◌ as str_eq}
use vidsync_app.Base.{
  ℕ, ◌+◌, ◌*◌, Bool, true, false, not, ◌&&◌, ◌||◌, List, [], ◌∷◌, ◌==◌, ltb, if◌then◌else◌, length,
  ℤ, pos, negsuc, ◌-ℤ◌, ltb_ℤ, eqb_ℤ,
}
use vidsync_app.DeviceId.Text.{bytes_equal}
use vidsync_app.FileInfo.Platform.{
  PlatformData, xattrs_equal, unix_ownership_equal, windows_ownership_equal, bool_eq,
}
use vidsync_app.FileInfo.{
  clear_flags, type_file, type_directory, type_symlink, BlockInfo, FileInfo, is_invalid,
  must_rescan, file_size, mod_time,
}

-- The hash of every block, in order.
unfoldable pub blocks_equal_lists : List BlockInfo → List BlockInfo → Bool
blocks_equal_lists [] [] = true
blocks_equal_lists [] (y ∷ ys) = false
blocks_equal_lists (x ∷ xs) [] = false
blocks_equal_lists (x ∷ xs) (y ∷ ys) = bytes_equal x.hash y.hash && blocks_equal_lists xs ys

unfoldable pub blocks_equal : FileInfo → FileInfo → Bool
blocks_equal f other =
    (ltb 0 (length f.blocks_hash)
      && (ltb 0 (length other.blocks_hash) && bytes_equal f.blocks_hash other.blocks_hash))
    || blocks_equal_lists f.blocks other.blocks

-- The difference of two times, as a `time.Duration`: what does not fit is cut off at the limits.
abbrev pub max_duration : ℕ
max_duration = 9223372036854775807

abbrev pub saturate : ℤ → ℤ
saturate (pos n) = if ltb max_duration n then pos max_duration else pos n
saturate (negsuc n) = if ltb max_duration n then negsuc max_duration else negsuc n

-- `diff *= -1` in 64 bits: the least duration is its own negative.
abbrev pub negate : ℤ → ℤ
negate (pos n) = pos 0 -ℤ pos n
negate (negsuc n) = if n == max_duration then negsuc n else pos (n + 1)

unfoldable pub mod_time_equal : ℤ → ℤ → ℤ → Bool
unfolding ◌-ℤ◌
mod_time_equal a b window =
    let diff = saturate (a -ℤ b) in
    eqb_ℤ a b || ltb_ℤ (if ltb_ℤ diff (pos 0) then negate diff else diff) window

unfoldable pub perms_equal : Bool → ℕ → ℕ → Bool
perms_equal is_windows a b =
    if is_windows then bit_and a 0o600 == bit_and b 0o600 else bit_and a 0o777 == bit_and b 0o777

pub record FileInfoComparison : Type 0 where
  pub mod_time_window : ℤ
  pub ignore_perms : Bool
  pub ignore_blocks : Bool
  pub ignore_flags : ℕ
  pub ignore_ownership : Bool
  pub ignore_xattrs : Bool

abbrev pub ownership_equal : PlatformData → PlatformData → Bool
ownership_equal a b =
    unix_ownership_equal a.unix b.unix && windows_ownership_equal a.windows b.windows

abbrev pub all_xattrs_equal : PlatformData → PlatformData → Bool
all_xattrs_equal a b =
    xattrs_equal a.linux b.linux
    && (xattrs_equal a.darwin b.darwin
        && (xattrs_equal a.freebsd b.freebsd && xattrs_equal a.netbsd b.netbsd))

-- The flags that the comparison ignores are masked out first.
abbrev pub masked : FileInfoComparison → FileInfo → FileInfo
masked comp f = record f { local_flags = clear_flags f.local_flags comp.ignore_flags }

-- The last `switch`, on the type that both share.
unfoldable pub same_content : FileInfo → FileInfo → FileInfoComparison → Bool
same_content f other comp =
    if eqb_ℤ f.type type_file
    then eqb_ℤ f.size other.size
      && (mod_time_equal (mod_time f) (mod_time other) comp.mod_time_window
          && (comp.ignore_blocks || blocks_equal f other))
    else if eqb_ℤ f.type type_symlink
    then bytes_equal f.symlink_target other.symlink_target
    else eqb_ℤ f.type type_directory

-- What the values decide, once the masked flags are known.
unfoldable pub equivalent_masked : Bool → Bool → FileInfo → FileInfo → FileInfoComparison → Bool
equivalent_masked is_windows same_pointers f other comp =
    if not (str_eq f.name other.name)
      || (not (eqb_ℤ f.type other.type)
          || (not (bool_eq f.deleted other.deleted)
              || not (bool_eq (is_invalid f) (is_invalid other))))
    then false
    else if not comp.ignore_ownership
        && (not same_pointers && not (ownership_equal f.platform other.platform))
    then false
    else if not comp.ignore_xattrs
        && (not same_pointers && not (all_xattrs_equal f.platform other.platform))
    then false
    else if not comp.ignore_perms
        && (not f.no_permissions
            && (not other.no_permissions
                && not (perms_equal is_windows f.permissions other.permissions)))
    then false
    else same_content f other comp

-- `isEquivalent`. `same_pointers` says whether the six pointers of the two platforms are the same,
-- which is what `f.Platform != other.Platform` compares.
unfoldable pub is_equivalent : Bool → Bool → FileInfo → FileInfo → FileInfoComparison → Bool
is_equivalent is_windows same_pointers f other comp =
    if must_rescan f || must_rescan other
    then false
    else equivalent_masked is_windows same_pointers (masked comp f) (masked comp other) comp

-- The valid block sizes, from 128 KiB to 16 MiB.
abbrev pub block_sizes : List ℕ
block_sizes = 131072 ∷ 262144 ∷ 524288 ∷ 1048576 ∷ 2097152 ∷ 4194304 ∷ 8388608 ∷ 16777216 ∷ []

abbrev pub desired_per_file_blocks : ℕ
desired_per_file_blocks = 2000

-- The loop of `BlockSize`: the last size that it saw.
unfoldable pub pick_size : List ℕ → ℕ → ℤ → ℕ
pick_size [] last file_size = last
pick_size (b ∷ bs) last file_size =
    let rest = pick_size bs b file_size in
    if ltb_ℤ file_size (pos (desired_per_file_blocks * b)) then b else rest

unfoldable pub block_size : ℤ → ℕ
unfolding pick_size
block_size file_size = pick_size block_sizes 0 file_size
