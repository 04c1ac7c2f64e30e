-- ===== src/FileInfo/Equivalent.antt =====
-- `isEquivalent` of lib/protocol/bep_fileinfo.go as a relation between files.
use vidsync_app.Base.{
  ℕ, ◌+◌, ◌<◌, ◌≤◌, ◌≡◌, inl, inr, refl, Bool, true, false, List, [], ◌∷◌, arith, ℤ, pos, pos_part,
  neg_part, eqb_ℤ, eqb_ℤ_comm, eqb_ℤ-eq, Bool-cases,
}
use vidsync_app.DeviceId.Text.{bytes_equal_comm}
use vidsync_app.FileInfo.{BlockInfo, FileInfo, mod_time}
use vidsync_app.FileInfo.Platform.{
  PlatformData, bool_eq, str_eq_comm, xattrs_equal_comm, unix_ownership_equal_comm,
  windows_ownership_equal_comm, xattrs_equal_refl, unix_ownership_equal_refl,
  windows_ownership_equal_refl,
}
use vidsync_app.FileInfo.Compare.{
  blocks_equal_lists, blocks_equal, max_duration, mod_time_equal, perms_equal, FileInfoComparison,
  ownership_equal, all_xattrs_equal, masked, same_content, equivalent_masked, is_equivalent,
}

-- The times are no more than the largest `time.Duration` apart.
abbrev pub IsNear : ℤ → ℤ → Type 0
IsNear a b =
    (pos_part a + neg_part b ≤ pos_part b + neg_part a + max_duration)
    × (pos_part b + neg_part a ≤ pos_part a + neg_part b + max_duration)

mod_time_equal_comm : (a b w : ℤ) → IsNear a b → mod_time_equal a b w ≡ mod_time_equal b a w
unfolding mod_time_equal
mod_time_equal_comm a b w h = ground arith

bool_eq_comm : (a b : Bool) → bool_eq a b ≡ bool_eq b a
bool_eq_comm a b = ground arith

blocks_equal_lists_comm :
    (xs ys : List BlockInfo) → blocks_equal_lists xs ys ≡ blocks_equal_lists ys xs
unfolding blocks_equal_lists
blocks_equal_lists_comm [] [] = refl
blocks_equal_lists_comm [] (y ∷ ys) = refl
blocks_equal_lists_comm (x ∷ xs) [] = refl
blocks_equal_lists_comm (x ∷ xs) (y ∷ ys) =
    rw (bytes_equal_comm x.hash y.hash, blocks_equal_lists_comm xs ys)

blocks_equal_comm : (f g : FileInfo) → blocks_equal f g ≡ blocks_equal g f
unfolding blocks_equal
blocks_equal_comm f g =
    rw (blocks_equal_lists_comm f.blocks g.blocks, bytes_equal_comm f.blocks_hash g.blocks_hash)
      (ground arith)

perms_equal_comm : (w : Bool) (a b : ℕ) → perms_equal w a b ≡ perms_equal w b a
unfolding perms_equal
perms_equal_comm w a b = ground arith

ownership_equal_comm : (a b : PlatformData) → ownership_equal a b ≡ ownership_equal b a
ownership_equal_comm a b =
    rw (unix_ownership_equal_comm a.unix b.unix, windows_ownership_equal_comm a.windows b.windows)

all_xattrs_equal_comm : (a b : PlatformData) → all_xattrs_equal a b ≡ all_xattrs_equal b a
all_xattrs_equal_comm a b = rw (
  xattrs_equal_comm a.linux b.linux,
  xattrs_equal_comm a.darwin b.darwin,
  xattrs_equal_comm a.freebsd b.freebsd,
  xattrs_equal_comm a.netbsd b.netbsd,
)

same_content_comm :
    (f g : FileInfo) (comp : FileInfoComparison)
    → f.type ≡ g.type
    → IsNear (mod_time f) (mod_time g)
    → same_content f g comp ≡ same_content g f comp
unfolding same_content
same_content_comm f g comp e h = ground (
  arith,
  mod_time_equal_comm (mod_time f) (mod_time g) comp.mod_time_window h,
  blocks_equal_comm f g,
  bytes_equal_comm f.symlink_target g.symlink_target,
)

equivalent_masked_comm :
    (w p : Bool) (f g : FileInfo) (comp : FileInfoComparison)
    → IsNear (mod_time f) (mod_time g)
    → equivalent_masked w p f g comp ≡ equivalent_masked w p g f comp
unfolding equivalent_masked
equivalent_masked_comm w p f g comp h = elim (Bool-cases (eqb_ℤ f.type g.type)) [
  | inl e ↦ ground (
    arith,
    same_content_comm f g comp (eqb_ℤ-eq f.type g.type e) h,
    str_eq_comm f.name g.name,
    ownership_equal_comm f.platform g.platform,
    all_xattrs_equal_comm f.platform g.platform,
    perms_equal_comm w f.permissions g.permissions,
    eqb_ℤ_comm f.type g.type,
  )
  | inr n ↦ ground (arith, eqb_ℤ_comm f.type g.type)
]

-- `isEquivalent` is symmetric, whatever the comparison leaves out, for files whose modification
-- times are no more than the largest `time.Duration` (about 292 years) apart.
pub is_equivalent_comm :
    (w p : Bool) (f g : FileInfo) (comp : FileInfoComparison)
    → IsNear (mod_time f) (mod_time g)
    → is_equivalent w p f g comp ≡ is_equivalent w p g f comp
is_equivalent_comm w p f g comp h =
    let near : IsNear (mod_time (masked comp f)) (mod_time (masked comp g)) =
      unfold mod_time in h in
    let same = equivalent_masked_comm w p (masked comp f) (masked comp g) comp near in
    unfold is_equivalent in ground (arith, same)

-- Beyond that the comparison of the times is not symmetric: a time that lies further in the past
-- than any `time.Duration` counts as equal within every window that is not negative, since the
-- negation of the cut-off difference overflows; the other way round it does not.
pub mod_time_equal_far :
    (a b : ℤ) (n : ℕ)
    → pos_part a + neg_part b + max_duration + 1 < pos_part b + neg_part a
    → n ≤ max_duration
    → (mod_time_equal a b (pos n) ≡ true) × (mod_time_equal b a (pos n) ≡ false)
unfolding mod_time_equal
mod_time_equal_far a b n h k = ground arith

same_platform :
    (a b : PlatformData) → a ≡ b → (ownership_equal a b ≡ true) × (all_xattrs_equal a b ≡ true)
same_platform a b e = rw e (
    ground (
      arith,
      unix_ownership_equal_refl b.unix,
      windows_ownership_equal_refl b.windows,
      xattrs_equal_refl b.linux,
      xattrs_equal_refl b.darwin,
      xattrs_equal_refl b.freebsd,
      xattrs_equal_refl b.netbsd,
    ))
