-- ===== src/FileInfo/Platform.antt =====
-- The platform data of lib/protocol/bep_fileinfo.go. A pointer is an option.
use Prim.Native.String.{String}
use text.Mathlib.Text.{◌==◌ as str_eq}
use text.Mathlib.TextEquality.{eq_iff}
use vidsync_app.Base.{
  ◌≡◌, refl, Bool, true, false, ◌&&◌, ◌||◌, List, [], ◌∷◌, Option, none, some, arith, ℤ, eqb_ℤ,
}
use vidsync_app.DeviceId.Text.{Bytes, bytes_equal, bytes_equal_comm, bytes_equal_refl}

pub record UnixData : Type 0 where
  pub owner_name : String
  pub group_name : String
  pub uid : ℤ
  pub gid : ℤ

pub record WindowsData : Type 0 where
  pub owner_name : String
  pub owner_is_group : Bool

pub record Xattr : Type 0 where
  pub name : String
  pub value : Bytes

-- `XattrData`, whose only field is the list.
abbrev pub XattrData : Type 0
XattrData = List Xattr

pub record PlatformData : Type 0 where
  pub unix : Option UnixData
  pub windows : Option WindowsData
  pub linux : Option XattrData
  pub darwin : Option XattrData
  pub freebsd : Option XattrData
  pub netbsd : Option XattrData

-- The operating systems that the code tells apart.
pub data Os : Type 0 where
  on_linux on_darwin on_freebsd on_netbsd on_windows on_other : Os

abbrev pub attributes : Option XattrData → List Xattr
attributes none = []
attributes (some xs) = xs

unfoldable pub xattrs : Os → PlatformData → List Xattr
xattrs on_linux p = attributes p.linux
xattrs on_darwin p = attributes p.darwin
xattrs on_freebsd p = attributes p.freebsd
xattrs on_netbsd p = attributes p.netbsd
xattrs on_windows p = []
xattrs on_other p = []

unfoldable pub set_xattrs : Os → PlatformData → List Xattr → PlatformData
set_xattrs on_linux p xs = record p { linux = some xs }
set_xattrs on_darwin p xs = record p { darwin = some xs }
set_xattrs on_freebsd p xs = record p { freebsd = some xs }
set_xattrs on_netbsd p xs = record p { netbsd = some xs }
set_xattrs on_windows p xs = p
set_xattrs on_other p xs = p

abbrev pub or_else {ℓ} : {A : Type ℓ} → Option A → Option A → Option A
or_else none b = b
or_else (some a) b = some a

unfoldable pub merge_with : PlatformData → PlatformData → PlatformData
merge_with p other = record {
  unix = or_else p.unix other.unix;
  windows = or_else p.windows other.windows;
  linux = or_else p.linux other.linux;
  darwin = or_else p.darwin other.darwin;
  freebsd = or_else p.freebsd other.freebsd;
  netbsd = or_else p.netbsd other.netbsd;
}

-- The loop of `xattrsEqual`, after its test of the lengths.
unfoldable pub attributes_equal : List Xattr → List Xattr → Bool
attributes_equal [] [] = true
attributes_equal [] (y ∷ ys) = false
attributes_equal (x ∷ xs) [] = false
attributes_equal (x ∷ xs) (y ∷ ys) =
    str_eq x.name y.name && (bytes_equal x.value y.value && attributes_equal xs ys)

-- No data and an empty list are the same.
unfoldable pub xattrs_equal : Option XattrData → Option XattrData → Bool
unfolding attributes_equal
xattrs_equal a b = attributes_equal (attributes a) (attributes b)

unfoldable pub unix_ownership_equal : Option UnixData → Option UnixData → Bool
unix_ownership_equal none none = true
unix_ownership_equal none (some b) = false
unix_ownership_equal (some a) none = false
unix_ownership_equal (some a) (some b) =
    (eqb_ℤ a.uid b.uid && eqb_ℤ a.gid b.gid)
    || (str_eq a.owner_name b.owner_name && str_eq a.group_name b.group_name)

abbrev pub bool_eq : Bool → Bool → Bool
bool_eq true b = b
bool_eq false true = false
bool_eq false false = true

unfoldable pub windows_ownership_equal : Option WindowsData → Option WindowsData → Bool
windows_ownership_equal none none = true
windows_ownership_equal none (some b) = false
windows_ownership_equal (some a) none = false
windows_ownership_equal (some a) (some b) =
    str_eq a.owner_name b.owner_name && bool_eq a.owner_is_group b.owner_is_group

-- The attributes that were set for a platform that has them are those that are read.
pub xattrs-set_xattrs :
    (p : PlatformData) (xs : List Xattr)
    → (xattrs on_linux (set_xattrs on_linux p xs) ≡ xs)
      × (xattrs on_darwin (set_xattrs on_darwin p xs) ≡ xs)
      × (xattrs on_freebsd (set_xattrs on_freebsd p xs) ≡ xs)
      × (xattrs on_netbsd (set_xattrs on_netbsd p xs) ≡ xs)
unfolding xattrs set_xattrs
xattrs-set_xattrs p xs = (refl, refl, refl, refl)

pub str_eq_comm : (a b : String) → str_eq a b ≡ str_eq b a
str_eq_comm a b = ground (arith, eq_iff a b, eq_iff b a)

pub str_eq_refl : (a : String) → str_eq a a ≡ true
str_eq_refl a = (eq_iff a a).1 refl

attributes_equal_comm : (xs ys : List Xattr) → attributes_equal xs ys ≡ attributes_equal ys xs
unfolding attributes_equal
attributes_equal_comm [] [] = refl
attributes_equal_comm [] (y ∷ ys) = refl
attributes_equal_comm (x ∷ xs) [] = refl
attributes_equal_comm (x ∷ xs) (y ∷ ys) =
    rw (str_eq_comm x.name y.name, bytes_equal_comm x.value y.value, attributes_equal_comm xs ys)

pub xattrs_equal_comm : (a b : Option XattrData) → xattrs_equal a b ≡ xattrs_equal b a
unfolding xattrs_equal
xattrs_equal_comm a b = attributes_equal_comm (attributes a) (attributes b)

pub unix_ownership_equal_comm :
    (a b : Option UnixData) → unix_ownership_equal a b ≡ unix_ownership_equal b a
unfolding unix_ownership_equal
unix_ownership_equal_comm none none = refl
unix_ownership_equal_comm none (some b) = refl
unix_ownership_equal_comm (some a) none = refl
unix_ownership_equal_comm (some a) (some b) =
    ground (arith, str_eq_comm a.owner_name b.owner_name, str_eq_comm a.group_name b.group_name)

pub windows_ownership_equal_comm :
    (a b : Option WindowsData) → windows_ownership_equal a b ≡ windows_ownership_equal b a
unfolding windows_ownership_equal
windows_ownership_equal_comm none none = refl
windows_ownership_equal_comm none (some b) = refl
windows_ownership_equal_comm (some a) none = refl
windows_ownership_equal_comm (some a) (some b) =
    ground (arith, str_eq_comm a.owner_name b.owner_name)

attributes_equal_refl : (xs : List Xattr) → attributes_equal xs xs ≡ true
unfolding attributes_equal
attributes_equal_refl [] = refl
attributes_equal_refl (x ∷ xs) =
    ground (arith, str_eq_refl x.name, bytes_equal_refl x.value, attributes_equal_refl xs)

pub xattrs_equal_refl : (a : Option XattrData) → xattrs_equal a a ≡ true
unfolding xattrs_equal
xattrs_equal_refl a = attributes_equal_refl (attributes a)

pub unix_ownership_equal_refl : (a : Option UnixData) → unix_ownership_equal a a ≡ true
unfolding unix_ownership_equal
unix_ownership_equal_refl none = refl
unix_ownership_equal_refl (some a) = ground arith

pub windows_ownership_equal_refl : (a : Option WindowsData) → windows_ownership_equal a a ≡ true
unfolding windows_ownership_equal
windows_ownership_equal_refl none = refl
windows_ownership_equal_refl (some a) = ground (arith, str_eq_refl a.owner_name)
