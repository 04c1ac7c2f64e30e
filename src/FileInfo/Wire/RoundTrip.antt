-- ===== src/FileInfo/Wire/RoundTrip.antt =====
-- What comes back from the messages of internal/gen/bep and from the database.
use vidsync_app.Base.{
  ◌≡◌, refl, sym, ap, ap₂, ◌∙◌, Bool, true, false, List, [], ◌∷◌, Option, none, some, map, arith,
  if◌then◌else◌, All, pos, IsInt32, to_int32-id,
}
use vidsync_app.Vector.{Vector}
use vidsync_app.FileInfo.Platform.{UnixData, Xattr, XattrData, PlatformData}
use vidsync_app.FileInfo.{BlockInfo, FileInfo, is_invalid, flag_local_remote_invalid, has_flag}
use vidsync_app.FileInfo.Wire.{
  WireFileInfo, map_option, counter_to_wire, counter_from_wire, vector_to_wire, vector_from_wire,
  block_to_wire, block_from_wire, unix_to_wire, unix_from_wire, xattr_to_wire, xattr_from_wire,
  xattrs_to_wire, xattrs_from_wire, platform_to_wire, platform_from_wire, file_message, to_wire,
  from_wire, from_db,
}

-- Every counter of a version survives the message.
pub vector_from-to_wire : (v : Vector) → vector_from_wire (some (vector_to_wire v)) ≡ v
unfolding vector_from_wire vector_to_wire counter_to_wire counter_from_wire
vector_from-to_wire [] = refl
vector_from-to_wire (c ∷ v) = ap (◌∷◌ c) (vector_from-to_wire v)

abbrev pub BlockFits : BlockInfo → Type 0
BlockFits b = IsInt32 b.size

abbrev pub UnixFits : Option UnixData → Type 0
UnixFits none = Unit {0}
UnixFits (some u) = IsInt32 u.uid × IsInt32 u.gid

block_from-to_wire : (b : BlockInfo) → BlockFits b → block_from_wire (block_to_wire b) ≡ b
unfolding block_from_wire block_to_wire
block_from-to_wire b h = λ i. record b { size = to_int32-id b.size h i }

map-block_from_wire :
    (bs : List BlockInfo) → All BlockFits bs → map block_from_wire (map block_to_wire bs) ≡ bs
map-block_from_wire [] h = refl
map-block_from_wire (b ∷ bs) h = ap₂ (◌∷◌) (block_from-to_wire b h.0) (map-block_from_wire bs h.1)

map-xattr_from_wire : (xs : List Xattr) → map xattr_from_wire (map xattr_to_wire xs) ≡ xs
unfolding xattr_from_wire xattr_to_wire
map-xattr_from_wire [] = refl
map-xattr_from_wire (x ∷ xs) = ap (◌∷◌ x) (map-xattr_from_wire xs)

xattrs_from-to_wire :
    (x : Option XattrData) → map_option xattrs_from_wire (map_option xattrs_to_wire x) ≡ x
unfolding xattrs_from_wire xattrs_to_wire
xattrs_from-to_wire none = refl
xattrs_from-to_wire (some xs) = ap some (map-xattr_from_wire xs)

unix_from-to_wire :
    (u : Option UnixData) → UnixFits u → map_option unix_from_wire (map_option unix_to_wire u) ≡ u
unfolding unix_from_wire unix_to_wire
unix_from-to_wire none h = refl
unix_from-to_wire (some u) h =
    λ i. some (record u { uid = to_int32-id u.uid h.0 i; gid = to_int32-id u.gid h.1 i })

platform_from-to_wire :
    (p : PlatformData) → UnixFits p.unix → platform_from_wire (some (platform_to_wire p)) ≡ p
unfolding platform_from_wire platform_to_wire
platform_from-to_wire p h = λ i. record {
  unix = unix_from-to_wire p.unix h i;
  windows = p.windows;
  linux = xattrs_from-to_wire p.linux i;
  darwin = xattrs_from-to_wire p.darwin i;
  freebsd = xattrs_from-to_wire p.freebsd i;
  netbsd = xattrs_from-to_wire p.netbsd i;
}

-- The numbers that a message narrows to 32 bits fit.
pub record Fits (f : FileInfo) : Type 0 where
  pub block_sizes : All BlockFits f.blocks
  pub owner : UnixFits f.platform.unix
  pub trailer : IsInt32 f.encryption_trailer_size

-- What a device that receives the message sees: the local flags and the trailer size stay behind,
-- and a file that was invalid in any way is invalid as the remote's.
abbrev pub received : FileInfo → FileInfo
received f = record f {
  local_flags = if is_invalid f then flag_local_remote_invalid else 0;
  encryption_trailer_size = pos 0;
  truncated = false;
}

from_wire-message : (f : FileInfo) → Fits f → from_wire (file_message false f) ≡ received f
unfolding from_wire file_message
from_wire-message f h = λ i. record (received f) {
  version = vector_from-to_wire f.version i;
  blocks = map-block_from_wire f.blocks h.block_sizes i;
  platform = platform_from-to_wire f.platform h.owner i;
}

from_db-message :
    (f : FileInfo) → Fits f → from_db (file_message true f) ≡ record f { truncated = false }
unfolding from_db file_message
from_db-message f h = λ i. record (record f { truncated = false }) {
  version = vector_from-to_wire f.version i;
  blocks = map-block_from_wire f.blocks h.block_sizes i;
  platform = platform_from-to_wire f.platform h.owner i;
  encryption_trailer_size = to_int32-id f.encryption_trailer_size h.trailer i;
}

-- A file with all its blocks, stored in the database with its internal fields, is read back as it
-- was, if its numbers fit in the 32 bits of the message.
pub from_db-to_wire :
    (f : FileInfo)
    → f.truncated ≡ false
    → Fits f
    → (w : WireFileInfo) × (to_wire true f ≡ some w) × (from_db w ≡ f)
from_db-to_wire f e h = (
  file_message true f,
  unfold to_wire in ground (arith, e),
  from_db-message f h ∙ λ i. record f { truncated = sym e i },
)

invalid-received : (f : FileInfo) → is_invalid (received f) ≡ is_invalid f
unfolding is_invalid has_flag
invalid-received f = ground arith

to_wire-message :
    (b : Bool) (f : FileInfo) (w : WireFileInfo) → to_wire b f ≡ some w → file_message b f ≡ w
to_wire-message b f w e = unfold to_wire in ground arith

-- What the other device receives of a file that was sent: everything but the local flags and the
-- size of the trailer, if the numbers fit in 32 bits; and it holds the file to be invalid exactly
-- when the sender did, whatever flag made it so.
pub from_wire-to_wire :
    (f : FileInfo) (w : WireFileInfo)
    → Fits f
    → to_wire false f ≡ some w
    → (from_wire w ≡ received f) × (is_invalid (from_wire w) ≡ is_invalid f)
from_wire-to_wire f w h e =
    let same = ap from_wire (sym (to_wire-message false f w e)) ∙ from_wire-message f h in
    (same, ap is_invalid same ∙ invalid-received f)

pub to_wire-whole :
    (f : FileInfo) → f.truncated ≡ false → (w : WireFileInfo) × (to_wire false f ≡ some w)
to_wire-whole f e = (file_message false f, unfold to_wire in ground (arith, e))
