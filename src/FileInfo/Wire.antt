-- ===== src/FileInfo/Wire.antt =====
-- The conversions between the types of lib/protocol/bep_fileinfo.go and lib/protocol/vector.go and
-- the messages of internal/gen/bep. A nil pointer is `none`.
pub mod RoundTrip
use Prim.Native.String.{String}
use vidsync_app.Base.{
  ℕ, Bool, true, false, not, ◌&&◌, ◌||◌, List, [], ◌∷◌, Option, none, some, map, if◌then◌else◌, ℤ,
  pos, to_int32,
}
use vidsync_app.DeviceId.Text.{Bytes}
use vidsync_app.Vector.{Counter, Vector}
use vidsync_app.FileInfo.Platform.{UnixData, WindowsData, Xattr, XattrData, PlatformData}
use vidsync_app.FileInfo.{
  BlockInfo, FileInfo, FileInfoType, is_invalid, is_ignored, flag_local_remote_invalid,
}

pub record WireCounter : Type 0 where
  pub id : ℕ
  pub value : ℕ

pub record WireVector : Type 0 where
  pub counters : List WireCounter

pub record WireBlockInfo : Type 0 where
  pub hash : Bytes
  pub offset : ℤ
  pub size : ℤ

pub record WireUnixData : Type 0 where
  pub owner_name : String
  pub group_name : String
  pub uid : ℤ
  pub gid : ℤ

pub record WireXattr : Type 0 where
  pub name : String
  pub value : Bytes

pub record WireXattrData : Type 0 where
  pub xattrs : List WireXattr

pub record WirePlatformData : Type 0 where
  pub unix : Option WireUnixData
  pub windows : Option WindowsData
  pub linux : Option WireXattrData
  pub darwin : Option WireXattrData
  pub freebsd : Option WireXattrData
  pub netbsd : Option WireXattrData

pub record WireFileInfo : Type 0 where
  pub name : String
  pub size : ℤ
  pub modified_s : ℤ
  pub modified_by : ℕ
  pub version : Option WireVector
  pub sequence : ℤ
  pub blocks : List WireBlockInfo
  pub symlink_target : Bytes
  pub blocks_hash : Bytes
  pub previous_blocks_hash : Bytes
  pub encrypted : Bytes
  pub type : FileInfoType
  pub permissions : ℕ
  pub modified_ns : ℤ
  pub block_size : ℤ
  pub platform : Option WirePlatformData
  pub local_flags : ℕ
  pub encryption_trailer_size : ℤ
  pub deleted : Bool
  pub invalid : Bool
  pub no_permissions : Bool

abbrev pub map_option {ℓ κ} : {A : Type ℓ} {B : Type κ} → (A → B) → Option A → Option B
map_option f none = none
map_option f (some a) = some (f a)

unfoldable pub counter_to_wire : Counter → WireCounter
counter_to_wire c = record { id = c.id; value = c.value }

unfoldable pub counter_from_wire : WireCounter → Counter
counter_from_wire w = record { id = w.id; value = w.value }

unfoldable pub vector_to_wire : Vector → WireVector
vector_to_wire v = record { counters = map counter_to_wire v }

unfoldable pub vector_from_wire : Option WireVector → Vector
vector_from_wire none = []
vector_from_wire (some w) = map counter_from_wire w.counters

unfoldable pub block_to_wire : BlockInfo → WireBlockInfo
block_to_wire b = record { hash = b.hash; offset = b.offset; size = to_int32 b.size }

unfoldable pub block_from_wire : WireBlockInfo → BlockInfo
block_from_wire w = record { hash = w.hash; offset = w.offset; size = w.size }

unfoldable pub unix_to_wire : UnixData → WireUnixData
unix_to_wire u = record {
  owner_name = u.owner_name;
  group_name = u.group_name;
  uid = to_int32 u.uid;
  gid = to_int32 u.gid;
}

unfoldable pub unix_from_wire : WireUnixData → UnixData
unix_from_wire w = record {
  owner_name = w.owner_name;
  group_name = w.group_name;
  uid = w.uid;
  gid = w.gid;
}

unfoldable pub xattr_to_wire : Xattr → WireXattr
xattr_to_wire a = record { name = a.name; value = a.value }

unfoldable pub xattr_from_wire : WireXattr → Xattr
xattr_from_wire w = record { name = w.name; value = w.value }

unfoldable pub xattrs_to_wire : XattrData → WireXattrData
xattrs_to_wire x = record { xattrs = map xattr_to_wire x }

unfoldable pub xattrs_from_wire : WireXattrData → XattrData
xattrs_from_wire w = map xattr_from_wire w.xattrs

unfoldable pub platform_to_wire : PlatformData → WirePlatformData
platform_to_wire p = record {
  unix = map_option unix_to_wire p.unix;
  windows = p.windows;
  linux = map_option xattrs_to_wire p.linux;
  darwin = map_option xattrs_to_wire p.darwin;
  freebsd = map_option xattrs_to_wire p.freebsd;
  netbsd = map_option xattrs_to_wire p.netbsd;
}

abbrev pub no_platform : PlatformData
no_platform = record {
  unix = none;
  windows = none;
  linux = none;
  darwin = none;
  freebsd = none;
  netbsd = none;
}

unfoldable pub platform_from_wire : Option WirePlatformData → PlatformData
platform_from_wire none = no_platform
platform_from_wire (some w) = record {
  unix = map_option unix_from_wire w.unix;
  windows = w.windows;
  linux = map_option xattrs_from_wire w.linux;
  darwin = map_option xattrs_from_wire w.darwin;
  freebsd = map_option xattrs_from_wire w.freebsd;
  netbsd = map_option xattrs_from_wire w.netbsd;
}

-- `ToWire`, once the panic is ruled out.
unfoldable pub file_message : Bool → FileInfo → WireFileInfo
file_message with_internal_fields f = record {
  name = f.name;
  size = f.size;
  modified_s = f.modified_s;
  modified_by = f.modified_by;
  version = some (vector_to_wire f.version);
  sequence = f.sequence;
  blocks = map block_to_wire f.blocks;
  symlink_target = f.symlink_target;
  blocks_hash = f.blocks_hash;
  previous_blocks_hash = f.previous_blocks_hash;
  encrypted = f.encrypted;
  type = f.type;
  permissions = f.permissions;
  modified_ns = f.modified_ns;
  block_size = f.raw_block_size;
  platform = some (platform_to_wire f.platform);
  local_flags = if with_internal_fields then f.local_flags else 0;
  encryption_trailer_size =
      if with_internal_fields then to_int32 f.encryption_trailer_size else pos 0;
  deleted = f.deleted;
  invalid = is_invalid f;
  no_permissions = f.no_permissions;
}

-- A truncated file that still has content is a panic: `none`.
unfoldable pub to_wire : Bool → FileInfo → Option WireFileInfo
unfolding file_message
to_wire with_internal_fields f =
    if f.truncated && not (f.deleted || (is_invalid f || is_ignored f))
    then none
    else some (file_message with_internal_fields f)

unfoldable pub from_wire_with_blocks : WireFileInfo → List BlockInfo → FileInfo
from_wire_with_blocks w blocks = record {
  name = w.name;
  size = w.size;
  modified_s = w.modified_s;
  modified_by = w.modified_by;
  version = vector_from_wire w.version;
  sequence = w.sequence;
  blocks = blocks;
  symlink_target = w.symlink_target;
  blocks_hash = w.blocks_hash;
  previous_blocks_hash = w.previous_blocks_hash;
  encrypted = w.encrypted;
  platform = platform_from_wire w.platform;
  type = w.type;
  permissions = w.permissions;
  modified_ns = w.modified_ns;
  raw_block_size = w.block_size;
  local_flags = if w.invalid then flag_local_remote_invalid else 0;
  encryption_trailer_size = pos 0;
  deleted = w.deleted;
  no_permissions = w.no_permissions;
  truncated = false;
}

unfoldable pub from_wire : WireFileInfo → FileInfo
unfolding from_wire_with_blocks
from_wire w = from_wire_with_blocks w (map block_from_wire w.blocks)

unfoldable pub from_db : WireFileInfo → FileInfo
unfolding from_wire
from_db w = record (from_wire w) {
  local_flags = w.local_flags;
  encryption_trailer_size = w.encryption_trailer_size;
}

unfoldable pub from_db_truncated : WireFileInfo → FileInfo
unfolding from_wire_with_blocks
from_db_truncated w = record (from_wire_with_blocks w []) {
  local_flags = w.local_flags;
  encryption_trailer_size = w.encryption_trailer_size;
  truncated = true;
}
