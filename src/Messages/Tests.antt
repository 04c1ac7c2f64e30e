-- ===== src/Messages/Tests.antt =====
-- Messages of lib/protocol/bep_*.go at concrete inputs.
use vidsync_app.Base.{◌≡◌, ◌⊎◌, refl, false, [], ◌∷◌, some, arith, pos, All, replicate}
use vidsync_app.DeviceId.Luhn.{ok, err, panic}
use vidsync_app.FileInfo.{FileInfo, type_file}
use vidsync_app.FileInfo.Wire.{no_platform}
use vidsync_app.Messages.Index.{Index, IndexUpdate, Sendable}
use vidsync_app.Messages.Progress.{append, DownloadProgress}
use vidsync_app.Messages.Requests.{Request, Response}
use vidsync_app.Messages.Cluster.{
  Device, ClusterConfig, WireClusterConfig, HasLongIds, cluster_config_to_wire,
  cluster_config_from_wire, cluster_config_from-to_wire, cluster_config-cases,
}

abbrev song : FileInfo
song = record {
  name = "song.ogg";
  size = pos 10;
  modified_s = pos 100;
  modified_by = 3;
  version = record { id = 3; value = 5 } ∷ [];
  sequence = pos 1;
  blocks = record { hash = 1 ∷ []; offset = pos 0; size = pos 10 } ∷ [];
  symlink_target = [];
  blocks_hash = 9 ∷ [];
  previous_blocks_hash = [];
  encrypted = [];
  platform = no_platform;
  type = type_file;
  permissions = 0o644;
  modified_ns = pos 0;
  raw_block_size = pos 131072;
  local_flags = 2;
  encryption_trailer_size = pos 0;
  deleted = false;
  no_permissions = false;
  truncated = false;
}

song-Sendable : Sendable song
song-Sendable = record {
  whole = refl;
  fits = record {
    block_sizes = (record { low = omega arith; high = omega arith }, tt);
    owner = tt;
    trailer = record { low = omega arith; high = omega arith };
  };
}

abbrev songs : Index
songs = record { folder = "music"; files = song ∷ []; last_sequence = pos 1 }

abbrev more_songs : IndexUpdate
more_songs = record {
  folder = "music";
  files = song ∷ [];
  last_sequence = pos 2;
  prev_sequence = pos 1;
}

abbrev first_blocks : DownloadProgress
first_blocks = record {
  folder = "music";
  updates =
      record {
        update_type = append;
        name = "song.ogg";
        version = record { id = 3; value = 5 } ∷ [];
        block_indexes = pos 0 ∷ pos 4 ∷ [];
        block_size = pos 131072;
      }
      ∷ [];
}

abbrev ask : Request
ask = record {
  id = pos 7;
  folder = "music";
  name = "song.ogg";
  offset = pos 5000000000;
  size = pos 131072;
  hash = 1 ∷ [];
  from_temporary = false;
  block_no = pos 3;
}

abbrev answer : Response
answer = record { id = pos 7; data_bytes = 1 ∷ 2 ∷ []; code = pos 0 }

abbrev laptop : Device
laptop = record {
  id = replicate 32 7;
  name = "laptop";
  addresses = "dynamic" ∷ [];
  compression = pos 0;
  cert_name = "";
  max_sequence = pos 9;
  introducer = false;
  index_id = 5;
  skip_introduction_removals = false;
  encryption_password_token = [];
}

abbrev cluster : ClusterConfig
cluster = record {
  folders =
      record {
        id = "music";
        label = "Music";
        type = pos 0;
        stop_reason = pos 0;
        devices = laptop ∷ [];
      }
      ∷ [];
  secondary = false;
}

cluster_config_from-to_wire_example :
    cluster_config_from_wire (some (cluster_config_to_wire cluster)) ≡ ok (some cluster)
cluster_config_from-to_wire_example = cluster_config_from-to_wire cluster ((refl, tt), tt)

abbrev short_id : WireClusterConfig
short_id = record {
  folders =
      record {
        id = "music";
        label = "Music";
        type = pos 0;
        stop_reason = pos 0;
        devices =
            record {
              id = 1 ∷ 2 ∷ [];
              name = "laptop";
              addresses = [];
              compression = pos 0;
              cert_name = "";
              max_sequence = pos 9;
              introducer = false;
              index_id = 5;
              skip_introduction_removals = false;
              encryption_password_token = [];
            }
            ∷ [];
      }
      ∷ [];
  secondary = false;
}

cluster_config-cases_example :
    (All HasLongIds short_id.folders
      × (r : ClusterConfig) × (cluster_config_from_wire (some short_id) ≡ ok (some r)))
    ⊎ ((¬ All HasLongIds short_id.folders) × (cluster_config_from_wire (some short_id) ≡ err panic))
cluster_config-cases_example = cluster_config-cases short_id
