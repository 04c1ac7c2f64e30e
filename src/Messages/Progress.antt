-- ===== src/Messages/Progress.antt =====
-- lib/protocol/bep_download_progress.go: what a device has of the files that it is downloading.
use Prim.Native.String.{String}
use vidsync_app.Base.{
  ◌≡◌, refl, ap₂, List, [], ◌∷◌, some, map, Option, ℤ, pos, to_int32, All, IsInt32, to_int32-id,
}
use vidsync_app.Vector.{Vector}
use vidsync_app.FileInfo.Wire.{WireVector, vector_to_wire, vector_from_wire}
use vidsync_app.FileInfo.Wire.RoundTrip.{vector_from-to_wire}

-- `FileDownloadProgressUpdateType`, an `int32` with two named values.
abbrev pub UpdateType : Type 0
UpdateType = ℤ

abbrev pub append : UpdateType
append = pos 0

abbrev pub forget : UpdateType
forget = pos 1

pub record FileDownloadProgressUpdate : Type 0 where
  pub update_type : UpdateType
  pub name : String
  pub version : Vector
  pub block_indexes : List ℤ
  pub block_size : ℤ

pub record WireUpdate : Type 0 where
  pub update_type : UpdateType
  pub name : String
  pub version : Option WireVector
  pub block_indexes : List ℤ
  pub block_size : ℤ

unfoldable pub update_to_wire : FileDownloadProgressUpdate → WireUpdate
update_to_wire f = record {
  update_type = f.update_type;
  name = f.name;
  version = some (vector_to_wire f.version);
  block_indexes = map to_int32 f.block_indexes;
  block_size = to_int32 f.block_size;
}

unfoldable pub update_from_wire : WireUpdate → FileDownloadProgressUpdate
update_from_wire w = record {
  update_type = w.update_type;
  name = w.name;
  version = vector_from_wire w.version;
  block_indexes = w.block_indexes;
  block_size = w.block_size;
}

pub record DownloadProgress : Type 0 where
  pub folder : String
  pub updates : List FileDownloadProgressUpdate

pub record WireDownloadProgress : Type 0 where
  pub folder : String
  pub updates : List WireUpdate

unfoldable pub download_progress_to_wire : DownloadProgress → WireDownloadProgress
download_progress_to_wire d = record { folder = d.folder; updates = map update_to_wire d.updates }

unfoldable pub download_progress_from_wire : WireDownloadProgress → DownloadProgress
download_progress_from_wire w = record {
  folder = w.folder;
  updates = map update_from_wire w.updates;
}

-- The numbers that the message narrows fit in 32 bits.
pub record UpdateFits (u : FileDownloadProgressUpdate) : Type 0 where
  pub indexes_fit : All IsInt32 u.block_indexes
  pub size_fits : IsInt32 u.block_size

map-to_int32 : (ns : List ℤ) → All IsInt32 ns → map to_int32 ns ≡ ns
map-to_int32 [] h = refl
map-to_int32 (n ∷ ns) h = ap₂ (◌∷◌) (to_int32-id n h.0) (map-to_int32 ns h.1)

update_arrives :
    (u : FileDownloadProgressUpdate) → UpdateFits u → update_from_wire (update_to_wire u) ≡ u
unfolding update_to_wire update_from_wire
update_arrives u h = λ i. record u {
  version = vector_from-to_wire u.version i;
  block_indexes = map-to_int32 u.block_indexes h.indexes_fit i;
  block_size = to_int32-id u.block_size h.size_fits i;
}

updates_arrive :
    (us : List FileDownloadProgressUpdate)
    → All UpdateFits us
    → map update_from_wire (map update_to_wire us) ≡ us
updates_arrive [] h = refl
updates_arrive (u ∷ us) h = ap₂ (◌∷◌) (update_arrives u h.0) (updates_arrive us h.1)

-- A message on the progress of downloads arrives as it was sent, update for update, if the block
-- indexes and sizes in it fit in 32 bits.
pub download_progress_from-to_wire :
    (d : DownloadProgress)
    → All UpdateFits d.updates
    → download_progress_from_wire (download_progress_to_wire d) ≡ d
unfolding download_progress_to_wire download_progress_from_wire
download_progress_from-to_wire d h = λ i. record d { updates = updates_arrive d.updates h i }
