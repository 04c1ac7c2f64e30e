-- ===== src/DownloadState/Remote.antt =====
-- `deviceFolderDownloadState` of lib/model/devicedownloadstate.go: what another device has said
-- that it has of the files of one folder. Each method is one step under the mutex.
use Prim.Native.String.{String}
use vidsync_app.Base.{
  ℕ, suc, ◌*◌, Bool, true, false, ◌||◌, ◌&&◌, List, [], ◌∷◌, ◌++◌, Option, none, some, length, ℤ,
  pos, negsuc, sub_ℕ, ◌+ℤ◌, eqb_ℤ, if◌then◌else◌,
}
use vidsync_app.Vector.{Vector, equal_to}
use vidsync_app.FileInfo.Blocks.{min_block_size}
use vidsync_app.Messages.Progress.{FileDownloadProgressUpdate, append, forget}
use vidsync_app.DownloadState.Assoc.{lookup, store, delete}

pub record FileState : Type 0 where
  pub block_indexes : List ℤ
  pub version : Vector
  pub block_size : ℤ

abbrev pub FolderState : Type 0
FolderState = List (String × FileState)

-- `slices.Contains`.
unfoldable pub contains : List ℤ → ℤ → Bool
contains [] n = false
contains (m ∷ ms) n = eqb_ℤ m n || contains ms n

unfoldable pub has_block : FolderState → String → Vector → ℤ → Bool
has_block p file version index = elim (lookup file p) [
  | none ↦ false
  | some local ↦ elim (equal_to local.version version) [
    | true ↦ contains local.block_indexes index
    | false ↦ false
  ]
]

-- `ok && local.version.Equal(version)`.
unfoldable pub known_version : Option FileState → Vector → Bool
known_version none version = false
known_version (some local) version = equal_to local.version version

-- What an update of the type "append" makes of the state.
unfoldable pub appended : Option FileState → FileDownloadProgressUpdate → FileState
appended none u = record {
  block_indexes = u.block_indexes;
  version = u.version;
  block_size = u.block_size;
}
appended (some local) u = elim (equal_to local.version u.version) [
  | false ↦ record {
    block_indexes = u.block_indexes;
    version = u.version;
    block_size = u.block_size;
  }
  | true ↦ record local { block_indexes = local.block_indexes ++ u.block_indexes }
]

-- One round of the loop of `Update`.
unfoldable pub update_file : FolderState → FileDownloadProgressUpdate → FolderState
update_file p u = elim (eqb_ℤ u.update_type forget && known_version (lookup u.name p) u.version) [
  | true ↦ delete u.name p
  | false ↦ elim (eqb_ℤ u.update_type append) [
    | true ↦ store u.name (appended (lookup u.name p) u) p
    | false ↦ p
  ]
]

unfoldable pub update : FolderState → List FileDownloadProgressUpdate → FolderState
update p [] = p
update p (u ∷ us) = update (update_file p u) us

-- `n * size`, for a count.
abbrev times : ℕ → ℤ → ℤ
times n (pos size) = pos (n * size)
times n (negsuc size) = sub_ℕ 0 (n * suc size)

unfoldable pub file_bytes : FileState → ℤ
file_bytes s =
    if eqb_ℤ s.block_size (pos 0)
    then times (length s.block_indexes) (pos min_block_size)
    else times (length s.block_indexes) s.block_size

unfoldable pub bytes_downloaded : FolderState → ℤ
bytes_downloaded [] = pos 0
bytes_downloaded ((name, s) ∷ p) = file_bytes s +ℤ bytes_downloaded p

unfoldable pub block_counts : FolderState → List (String × ℕ)
block_counts [] = []
block_counts ((name, s) ∷ p) = (name, length s.block_indexes) ∷ block_counts p
