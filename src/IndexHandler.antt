-- ===== src/IndexHandler.antt =====
-- lib/model/indexhandler.go: the announcement of a folder's files to one connected device, and what
-- that device does with it.
mod Tests
pub mod Batch
pub mod Send
pub mod Loop
pub mod Chain
pub mod Linked
pub mod Used
pub mod Complete
pub mod Every
pub mod Receive
pub mod Store
pub mod Exchange
pub mod Registry
use Prim.Native.String.{String}
use vidsync_app.Base.{ℕ, Bool, true, false, ◌==◌, Option, none, some, if◌then◌else◌, ℤ, pos, ltb_ℤ}

-- Go's `error`: the ones that the handler and the registry make, and those of the database, of the
-- connection and of the context, which they hand on.
pub data Problem : Type 0 where
  database_misbehaved : Problem
  folder_paused : Problem
  folder_missing : (folder : String) → Problem
  reported : (text : String) → Problem

-- `localPrevSequence` is the highest sequence number seen, `sentPrevSequence` the highest sent.
pub record Handler : Type 0 where
  pub folder : String
  pub folder_is_receive_encrypted : Bool
  pub local_prev_sequence : ℤ
  pub sent_prev_sequence : ℤ
  pub paused : Bool

-- What the cluster configuration of the other device says of one device.
pub record Announced : Type 0 where
  pub index_id : ℕ
  pub max_sequence : ℤ

-- What `newIndexHandler` does to the files on record for the other device.
pub data Cleanup : Type 0 where
  keep_files : Cleanup
  drop_files : Cleanup
  drop_files_and_set_index_id : (index_id : ℕ) → Cleanup

-- The switch over `startInfo.local.IndexID`.
unfoldable pub start_sequence : ℕ → ℤ → Announced → ℤ
start_sequence my_index_id my_sequence local =
    if local.index_id == my_index_id
    then (if ltb_ℤ my_sequence local.max_sequence then pos 0 else local.max_sequence)
    else pos 0

unfoldable pub cleanup : ℕ → Announced → Cleanup
cleanup their_index_id remote =
    if remote.index_id == 0
    then drop_files
    else if remote.index_id == their_index_id
    then keep_files
    else drop_files_and_set_index_id remote.index_id

unfoldable pub new_index_handler :
    String → Bool → ℕ → ℤ → ℕ → Announced → Announced → Handler × Cleanup
unfolding start_sequence cleanup
new_index_handler folder encrypted my_index_id my_sequence their_index_id local remote =
    let start = start_sequence my_index_id my_sequence local in
    (
      record {
        folder = folder;
        folder_is_receive_encrypted = encrypted;
        local_prev_sequence = start;
        sent_prev_sequence = start;
        paused = false;
      },
      cleanup their_index_id remote,
    )

unfoldable pub resume : Handler → Handler
resume s = record s { paused = false }

-- The second part is whether the pause is reported as a failure.
unfoldable pub pause : Handler → Handler × Bool
pause s = (record s { paused = true }, s.paused)
