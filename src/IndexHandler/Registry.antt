-- ===== src/IndexHandler/Registry.antt =====
-- `indexHandlerRegistry` of lib/model/indexhandler.go: the index handlers of one connection, by folder.
pub mod Row
pub mod Started
pub mod Registered
pub mod History
pub mod Agree
pub mod Order
pub mod Route
mod Tests
use Prim.Native.String.{String}
use text.Mathlib.Text.{◌==◌ as str_eq}
use vidsync_app.Base.{
  ℕ, Bool, true, false, not, ◌==◌, ◌||◌, ◌⊎◌, inl, inr, List, [], ◌∷◌, Option, none, some,
  if◌then◌else◌, ℤ,
}
use vidsync_app.DownloadState.Assoc.{lookup, store, delete}
use vidsync_app.IndexHandler.{
  Problem, Handler, Announced, Cleanup, keep_files, drop_files, drop_files_and_set_index_id,
  new_index_handler, resume, pause,
}

-- The parts of `config.FolderConfiguration` that count here; the devices by number.
pub record Folder : Type 0 where
  pub id : String
  pub is_receive_encrypted : Bool
  pub paused : Bool
  pub devices : List ℕ

pub record StartInfo : Type 0 where
  pub local : Announced
  pub remote : Announced

-- The calls that `newIndexHandler` makes to the database. A call returns a value together with Go's
-- `error`, and `local_index_id` makes an ID for a folder that has none.
pub record Indexes (S : Type 0) : Type 0 where
  pub local_index_id : String → S → S × (ℕ × Option Problem)
  pub local_sequence : String → S → ℤ × Option Problem
  pub their_index_id : String → S → S × (ℕ × Option Problem)
  pub drop_all_files : String → S → S × Option Problem
  pub set_index_id : String → ℕ → S → S × Option Problem

-- The three maps, the database, and what the calls did outside: the folders whose runners were asked
-- to pull, and those that reported a failure. A folder's state is its configuration; its runner does
-- not choose anything here.
pub record Registry (S : Type 0) : Type 0 where
  pub handlers : List (String × Handler)
  pub start_infos : List (String × StartInfo)
  pub folder_states : List (String × Folder)
  pub db : S
  pub pulls : List String
  pub failures : List String

unfoldable pub new_registry : {S : Type 0} → S → Registry S
new_registry s = record {
  handlers = [];
  start_infos = [];
  folder_states = [];
  db = s;
  pulls = [];
  failures = [];
}

unfoldable pub shared_with : List ℕ → ℕ → Bool
shared_with [] device = false
shared_with (d ∷ ds) device = d == device || shared_with ds device

unfoldable pub is_excepted : String → List String → Bool
is_excepted k [] = false
is_excepted k (e ∷ es) = str_eq e k || is_excepted k es

-- The loops of `RemoveAllExcept`.
unfoldable pub keep_excepted : {V : Type 0} → List String → List (String × V) → List (String × V)
unfolding is_excepted
keep_excepted except [] = []
keep_excepted except ((k, v) ∷ m) = elim (is_excepted k except) [
  | true ↦ (k, v) ∷ keep_excepted except m
  | false ↦ keep_excepted except m
]

module _ {S : Type 0} (calls : Indexes S) where
  -- `DropAllFiles` and `SetIndexID` in `newIndexHandler`.
  unfoldable pub clean_up : String → Cleanup → S → S × Option Problem
  clean_up folder keep_files s = (s, none)
  clean_up folder drop_files s = calls.drop_all_files folder s
  clean_up folder (drop_files_and_set_index_id n) s =
      let d = calls.drop_all_files folder s in
      elim d.1 [ some e ↦ (d.0, some e) | none ↦ calls.set_index_id folder n d.0 ]

  -- `newIndexHandler`, behind the reads of the database.
  unfoldable pub finish_handler : String → Handler × Cleanup → S → S × (Problem ⊎ Handler)
  unfolding clean_up
  finish_handler folder h s =
      let c = clean_up folder h.1 s in elim c.1 [ some e ↦ (c.0, inl e) | none ↦ (c.0, inr h.0) ]

  -- `newIndexHandler`; the error of the third call is ignored.
  unfoldable pub open_handler : Folder → StartInfo → S → S × (Problem ⊎ Handler)
  unfolding finish_handler new_index_handler
  open_handler f i s =
      let mine = calls.local_index_id f.id s in
      elim mine.1.1 [
        | some e ↦ (mine.0, inl e)
        | none ↦
            let sequence = calls.local_sequence f.id mine.0 in
            elim sequence.1 [
              | some e ↦ (mine.0, inl e)
              | none ↦
                  let theirs = calls.their_index_id f.id mine.0 in
                  finish_handler f.id
                    (new_index_handler f.id f.is_receive_encrypted mine.1.0 sequence.0 theirs.1.0
                      i.local i.remote)
                    theirs.0
            ]
      ]

  -- Both callers ignore the error.
  unfoldable pub start_locked : Folder → StartInfo → Registry S → Registry S
  unfolding open_handler
  start_locked f i r =
      let stopped = record r {
        handlers = delete f.id r.handlers;
        start_infos = delete f.id r.start_infos;
      } in
      let o = open_handler f i r.db in
      elim o.1 [
        | inl e ↦ record stopped { db = o.0 }
        | inr h ↦ record stopped {
          db = o.0;
          handlers = store f.id h stopped.handlers;
          pulls = f.id ∷ r.pulls;
        }
      ]

  unfoldable pub add_index_info : String → StartInfo → Registry S → Registry S
  unfolding start_locked
  add_index_info folder i r =
      let stopped = record r { handlers = delete folder r.handlers } in
      elim (lookup folder r.folder_states) [
        | none ↦ record stopped { start_infos = store folder i r.start_infos }
        | some f ↦ start_locked f i stopped
      ]

  unfoldable pub remove : String → Registry S → Registry S
  remove folder r = record r {
    handlers = delete folder r.handlers;
    start_infos = delete folder r.start_infos;
  }

  unfoldable pub remove_all_except : List String → Registry S → Registry S
  unfolding keep_excepted
  remove_all_except except r = record r {
    handlers = keep_excepted except r.handlers;
    start_infos = keep_excepted except r.start_infos;
  }

  unfoldable pub folder_paused_locked : String → Registry S → Registry S
  folder_paused_locked folder r =
      let known = record r { folder_states = delete folder r.folder_states } in
      elim (lookup folder r.handlers) [
        | none ↦ known
        | some h ↦
            let p = pause h in
            record known {
              handlers = store folder p.0 r.handlers;
              failures = if p.1 then folder ∷ r.failures else r.failures;
            }
      ]

  unfoldable pub folder_running_locked : Folder → Registry S → Registry S
  unfolding start_locked
  folder_running_locked f r =
      let known = record r { folder_states = store f.id f r.folder_states } in
      elim (lookup f.id r.start_infos) [
        | some i ↦
            let s = start_locked f i (elim (lookup f.id r.handlers) [
              | none ↦ known
              | some h ↦ record known { handlers = delete f.id r.handlers }
            ]) in
            record s { start_infos = delete f.id s.start_infos }
        | none ↦ elim (lookup f.id r.handlers) [
          | some h ↦ record known { handlers = store f.id (resume h) r.handlers }
          | none ↦ known
        ]
      ]

  unfoldable pub register_folder_state : ℕ → Folder → Registry S → Registry S
  unfolding shared_with remove folder_paused_locked folder_running_locked
  register_folder_state device f r =
      if not (shared_with f.devices device)
      then remove f.id r
      else if f.paused
      then folder_paused_locked f.id r
      else folder_running_locked f r
