-- ===== src/IndexHandler/Receive.antt =====
-- `receive` of lib/model/indexhandler.go, and `Index` and `IndexUpdate` of lib/model/model.go as far as
-- they choose its arguments.
use Prim.Native.String.{String}
use vidsync_app.Base.{
  ℕ, Bool, true, false, not, ◌&&◌, ◌||◌, List, [], ◌∷◌, ◌++◌, Option, none, some, if◌then◌else◌, ℤ,
  pos, ltb_ℤ, leb_ℤ, eqb_ℤ, length, ltb,
}
use vidsync_app.FileInfo.{FileInfo, is_symlink, is_directory}
use vidsync_app.Messages.Progress.{FileDownloadProgressUpdate}
use vidsync_app.DownloadState.Sent.{forget_update}
use vidsync_app.DownloadState.Devices.{DeviceState, device_update}
use vidsync_app.IndexHandler.{Problem, folder_paused, Handler}
use vidsync_app.IndexHandler.Send.{Message, index, index_update}

-- The calls of `logSequenceAnomaly`.
pub data Anomaly : Type 0 where
  unexpected_sequence before_prev_sequence after_last_sequence non_increasing_sequence : Anomaly
  unexpected_last_sequence unexpected_sequence_after_update : Anomaly

-- The database's files of the other device in this folder, with the calls of `sdb` on them.
pub record Database (S : Type 0) : Type 0 where
  pub drop_all_files : S → S × Option Problem
  pub get_device_sequence : S → ℤ × Option Problem
  pub update : S → List FileInfo → S × Option Problem

-- What a call has done: the event holds the number of files and the sequence number.
pub record Receipt (S : Type 0) : Type 0 where
  pub store : S
  pub downloads : Option DeviceState
  pub anomalies : List Anomaly
  pub event : Option (ℕ × ℤ)
  pub schedules_pull : Bool
  pub result : Option Problem

unfoldable pub make_forget_update : List FileInfo → List FileDownloadProgressUpdate
make_forget_update [] = []
make_forget_update (f ∷ fs) =
    if is_symlink f || (is_directory f || f.deleted)
    then make_forget_update fs
    else forget_update f.name f.version ∷ make_forget_update fs

-- An anomaly, where the test holds.
abbrev pub report : Bool → Anomaly → List Anomaly
report true a = a ∷ []
report false a = []

-- The loop over the files; the option is the sequence number of the file before.
unfoldable pub check_files : ℤ → ℤ → Option ℤ → List FileInfo → List Anomaly
check_files prev last before [] = []
check_files prev last before (f ∷ fs) =
    report (ltb_ℤ f.sequence prev) before_prev_sequence
    ++ (report (ltb_ℤ (pos 0) last && ltb_ℤ last f.sequence) after_last_sequence
        ++ (report (elim before [ none ↦ false | some b ↦ leb_ℤ f.sequence b ])
              non_increasing_sequence
            ++ check_files prev last (some f.sequence) fs))

-- `lastSequence > 0 && len(fs) > 0 && lastSequence != fs[len(fs)-1].Sequence`.
unfoldable pub check_last : ℤ → List FileInfo → List Anomaly
check_last last [] = []
check_last last (f ∷ []) =
    report (ltb_ℤ (pos 0) last && not (eqb_ℤ last f.sequence)) unexpected_last_sequence
check_last last (f ∷ (g ∷ fs)) = check_last last (g ∷ fs)

module _ {S : Type 0} (db : Database S) where
  -- From `Update` on.
  unfoldable pub receive_files :
      Option DeviceState → List Anomaly → List FileInfo → ℤ → S → Receipt S
  receive_files downloads seen fs last s =
      let failed : S → Option Problem → Receipt S = λ t e. record {
        store = t;
        downloads = downloads;
        anomalies = seen;
        event = none;
        schedules_pull = true;
        result = e;
      } in
      let t = db.update s fs in
      elim t.1 [
        | some e ↦ failed t.0 (some e)
        | none ↦
            let q = db.get_device_sequence t.0 in
            elim q.1 [
              | some e ↦ failed t.0 (some e)
              | none ↦ record {
                store = t.0;
                downloads = downloads;
                anomalies =
                    seen
                    ++ report (ltb_ℤ (pos 0) last && ltb 0 (length fs) && not (eqb_ℤ q.0 last))
                        unexpected_sequence_after_update;
                event = some (length fs, q.0);
                schedules_pull = true;
                result = none;
              }
            ]
      ]

  -- Behind `DropAllFiles`.
  unfoldable pub receive_checked : Option DeviceState → List FileInfo → ℤ → ℤ → S → Receipt S
  unfolding check_files check_last receive_files
  receive_checked downloads fs prev last s =
      let q = db.get_device_sequence s in
      elim q.1 [
        | some e ↦ record {
          store = s;
          downloads = downloads;
          anomalies = [];
          event = none;
          schedules_pull = true;
          result = some e;
        }
        | none ↦
            receive_files downloads
              (report (ltb_ℤ (pos 0) prev && not (eqb_ℤ prev q.0)) unexpected_sequence
                ++ (check_files prev last none fs ++ check_last last fs))
              fs last s
      ]

  unfoldable pub receive_running :
      String → Option DeviceState → List FileInfo → Bool → ℤ → ℤ → S → Receipt S
  unfolding make_forget_update receive_checked
  receive_running folder downloads fs update prev last s =
      let d = device_update downloads folder (make_forget_update fs) in
      if update
      then receive_checked d fs prev last s
      else let t = db.drop_all_files s in
        elim t.1 [
          | some e ↦ record {
            store = t.0;
            downloads = d;
            anomalies = [];
            event = none;
            schedules_pull = true;
            result = some e;
          }
          | none ↦ receive_checked d fs prev last t.0
        ]

  unfoldable pub receive :
      Handler → Option DeviceState → List FileInfo → Bool → ℤ → ℤ → S → Receipt S
  unfolding receive_running
  receive h downloads fs update prev last s =
      if h.paused
      then record {
        store = s;
        downloads = downloads;
        anomalies = [];
        event = none;
        schedules_pull = false;
        result = some folder_paused;
      }
      else receive_running h.folder downloads fs update prev last s

  -- `Index` and `IndexUpdate` of the model.
  unfoldable pub receive_message : Handler → Option DeviceState → Message → S → Receipt S
  unfolding receive
  receive_message h downloads (index m) s =
      receive h downloads m.files false (pos 0) m.last_sequence s
  receive_message h downloads (index_update m) s =
      receive h downloads m.files true m.prev_sequence m.last_sequence s
