-- ===== src/IndexHandler/Store.antt =====
-- What `receive` of lib/model/indexhandler.go relies on in the database, and how a call of it can end.
use vidsync_app.Base.{◌≡◌, ◌⊎◌, List, [], none, some, ℤ, pos, length}
use vidsync_app.FileInfo.{FileInfo}
use vidsync_app.IndexHandler.{Problem}
use vidsync_app.IndexHandler.Receive.{Database, Receipt}
use vidsync_app.IndexHandler.Chain.{Rising}

module _ {S : Type 0} (db : Database S) where
  -- The sequence number on file is this one, or cannot be read.
  abbrev pub Says : S → ℤ → Type 0
  Says s a =
      (db.get_device_sequence s ≡ (a, none))
      ⊎ ((e : Problem) × ((db.get_device_sequence s).1 ≡ some e))

  -- Any call may fail. A drop of the files that does not fail takes the sequence number back to 0, and
  -- an update that does not fail with files whose numbers rise takes it to the last of them.
  pub record KeepsSequence : Type 0 where
    pub dropped : (s : S) → (db.drop_all_files s).1 ≡ none → Says (db.drop_all_files s).0 (pos 0)
    pub updated :
        (s : S) (fs : List FileInfo) (a b : ℤ)
        → Says s a
        → Rising a fs b
        → (db.update s fs).1 ≡ none
        → Says (db.update s fs).0 b

  -- An error that a call of the database returned.
  pub data FromDatabase (e : Problem) : Type 0 where
    of_drop : (s : S) → (db.drop_all_files s).1 ≡ some e → FromDatabase e
    of_read : (s : S) → (db.get_device_sequence s).1 ≡ some e → FromDatabase e
    of_update : (s : S) (fs : List FileInfo) → (db.update s fs).1 ≡ some e → FromDatabase e

  -- A message that was taken without an anomaly and without an error, and reported with its number.
  pub record Taken (fs : List FileInfo) (last : ℤ) (r : Receipt S) : Type 0 where
    pub anomalies : r.anomalies ≡ []
    pub result : r.result ≡ none
    pub event : r.event ≡ some (length fs, last)
    pub sequence : Says r.store last

  -- A message at which the database failed.
  pub record Stopped (r : Receipt S) : Type 0 where
    pub error : Problem
    pub result : r.result ≡ some error
    pub cause : FromDatabase error
    pub anomalies : r.anomalies ≡ []
    pub event : r.event ≡ none
