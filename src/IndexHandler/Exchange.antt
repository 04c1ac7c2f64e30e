-- ===== src/IndexHandler/Exchange.antt =====
-- Two devices with lib/model/indexhandler.go at both ends: the messages that one sends, received by
-- the other.
use vidsync_app.Base.{◌⊎◌, List, [], ◌∷◌, Option, ℤ}
use vidsync_app.FileInfo.{FileInfo}
use vidsync_app.DownloadState.Devices.{DeviceState}
use vidsync_app.IndexHandler.{Handler}
use vidsync_app.IndexHandler.Store.{Says, Taken, Stopped}
use vidsync_app.IndexHandler.Send.{Message}
use vidsync_app.IndexHandler.Receive.{
  Anomaly, unexpected_sequence_after_update, Database, Receipt, receive_message,
}
use vidsync_app.IndexHandler.Chain.{last_of, files_of}

abbrev after : Anomaly
after = unexpected_sequence_after_update

module _ {S : Type 0} (db : Database S) where
  -- All messages, one after the other, are taken, and then the receiver has this sequence number; or
  -- all before one at which the database failed are.
  pub AllTaken : Handler → Option DeviceState → List Message → S → ℤ → Type 0
  AllTaken h d [] s b = Says db s b
  AllTaken h d (m ∷ ms) s b =
      Stopped db (receive_message db h d m s)
      ⊎ Taken db (files_of m) (last_of m) (receive_message db h d m s)
        × AllTaken h (receive_message db h d m s).downloads ms (receive_message db h d m s).store b

  abbrev Ends : List FileInfo → ℤ → Receipt S → Type 0
  Ends fs last r = Stopped db r ⊎ Taken db fs last r
