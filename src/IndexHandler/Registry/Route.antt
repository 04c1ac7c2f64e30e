-- ===== src/IndexHandler/Registry/Route.antt =====
-- `ReceiveIndex` of the registry of lib/model/indexhandler.go: which handler a message goes to.
use Prim.Native.String.{String}
use vidsync_app.Base.{
  ℕ, ◌≡◌, refl, ◌∙◌, ap, ◌⊎◌, inl, inr, Bool, true, false, List, [], Option, none, some, ℤ,
  Option-cases,
}
use vidsync_app.FileInfo.{FileInfo}
use vidsync_app.DownloadState.Assoc.{lookup}
use vidsync_app.DownloadState.Devices.{DeviceState}
use vidsync_app.IndexHandler.{folder_paused, folder_missing, Handler}
use vidsync_app.IndexHandler.Receive.{Database, Receipt, receive}
use vidsync_app.IndexHandler.Registry.{Indexes, Registry, new_registry}
use vidsync_app.IndexHandler.Registry.Row.{is_none}
use vidsync_app.IndexHandler.Registry.History.{Call, run, run-IsValid}

unfoldable pub receive_index :
    {S D : Type 0}
    → Database D
    → Registry S
    → String
    → Option DeviceState
    → List FileInfo
    → Bool
    → ℤ
    → ℤ
    → D
    → Receipt D
receive_index db r folder downloads fs update prev last s = elim (lookup folder r.handlers) [
  | none ↦ record {
    store = s;
    downloads = downloads;
    anomalies = [];
    event = none;
    schedules_pull = false;
    result = some (folder_missing folder);
  }
  | some h ↦ receive db h downloads fs update prev last s
]

-- A message that was turned away, and has changed nothing.
pub record Refused {D : Type 0} (folder : String) (downloads : Option DeviceState) (s : D)
    (t : Receipt D) : Type 0 where
  pub store : t.store ≡ s
  pub downloads_kept : t.downloads ≡ downloads
  pub event : t.event ≡ none
  pub schedules_pull : t.schedules_pull ≡ false
  pub result : (t.result ≡ some (folder_missing folder)) ⊎ (t.result ≡ some folder_paused)

receive-Refused :
    {D : Type 0} (db : Database D) (h : Handler) (folder : String) (downloads : Option DeviceState)
    (fs : List FileInfo) (update : Bool) (prev last : ℤ) (s : D)
    → h.paused ≡ true
    → Refused folder downloads s (receive db h downloads fs update prev last s)
unfolding receive
receive-Refused db h folder downloads fs update prev last s e =
    rw (e, receive)
      record {
        store = refl;
        downloads_kept = refl;
        event = refl;
        schedules_pull = refl;
        result = inr refl;
      }

-- Whatever calls the registry has had: a message for a folder whose state is not registered is
-- refused, as one for a missing or a paused folder, and neither the database nor the download state
-- changes, nor is anything reported or pulled.
pub run-Refused :
    {S D : Type 0} (calls : Indexes S) (device : ℕ) (cs : List Call) (s₀ : S) (db : Database D)
    (folder : String) (downloads : Option DeviceState) (fs : List FileInfo) (update : Bool)
    (prev last : ℤ) (s : D)
    → lookup folder (run calls device cs (new_registry s₀)).folder_states ≡ none
    → Refused folder downloads s (
        receive_index db
          (run calls device cs (new_registry s₀))
          folder
          downloads
          fs
          update
          prev
          last
          s)
unfolding receive_index
run-Refused calls device cs s₀ db folder downloads fs update prev last s e =
    let r = run calls device cs (new_registry s₀) in
    elim (Option-cases (lookup folder r.handlers)) [
      | inl q ↦
          rw (q, receive_index)
            record {
              store = refl;
              downloads_kept = refl;
              event = refl;
              schedules_pull = refl;
              result = inl refl;
            }
      | inr (h, q) ↦
          let p = ((run-IsValid calls device cs s₀ folder).running h q).1 in
          rw (q, receive_index)
            (receive-Refused db h folder downloads fs update prev last s (p ∙ ap is_none e))
    ]
