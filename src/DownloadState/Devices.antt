-- ===== src/DownloadState/Devices.antt =====
-- `deviceDownloadState` of lib/model/devicedownloadstate.go and `sentDownloadState` of
-- lib/model/sentdownloadstate.go: the same for all folders.
use Prim.Native.String.{String}
use vidsync_app.Base.{
  ℕ, ◌≡◌, refl, sym, subst, inl, inr, Bool, false, List, [], ◌∷◌, Option, none, some, ℤ, pos, All,
}
use vidsync_app.Vector.{Vector}
use vidsync_app.Messages.Progress.{FileDownloadProgressUpdate}
use vidsync_app.DownloadState.Assoc.{
  key_cases, lookup, store, delete, lookup-store_self, lookup-store_other,
}
use vidsync_app.DownloadState.Remote as Remote
use vidsync_app.DownloadState.Remote.{FolderState, has_block, bytes_downloaded, block_counts}
use vidsync_app.DownloadState.Sent as Sent
use vidsync_app.DownloadState.Sent.{Puller, SentFolder, Step, destroy}
use vidsync_app.DownloadState.Mirror.{Agree}
use vidsync_app.DownloadState.Round.{Extends}
use vidsync_app.DownloadState.Sync.{Distinct, update-Agree}

abbrev pub DeviceState : Type 0
DeviceState = List (String × FolderState)

abbrev pub SentState : Type 0
SentState = List (String × SentFolder)

-- A folder that is not there is taken to be empty, and is stored when it is first used.
abbrev pub or_empty {ℓ} : {A : Type ℓ} → Option (List A) → List A
or_empty none = []
or_empty (some m) = m

-- The methods take a nil receiver, which is `none`.
unfoldable pub device_update :
    Option DeviceState → String → List FileDownloadProgressUpdate → Option DeviceState
device_update none folder us = none
device_update (some t) folder us =
    some (store folder (Remote.update (or_empty (lookup folder t)) us) t)

unfoldable pub device_has : Option DeviceState → String → String → Vector → ℤ → Bool
device_has none folder file version index = false
device_has (some t) folder file version index = elim (lookup folder t) [
  | none ↦ false
  | some f ↦ has_block f file version index
]

unfoldable pub device_block_counts : Option DeviceState → String → Option (List (String × ℕ))
device_block_counts none folder = none
device_block_counts (some t) folder = elim (lookup folder t) [
  | none ↦ none
  | some f ↦ some (block_counts f)
]

unfoldable pub device_bytes_downloaded : Option DeviceState → String → ℤ
device_bytes_downloaded none folder = pos 0
device_bytes_downloaded (some t) folder = elim (lookup folder t) [
  | none ↦ pos 0
  | some f ↦ bytes_downloaded f
]

abbrev pub SentStep : Type 0
SentStep = SentState × List FileDownloadProgressUpdate

unfoldable pub sent_update : SentState → String → List Puller → Option SentStep
sent_update s folder ps = elim (Sent.update (or_empty (lookup folder s)) ps) [
  | none ↦ none
  | some (f, us) ↦ some (store folder f s, us)
]

unfoldable pub folders : SentState → List String
folders [] = []
folders ((folder, f) ∷ s) = folder ∷ folders s

unfoldable pub cleanup : SentState → String → SentStep
cleanup s folder = elim (lookup folder s) [
  | none ↦ (s, [])
  | some f ↦ (delete folder s, (destroy f).1)
]

-- The other device knows, of every folder, what this one has said of it.
abbrev pub AgreeAll : SentState → DeviceState → Type 0
AgreeAll s t = (folder : String) → Agree (or_empty (lookup folder s)) (or_empty (lookup folder t))

store-AgreeAll :
    (s : SentState) (t : DeviceState) (k : String) (f : SentFolder) (g : FolderState)
    → AgreeAll s t
    → Agree f g
    → AgreeAll (store k f s) (store k g t)
store-AgreeAll s t k f g h e j = elim (key_cases k j) [
  | inl (p, _) ↦
      subst (λ i. Agree (or_empty (lookup i (store k f s))) (or_empty (lookup i (store k g t)))) p
        (subst (λ o. Agree (or_empty o) (or_empty (lookup k (store k g t))))
          (sym (lookup-store_self k f s))
          (subst (λ o. Agree f (or_empty o)) (sym (lookup-store_self k g t)) e))
  | inr (n, _) ↦
      subst (λ o. Agree (or_empty o) (or_empty (lookup j (store k g t))))
        (sym (lookup-store_other k j f s n))
        (subst (λ o. Agree (or_empty (lookup j s)) (or_empty o))
          (sym (lookup-store_other k j g t n)) (h j))
]

-- When the other device knows what this one has said of every folder, and one folder is updated
-- and its updates are taken in by the other device, then it knows it again, of every folder. The
-- conditions on the pullers are those for one folder.
pub sent_update-AgreeAll :
    (s : SentState) (t : DeviceState) (folder : String) (ps : List Puller)
    → AgreeAll s t
    → Distinct ps
    → All (Extends (or_empty (lookup folder s))) ps
    → (st : SentStep) × (u : DeviceState) × (sent_update s folder ps ≡ some st)
      × (device_update (some t) folder st.1 ≡ some u)
      × AgreeAll st.0 u
unfolding sent_update device_update
sent_update-AgreeAll s t folder ps h d grows =
    let (st, e, agree) =
      update-Agree (or_empty (lookup folder s)) (or_empty (lookup folder t)) ps (h folder) d
        grows in
    (
      (store folder st.0 s, st.1),
      store folder (Remote.update (or_empty (lookup folder t)) st.1) t,
      rw (e, sent_update) refl,
      refl,
      store-AgreeAll s t folder st.0 (Remote.update (or_empty (lookup folder t)) st.1) h agree,
    )
