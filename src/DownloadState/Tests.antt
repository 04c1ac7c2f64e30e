-- ===== src/DownloadState/Tests.antt =====
-- Runs of lib/model/sentdownloadstate.go and lib/model/devicedownloadstate.go, and the theorems at
-- such inputs.
use Prim.Native.String.{String}
use text.Mathlib.Text.{◌==◌ as str_eq}
use text.Mathlib.TextEquality.{eq_iff}
use vidsync_app.Base.{
  ◌≡◌, ◌≢◌, refl, true, [], ◌∷◌, some, pos, ◌+ℤ◌, Bool-cases, inl, inr, sym, ap, ◌∙◌,
}
use vidsync_app.Vector.{Vector, equal_to, compare as vec_compare}
use vidsync_app.DownloadState.Assoc.{lookup, store, lookup-hit, lookup-miss}
use vidsync_app.DownloadState.Remote as Remote
use vidsync_app.DownloadState.Remote.{
  FolderState, appended, file_bytes, has_block, contains, bytes_downloaded, update_file,
}
use vidsync_app.DownloadState.Sent as Sent
use vidsync_app.DownloadState.Sent.{
  Puller, SentFolder, Step, destroy, append_update, sent_file, is_seen,
}
use vidsync_app.DownloadState.Mirror.{Agree, view, view_option}
use vidsync_app.DownloadState.Sync.{update-Agree}
use vidsync_app.DownloadState.Devices.{AgreeAll}

abbrev first : Vector
first = record { id = 3; value = 1 } ∷ []

abbrev second : Vector
second = record { id = 3; value = 2 } ∷ []

abbrev film : Puller
film = record {
  name = "film";
  available = pos 0 ∷ pos 1 ∷ [];
  version = first;
  available_updated = pos 10;
  created = pos 5;
  block_size = pos 131072;
}

abbrev film_later : Puller
film_later = record film { available = pos 0 ∷ pos 1 ∷ pos 4 ∷ []; available_updated = pos 20 }

abbrev sent : SentFolder
sent = ("film", sent_file film) ∷ []

abbrev heard : FolderState
heard = ("film", view (sent_file film)) ∷ []

-- The new block is announced, and the other device has it.
update_run :
    Sent.update sent (film_later ∷ [])
    ≡ some (
      ("film", sent_file film_later) ∷ [],
      append_update "film" first (pos 4 ∷ []) (pos 131072) ∷ [],
    )
unfolding Sent.update Sent.update_puller lookup equal_to vec_compare store is_seen
update_run = refl

has_run :
    has_block
      (Remote.update heard (append_update "film" first (pos 4 ∷ []) (pos 131072) ∷ []))
      "film"
      first
      (pos 4)
    ≡ true
unfolding has_block Remote.update lookup update_file store equal_to vec_compare appended contains
has_run = refl

bytes_run : bytes_downloaded heard ≡ pos 262144
unfolding bytes_downloaded ◌+ℤ◌ file_bytes
bytes_run = refl

nothing-Agree : Agree [] []
unfolding lookup
nothing-Agree name = refl

update-Agree_example :
    (st : Step) × (Sent.update [] (film ∷ []) ≡ some st) × Agree st.0 (Remote.update [] st.1)
unfolding lookup
update-Agree_example =
    update-Agree [] [] (film ∷ []) nothing-Agree (tt, tt) ((λ f e v c. absurd (cc e)), tt)

sent-Agree : Agree sent heard
sent-Agree name = elim (Bool-cases (str_eq "film" name)) [
  | inl e ↦
      lookup-hit "film" name (view (sent_file film)) [] e
      ∙ sym (ap view_option (lookup-hit "film" name (sent_file film) [] e))
  | inr e ↦
      lookup-miss "film" name (view (sent_file film)) [] e
      ∙ nothing-Agree name
      ∙ sym (ap view_option (lookup-miss "film" name (sent_file film) [] e))
]

other_name : ◌≢◌ {A = String} "film" "song"
other_name e = cc ((eq_iff "film" "song").1 e)

abbrev heard_more : FolderState
heard_more = update_file heard (append_update "film" second (pos 7 ∷ []) (pos 131072))

nothing-AgreeAll : AgreeAll [] []
unfolding lookup
nothing-AgreeAll folder name = refl
