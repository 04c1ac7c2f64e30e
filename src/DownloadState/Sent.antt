-- ===== src/DownloadState/Sent.antt =====
-- `sentFolderDownloadState` of lib/model/sentdownloadstate.go: what this device has said of the
-- files of one folder, and the updates that bring the other device up to date. A puller is what
-- the code reads of a `sharedPullerState`; times are numbers.
use Prim.Native.String.{String}
use text.Mathlib.Text.{◌==◌ as str_eq}
use vidsync_app.Base.{
  Bool, true, false, not, ◌||◌, ◌&&◌, List, [], ◌∷◌, ◌++◌, Option, none, some, length, drop, ltb, ℤ,
  pos, eqb_ℤ,
}
use vidsync_app.Vector.{Vector, equal_to}
use vidsync_app.Messages.Progress.{FileDownloadProgressUpdate, append, forget}
use vidsync_app.DownloadState.Assoc.{lookup, store}

pub record Puller : Type 0 where
  pub name : String
  pub available : List ℤ
  pub version : Vector
  pub available_updated : ℤ
  pub created : ℤ
  pub block_size : ℤ

pub record SentFile : Type 0 where
  pub block_indexes : List ℤ
  pub version : Vector
  pub updated : ℤ
  pub created : ℤ
  pub block_size : ℤ

abbrev pub SentFolder : Type 0
SentFolder = List (String × SentFile)

abbrev pub forget_update : String → Vector → FileDownloadProgressUpdate
forget_update name version = record {
  update_type = forget;
  name = name;
  version = version;
  block_indexes = [];
  block_size = pos 0;
}

abbrev pub append_update : String → Vector → List ℤ → ℤ → FileDownloadProgressUpdate
append_update name version indexes block_size = record {
  update_type = append;
  name = name;
  version = version;
  block_indexes = indexes;
  block_size = block_size;
}

abbrev pub sent_file : Puller → SentFile
sent_file p = record {
  block_indexes = p.available;
  version = p.version;
  updated = p.available_updated;
  created = p.created;
  block_size = p.block_size;
}

abbrev pub Step : Type 0
Step = SentFolder × List FileDownloadProgressUpdate

-- `if len(newBlocks) > 0`.
unfoldable pub new_updates : String → Vector → List ℤ → ℤ → List FileDownloadProgressUpdate
new_updates name version new size = elim (ltb 0 (length new)) [
  | true ↦ append_update name version new size ∷ []
  | false ↦ []
]

-- The rest of a round where the puller goes on with the same version: it has new blocks.
unfoldable pub send_new : SentFolder → Puller → SentFile → Step
unfolding new_updates
send_new s p file =
    let new = drop (length file.block_indexes) p.available in
    (
      store p.name
          (record file { block_indexes = file.block_indexes ++ new; updated = p.available_updated })
          s,
      new_updates p.name file.version new p.block_size,
    )

-- A round of the first loop of `update`. `none` is the panic of a slice that starts behind its end.
unfoldable pub update_puller : SentFolder → Puller → Option Step
unfolding send_new
update_puller s p = elim (lookup p.name s) [
  | none ↦ elim (ltb 0 (length p.available)) [
    | false ↦ some (s, [])
    | true ↦
        some (
          store p.name (sent_file p) s,
          append_update p.name p.version p.available p.block_size ∷ [],
        )
  ]
  | some file ↦ elim (eqb_ℤ p.available_updated file.updated && equal_to p.version file.version) [
    | true ↦ some (s, [])
    | false ↦ elim (not (equal_to p.version file.version) || not (eqb_ℤ p.created file.created)) [
      | true ↦ some (
        store p.name (sent_file p) s,
        forget_update p.name file.version
            ∷ append_update p.name p.version p.available p.block_size
            ∷ [],
      )
      | false ↦ elim (ltb (length p.available) (length file.block_indexes)) [
        | true ↦ none
        | false ↦ some (send_new s p file)
      ]
    ]
  ]
]

unfoldable pub update_pullers : SentFolder → List Puller → Option Step
update_pullers s [] = some (s, [])
update_pullers s (p ∷ ps) = elim (update_puller s p) [
  | none ↦ none
  | some (s1, us) ↦ elim (update_pullers s1 ps) [
    | none ↦ none
    | some (s2, vs) ↦ some (s2, us ++ vs)
  ]
]

-- A key of the map `seen`.
unfoldable pub is_seen : List Puller → String → Bool
is_seen [] name = false
is_seen (p ∷ ps) name = str_eq p.name name || is_seen ps name

-- The last loop of `update`: what no puller works on any more is forgotten. Go does not say in
-- which order the loop goes through the map; this is the order of the list.
unfoldable pub kept : (String → Bool) → SentFolder → SentFolder
kept seen [] = []
kept seen ((name, file) ∷ s) = elim (seen name) [
  | true ↦ (name, file) ∷ kept seen s
  | false ↦ kept seen s
]

unfoldable pub forgotten : (String → Bool) → SentFolder → List FileDownloadProgressUpdate
forgotten seen [] = []
forgotten seen ((name, file) ∷ s) = elim (seen name) [
  | true ↦ forgotten seen s
  | false ↦ forget_update name file.version ∷ forgotten seen s
]

unfoldable pub update : SentFolder → List Puller → Option Step
unfolding update_pullers kept forgotten
update s ps = elim (update_pullers s ps) [
  | none ↦ none
  | some (s1, us) ↦ some (kept (is_seen ps) s1, us ++ forgotten (is_seen ps) s1)
]

-- `destroy` forgets all.
unfoldable pub destroy : SentFolder → Step
unfolding kept forgotten
destroy s = (kept (λ _. false) s, forgotten (λ _. false) s)
