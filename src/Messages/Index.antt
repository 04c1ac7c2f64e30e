-- ===== src/Messages/Index.antt =====
-- lib/protocol/bep_index_updates.go: the files that a device announces.
use Prim.Native.String.{String}
use vidsync_app.Base.{◌≡◌, refl, ap₂, false, List, [], ◌∷◌, Option, none, some, map, ℤ, All}
use vidsync_app.FileInfo.{FileInfo}
use vidsync_app.FileInfo.Wire.{WireFileInfo, to_wire, from_wire}
use vidsync_app.FileInfo.Wire.RoundTrip.{Fits, received, from_wire-to_wire, to_wire-whole}

pub record Index : Type 0 where
  pub folder : String
  pub files : List FileInfo
  pub last_sequence : ℤ

pub record WireIndex : Type 0 where
  pub folder : String
  pub files : List WireFileInfo
  pub last_sequence : ℤ

-- The loop over the files; `none` is the panic of `ToWire`.
unfoldable pub files_to_wire : List FileInfo → Option (List WireFileInfo)
files_to_wire [] = some []
files_to_wire (f ∷ fs) = elim (to_wire false f) [
  | none ↦ none
  | some w ↦ elim (files_to_wire fs) [ none ↦ none | some ws ↦ some (w ∷ ws) ]
]

unfoldable pub index_to_wire : Index → Option WireIndex
index_to_wire m = elim (files_to_wire m.files) [
  | none ↦ none
  | some ws ↦ some (record { folder = m.folder; files = ws; last_sequence = m.last_sequence })
]

-- A nil message stays nil.
unfoldable pub index_from_wire : Option WireIndex → Option Index
index_from_wire none = none
index_from_wire (some w) =
    some
      (record { folder = w.folder; files = map from_wire w.files; last_sequence = w.last_sequence })

pub record IndexUpdate : Type 0 where
  pub folder : String
  pub files : List FileInfo
  pub last_sequence : ℤ
  pub prev_sequence : ℤ

pub record WireIndexUpdate : Type 0 where
  pub folder : String
  pub files : List WireFileInfo
  pub last_sequence : ℤ
  pub prev_sequence : ℤ

unfoldable pub index_update_to_wire : IndexUpdate → Option WireIndexUpdate
index_update_to_wire m = elim (files_to_wire m.files) [
  | none ↦ none
  | some ws ↦ some (record {
    folder = m.folder;
    files = ws;
    last_sequence = m.last_sequence;
    prev_sequence = m.prev_sequence;
  })
]

unfoldable pub index_update_from_wire : Option WireIndexUpdate → Option IndexUpdate
index_update_from_wire none = none
index_update_from_wire (some w) = some (record {
  folder = w.folder;
  files = map from_wire w.files;
  last_sequence = w.last_sequence;
  prev_sequence = w.prev_sequence;
})

-- A file that can be sent and whose numbers fit: it is not one that was read without its blocks.
pub record Sendable (f : FileInfo) : Type 0 where
  pub whole : f.truncated ≡ false
  pub fits : Fits f

-- All files of a message that can be sent are sent, and each arrives as `received` says.
files_arrive :
    (fs : List FileInfo)
    → All Sendable fs
    → (ws : List WireFileInfo) × (files_to_wire fs ≡ some ws) × (map from_wire ws ≡ map received fs)
unfolding files_to_wire
files_arrive [] h = ([], refl, refl)
files_arrive (f ∷ fs) h =
    let (w, sent) = to_wire-whole f h.0.whole in
    let (ws, all_sent, arrived) = files_arrive fs h.1 in
    (
      w ∷ ws,
      rw (sent, all_sent, files_to_wire) refl,
      ap₂ (◌∷◌) (from_wire-to_wire f w h.0.fits sent).0 arrived,
    )

-- An index whose files can be sent is sent, and arrives with the same folder and sequence number,
-- and with every file in its place as the other device may know it: without the local flags, but
-- invalid where it was invalid.
pub index_from-to_wire :
    (m : Index)
    → All Sendable m.files
    → (w : WireIndex) × (index_to_wire m ≡ some w)
      × (index_from_wire (some w) ≡ some (record m { files = map received m.files }))
unfolding index_to_wire index_from_wire
index_from-to_wire m h =
    let (ws, sent, arrived) = files_arrive m.files h in
    (
      record { folder = m.folder; files = ws; last_sequence = m.last_sequence },
      rw (sent, index_to_wire) refl,
      λ i. some (record m { files = arrived i }),
    )

-- The same of an update of the index, with both of its sequence numbers.
pub index_update_from-to_wire :
    (m : IndexUpdate)
    → All Sendable m.files
    → (w : WireIndexUpdate) × (index_update_to_wire m ≡ some w)
      × (index_update_from_wire (some w) ≡ some (record m { files = map received m.files }))
unfolding index_update_to_wire index_update_from_wire
index_update_from-to_wire m h =
    let (ws, sent, arrived) = files_arrive m.files h in
    (
      record {
        folder = m.folder;
        files = ws;
        last_sequence = m.last_sequence;
        prev_sequence = m.prev_sequence;
      },
      rw (sent, index_update_to_wire) refl,
      λ i. some (record m { files = arrived i }),
    )
