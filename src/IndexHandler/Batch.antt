-- ===== src/IndexHandler/Batch.antt =====
-- lib/model/fileinfobatch.go: file infos that are collected and then handed to a function together.
use vidsync_app.Base.{
  ℕ, ◌+◌, Bool, true, ◌||◌, List, [], ◌∷◌, ◌++◌, Option, none, some, leb, if◌then◌else◌, length,
}
use vidsync_app.FileInfo.{FileInfo}
use vidsync_app.FileInfo.Wire.{WireFileInfo, to_wire}
use vidsync_app.IndexHandler.{Problem}

abbrev pub max_batch_size_bytes : ℕ
max_batch_size_bytes = 256000

abbrev pub max_batch_size_files : ℕ
max_batch_size_files = 1000

pub record FileInfoBatch : Type 0 where
  pub infos : List FileInfo
  pub size : ℕ
  pub error : Option Problem

abbrev pub new_batch : FileInfoBatch
new_batch = record { infos = []; size = 0; error = none }

-- `proto.Size` is a parameter. `none` is a panic: of the call on a failed batch, or of `ToWire`.
unfoldable pub append : (WireFileInfo → ℕ) → FileInfoBatch → FileInfo → Option FileInfoBatch
append proto_size b f = elim b.error [
  | some e ↦ none
  | none ↦ elim (to_wire true f) [
    | none ↦ none
    | some w ↦
        some (record { infos = b.infos ++ (f ∷ []); size = b.size + proto_size w; error = none })
  ]
]

unfoldable pub full : FileInfoBatch → Bool
full b = leb max_batch_size_files (length b.infos) || leb max_batch_size_bytes b.size

abbrev pub reset : FileInfoBatch → FileInfoBatch
reset b = new_batch

-- What a flush function does to the state it closes over, and the error that it returns.
abbrev pub FlushFunc {ℓ} : Type ℓ → Type ℓ
FlushFunc S = S → List FileInfo → S × Option Problem

-- What a flush comes to: the batch and that state afterwards, and the error returned.
pub record Flushed {ℓ} (S : Type ℓ) : Type ℓ where
  pub batch : FileInfoBatch
  pub state : S
  pub result : Option Problem

module _ {ℓ} {S : Type ℓ} (flush_fn : FlushFunc S) where
  unfoldable pub after_flush_fn : FileInfoBatch → S × Option Problem → Flushed S
  after_flush_fn b (s, some e) = record {
    batch = record b { error = some e };
    state = s;
    result = some e;
  }
  after_flush_fn b (s, none) = record { batch = reset b; state = s; result = none }

  unfoldable pub flush : FileInfoBatch → S → Flushed S
  unfolding after_flush_fn
  flush b s = elim b.error [
    | some e ↦ record { batch = b; state = s; result = some e }
    | none ↦ elim b.infos [
      | [] ↦ record { batch = b; state = s; result = none }
      | f ∷ fs ↦ after_flush_fn b (flush_fn s (f ∷ fs))
    ]
  ]

  unfoldable pub flush_if_full : FileInfoBatch → S → Flushed S
  unfolding full flush
  flush_if_full b s = elim b.error [
    | some e ↦ record { batch = b; state = s; result = some e }
    | none ↦ if full b then flush b s else record { batch = b; state = s; result = none }
  ]
