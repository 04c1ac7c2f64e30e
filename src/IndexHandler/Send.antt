-- ===== src/IndexHandler/Send.antt =====
-- `sendIndexTo` of lib/model/indexhandler.go.
use vidsync_app.Base.{
  ℕ, suc, Bool, true, false, not, ◌&&◌, ◌||◌, List, [], ◌∷◌, ◌++◌, Option, none, some,
  if◌then◌else◌, ℤ, pos, ◌+ℤ◌, ◌-ℤ◌, ltb_ℤ, leb_ℤ, eqb_ℤ,
}
use vidsync_app.FileInfo.{FileInfo, is_receive_only_changed}
use vidsync_app.FileInfo.Wire.{WireFileInfo}
use vidsync_app.Messages.Index.{Index, IndexUpdate}
use vidsync_app.IndexHandler.{Problem, database_misbehaved, Handler}
use vidsync_app.IndexHandler.Batch.{
  FileInfoBatch, new_batch, append, full, flush, max_batch_size_files,
}

pub data Message : Type 0 where
  index : Index → Message
  index_update : IndexUpdate → Message

-- The state of the flush function: the handler, `initial`, and the messages that were sent.
pub record Sending : Type 0 where
  pub handler : Handler
  pub initial : Bool
  pub sent : List Message

unfoldable pub last_sequence_of : FileInfo → List FileInfo → ℤ
last_sequence_of f [] = f.sequence
last_sequence_of f (g ∷ fs) = last_sequence_of g fs

unfoldable pub message_for : Sending → FileInfo → List FileInfo → Message
unfolding last_sequence_of
message_for s f fs =
    let last = last_sequence_of f fs in
    if s.initial
    then index (record { folder = s.handler.folder; files = f ∷ fs; last_sequence = last })
    else index_update (record {
      folder = s.handler.folder;
      files = f ∷ fs;
      last_sequence = last;
      prev_sequence = s.handler.sent_prev_sequence;
    })

-- The flush function. `ctx_err` is the context's error when it is done, and `conn` what the
-- connection answers to a message after those sent before. A call without files panics in the code;
-- `flush` never makes one.
module _ (ctx_err : Option Problem) (conn : List Message → Message → Option Problem) where
  unfoldable pub send_batch : Sending → List FileInfo → Sending × Option Problem
  unfolding message_for last_sequence_of
  send_batch s [] = (s, none)
  send_batch s (f ∷ fs) = elim ctx_err [
    | some e ↦ (s, some e)
    | none ↦ elim (conn s.sent (message_for s f fs)) [
      | some e ↦ (record s { initial = false }, some e)
      | none ↦ (
        record {
          handler = record s.handler { sent_prev_sequence = last_sequence_of f fs };
          initial = false;
          sent = s.sent ++ (message_for s f fs ∷ []);
        },
        none,
      )
    ]
  ]

unfoldable pub prepare_file_info_for_index : FileInfo → FileInfo
prepare_file_info_for_index f = record f {
  version = if is_receive_only_changed f then [] else f.version;
  size = f.size -ℤ f.encryption_trailer_size;
}

-- The variables of the loop: the handler's `localPrevSequence`, the sequence number of `f`, which is
-- 0 before the first round, `previousWasDelete` and the batch.
pub record Scan : Type 0 where
  pub local_prev_sequence : ℤ
  pub f_sequence : ℤ
  pub previous_was_delete : Bool
  pub batch : FileInfoBatch

-- How a round ends: the loop goes on, it breaks, it returns an error, or `Append` panics.
pub data Round : Type 0 where
  go_on : Scan → Round
  stop : Round
  fail : Problem → Round
  panic : Round

-- `batch.Full() && (!fi.IsDeleted() || previousWasDelete)`.
unfoldable pub must_stop : Scan → FileInfo → Bool
must_stop c fi = full c.batch && (not fi.deleted || c.previous_was_delete)

-- The two tests of the sequence number.
unfoldable pub is_out_of_order : Scan → FileInfo → Bool
is_out_of_order c fi =
    ltb_ℤ fi.sequence (c.local_prev_sequence +ℤ pos 1)
    || (ltb_ℤ (pos 0) c.f_sequence && leb_ℤ fi.sequence c.f_sequence)

-- The files that must not leave the device.
unfoldable pub is_withheld : Bool → FileInfo → Bool
is_withheld encrypted fi = encrypted && is_receive_only_changed fi

-- What a loop comes to: its variables at the end and the error that it returned.
pub data Looped : Type 0 where
  looped : (scan : Scan) → Looped
  failed : (scan : Scan) → Problem → Looped
  panicked : Looped

-- How `sendIndexTo` ends.
pub data Result : Type 0 where
  returned : Option Problem → Result
  panicked : Result

module _ (proto_size : WireFileInfo → ℕ) where
  -- Behind the tests.
  unfoldable pub add_file : Bool → Scan → FileInfo → Round
  unfolding is_withheld prepare_file_info_for_index append
  add_file encrypted c fi = elim (is_withheld encrypted fi) [
    | true ↦ go_on (record c { local_prev_sequence = fi.sequence; f_sequence = fi.sequence })
    | false ↦ elim (append proto_size c.batch (prepare_file_info_for_index fi)) [
      | none ↦ panic
      | some b ↦ go_on (record {
        local_prev_sequence = fi.sequence;
        f_sequence = fi.sequence;
        previous_was_delete = fi.deleted;
        batch = b;
      })
    ]
  ]

  unfoldable pub round : Bool → Scan → FileInfo → Round
  unfolding must_stop is_out_of_order add_file
  round encrypted c fi = elim (must_stop c fi) [
    | true ↦ stop
    | false ↦ elim (is_out_of_order c fi) [
      | true ↦ fail database_misbehaved
      | false ↦ add_file encrypted c fi
    ]
  ]

  -- The loop over the rows that the database returns, and the error with which they end.
  unfoldable pub scan_rows : Bool → Option Problem → Scan → List FileInfo → Looped
  unfolding round
  scan_rows encrypted row_err c [] = elim row_err [ some e ↦ failed c e | none ↦ looped c ]
  scan_rows encrypted row_err c (fi ∷ rows) = elim (round encrypted c fi) [
    | go_on d ↦ scan_rows encrypted row_err d rows
    | stop ↦ looped c
    | fail e ↦ failed c e
    | panic ↦ panicked
  ]

abbrev pub start_scan : Handler → Scan
start_scan s = record {
  local_prev_sequence = s.local_prev_sequence;
  f_sequence = pos 0;
  previous_was_delete = false;
  batch = new_batch;
}

-- The handler and the messages sent so far, after the loop.
abbrev pub flushing : Handler → List Message → Scan → Sending
flushing s sent c = record {
  handler = record s { local_prev_sequence = c.local_prev_sequence };
  initial = eqb_ℤ s.local_prev_sequence (pos 0);
  sent = sent;
}

-- The outside of one call: the rows that `AllLocalFilesBySequence` returns for the sequence number to
-- start at and the limit, the error with which they end, the context and the connection.
pub record Outside : Type 0 where
  pub rows : ℤ → ℕ → List FileInfo
  pub row_err : Option Problem
  pub ctx_err : Option Problem
  pub conn : List Message → Message → Option Problem

-- The rows that the loop goes over.
abbrev pub fetched : Outside → Handler → List FileInfo
fetched o s = o.rows (s.local_prev_sequence +ℤ pos 1) (suc max_batch_size_files)

module _ (proto_size : WireFileInfo → ℕ) (o : Outside) where
  unfoldable pub send_loop : Handler → Looped
  unfolding scan_rows
  send_loop s =
      scan_rows proto_size s.folder_is_receive_encrypted o.row_err (start_scan s) (fetched o s)

  unfoldable pub send_flush : Handler → List Message → Looped → (Handler × List Message) × Result
  unfolding flush send_batch
  send_flush s sent (looped c) =
      let r = flush (send_batch o.ctx_err o.conn) c.batch (flushing s sent c) in
      ((r.state.handler, r.state.sent), returned r.result)
  send_flush s sent (failed c e) =
      ((record s { local_prev_sequence = c.local_prev_sequence }, sent), returned (some e))
  send_flush s sent panicked = ((s, sent), panicked)

  unfoldable pub send_index_to : Handler → List Message → (Handler × List Message) × Result
  unfolding send_loop send_flush
  send_index_to s sent = send_flush s sent (send_loop s)
