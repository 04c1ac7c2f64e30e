-- ===== src/IndexHandler/Loop.antt =====
-- The loop of `sendIndexTo` in lib/model/indexhandler.go: what a round does, and induction on it.
use vidsync_app.Base.{
  ℕ, ◌≡◌, refl, Bool, true, false, List, [], ◌∷◌, ◌++◌, Option, none, some, inl, inr, Bool-cases,
  Option-cases, arith,
}
use vidsync_app.FileInfo.{FileInfo}
use vidsync_app.FileInfo.Wire.{WireFileInfo}
use vidsync_app.IndexHandler.{Problem}
use vidsync_app.IndexHandler.Batch.{FileInfoBatch, append, FlushFunc, after_flush_fn, flush}
use vidsync_app.IndexHandler.Send.{
  Scan, Round, go_on, stop, fail, panic, must_stop, is_out_of_order, is_withheld,
  prepare_file_info_for_index, add_file, round, scan_rows, Looped, looped, failed, panicked,
}

-- A round that goes on, as a relation of the variables before and after it.
pub data Accepts (proto_size : WireFileInfo → ℕ) (encrypted : Bool) (c : Scan) (fi : FileInfo)
    (d : Scan) : Type 0 where
  withhold :
      must_stop c fi ≡ false
      → is_out_of_order c fi ≡ false
      → is_withheld encrypted fi ≡ true
      → d ≡ record c { local_prev_sequence = fi.sequence; f_sequence = fi.sequence }
      → Accepts proto_size encrypted c fi d
  add :
      (b : FileInfoBatch)
      → must_stop c fi ≡ false
      → is_out_of_order c fi ≡ false
      → is_withheld encrypted fi ≡ false
      → append proto_size c.batch (prepare_file_info_for_index fi) ≡ some b
      → d ≡ record {
        local_prev_sequence = fi.sequence;
        f_sequence = fi.sequence;
        previous_was_delete = fi.deleted;
        batch = b;
      }
      → Accepts proto_size encrypted c fi d

-- What holds of the next round, where there is one.
pub data Next (P : Scan → Type 0) : Round → Type 0 where
  goes_on : {d : Scan} → P d → Next P (go_on d)
  stops : Next P stop
  fails : {e : Problem} → Next P (fail e)
  panics : Next P panic

-- What holds of the variables at the end of the loop.
pub data AtEnd (P : Scan → Type 0) : Looped → Type 0 where
  ends : {c : Scan} → P c → AtEnd P (looped c)
  fails : {c : Scan} {e : Problem} → P c → AtEnd P (failed c e)
  panics : AtEnd P panicked

module _ (proto_size : WireFileInfo → ℕ) (encrypted : Bool) where
  pub add_file-Accepts :
      (c : Scan) (fi : FileInfo)
      → must_stop c fi ≡ false
      → is_out_of_order c fi ≡ false
      → Next (Accepts proto_size encrypted c fi) (add_file proto_size encrypted c fi)
  unfolding add_file
  add_file-Accepts c fi s o = elim (Bool-cases (is_withheld encrypted fi)) [
    | inl w ↦ rw (w, add_file) (goes_on (withhold s o w refl))
    | inr w ↦ elim (Option-cases (append proto_size c.batch (prepare_file_info_for_index fi))) [
      | inl a ↦ rw (w, add_file) (rw (a) panics)
      | inr (b, a) ↦ rw (w, add_file) (rw (a) (goes_on (add b s o w a refl)))
    ]
  ]

  pub round-Accepts :
      (c : Scan) (fi : FileInfo)
      → Next (Accepts proto_size encrypted c fi) (round proto_size encrypted c fi)
  unfolding round
  round-Accepts c fi = elim (Bool-cases (must_stop c fi)) [
    | inl s ↦ rw (s, round) stops
    | inr s ↦ elim (Bool-cases (is_out_of_order c fi)) [
      | inl o ↦ rw (s, round) (rw (o) fails)
      | inr o ↦ rw (s, round) (rw (o) (add_file-Accepts c fi s o))
    ]
  ]

  -- Induction on the loop.
  module _ (P : Scan → Type 0)
      (keeps : (c d : Scan) (fi : FileInfo) → P c → Accepts proto_size encrypted c fi d → P d) where
    after_round :
        (row_err : Option Problem) (c : Scan) (fi : FileInfo) (rows : List FileInfo) (r : Round)
        → round proto_size encrypted c fi ≡ r
        → P c
        → Next (Accepts proto_size encrypted c fi) r
        → ((d : Scan) → P d → AtEnd P (scan_rows proto_size encrypted row_err d rows))
        → AtEnd P (scan_rows proto_size encrypted row_err c (fi ∷ rows))
    unfolding scan_rows
    after_round row_err c fi rows (go_on d) e p (goes_on a) rest =
        rw (e, scan_rows) (rest d (keeps c d fi p a))
    after_round row_err c fi rows stop e p stops rest = rw (e, scan_rows) (ends p)
    after_round row_err c fi rows (fail x) e p fails rest = rw (e, scan_rows) (fails p)
    after_round row_err c fi rows panic e p panics rest = rw (e, scan_rows) panics

    pub scan_rows-AtEnd :
        (row_err : Option Problem) (c : Scan) (rows : List FileInfo)
        → P c
        → AtEnd P (scan_rows proto_size encrypted row_err c rows)
    unfolding scan_rows
    scan_rows-AtEnd none c [] p = ends p
    scan_rows-AtEnd (some e) c [] p = fails p
    scan_rows-AtEnd row_err c (fi ∷ rows) p =
        after_round row_err c fi rows (round proto_size encrypted c fi) refl p (round-Accepts c fi)
          (λ d q. scan_rows-AtEnd row_err d rows q)

module _ {ℓ} {S : Type ℓ} (flush_fn : FlushFunc S) (b : FileInfoBatch) (s : S)
    (clean : b.error ≡ none) where
  pub flush-empty :
      b.infos ≡ [] → flush flush_fn b s ≡ record { batch = b; state = s; result = none }
  unfolding flush
  flush-empty e = ground arith

  pub flush-files :
      (f : FileInfo) (fs : List FileInfo)
      → b.infos ≡ f ∷ fs
      → flush flush_fn b s ≡ after_flush_fn flush_fn b (flush_fn s (f ∷ fs))
  unfolding flush
  flush-files f fs e = ground arith

-- A file that is appended stands at the end, and the batch did not fail.
pub append-some :
    (proto_size : WireFileInfo → ℕ) (b d : FileInfoBatch) (f : FileInfo)
    → append proto_size b f ≡ some d
    → (d.infos ≡ b.infos ++ (f ∷ [])) × (d.error ≡ none)
unfolding append
append-some proto_size b d f e = ground arith
