-- ===== src/IndexHandler/Complete.antt =====
-- What one call of `sendIndexTo` of lib/model/indexhandler.go takes from the database, and what of it
-- is sent.
use vidsync_app.Base.{
  ℕ, ◌≡◌, refl, sym, subst, ap, ◌∙◌, Bool, true, false, List, [], ◌∷◌, ◌++◌, append-nil, Option,
  none, some, inl, inr, ◌⊎◌, Option-cases, arith,
}
use vidsync_app.FileInfo.{FileInfo}
use vidsync_app.FileInfo.Wire.{WireFileInfo}
use vidsync_app.IndexHandler.{Problem, Handler}
use vidsync_app.IndexHandler.Batch.{FileInfoBatch, flush, after_flush_fn, full}
use vidsync_app.IndexHandler.Send.{
  fetched, Message, Sending, message_for, send_batch, Scan, must_stop, Looped, looped, failed,
  panicked, start_scan, flushing, Outside, returned, send_loop, send_flush, send_index_to,
}
use vidsync_app.IndexHandler.Loop.{flush-empty, flush-files}
use vidsync_app.IndexHandler.Every.{message-files}
use vidsync_app.IndexHandler.Used.{
  announced, last_seen, ends_with_delete, all_files, all_files-snoc, Used, Ends, at_end, on_error,
  on_panic, cons-nil, cons-head, false-true, outcome, scan_rows-Ends,
}

-- The first row that is left is no delete, or the last file that is announced is one.
pub Boundary : Bool → List FileInfo → Type 0
Boundary last_deleted [] = Unit {0}
Boundary last_deleted (r ∷ rest) = (r.deleted ≡ false) ⊎ (last_deleted ≡ true)

-- What a call has done with the rows of the database.
pub record Completed (s : Handler) (sent : List Message) (rows : List FileInfo) (t : Handler)
    (ms : List Message) : Type 0 where
  pub used : List FileInfo
  pub rest : List FileInfo
  pub split : rows ≡ used ++ rest
  pub seen : t.local_prev_sequence ≡ last_seen s.local_prev_sequence used
  pub files : all_files ms ≡ all_files sent ++ announced s.folder_is_receive_encrypted used
  pub progress : (rest ≡ []) ⊎ ((f : FileInfo) × (fs : List FileInfo) × (used ≡ f ∷ fs))
  pub pairs : Boundary (ends_with_delete s.folder_is_receive_encrypted false used) rest

module _ (ctx_err : Option Problem) (conn : List Message → Message → Option Problem) where
  Sent : Sending → List FileInfo → Sending → Type 0
  Sent x infos y =
      (all_files y.sent ≡ all_files x.sent ++ infos)
      × (y.handler.local_prev_sequence ≡ x.handler.local_prev_sequence)

  send_batch-Sent :
      (x : Sending) (f : FileInfo) (fs : List FileInfo)
      → (send_batch ctx_err conn x (f ∷ fs)).1 ≡ none
      → Sent x (f ∷ fs) (send_batch ctx_err conn x (f ∷ fs)).0
  unfolding send_batch Sent
  send_batch-Sent x f fs h = elim (Option-cases ctx_err) [
    | inr (e, c) ↦ absurd (ground arith)
    | inl c ↦ elim (Option-cases (conn x.sent (message_for x f fs))) [
      | inr (e, d) ↦ absurd (ground arith)
      | inl d ↦
          rw (c, send_batch)
            (rw (d) (
              all_files-snoc x.sent (message_for x f fs)
                  ∙ ap (λ l. all_files x.sent ++ l) (message-files x f fs),
              refl,
            ))
    ]
  ]

  after_flush-Sent :
      (x : Sending) (infos : List FileInfo) (b : FileInfoBatch) (r : Sending × Option Problem)
      → (r.1 ≡ none → Sent x infos r.0)
      → (after_flush_fn (send_batch ctx_err conn) b r).result ≡ none
      → Sent x infos (after_flush_fn (send_batch ctx_err conn) b r).state
  unfolding after_flush_fn
  after_flush-Sent x infos b (y, none) h e = h refl
  after_flush-Sent x infos b (y, some z) h e = absurd (ground arith)

  flush-Sent :
      (x : Sending) (b : FileInfoBatch) (infos : List FileInfo)
      → b.infos ≡ infos
      → b.error ≡ none
      → (flush (send_batch ctx_err conn) b x).result ≡ none
      → Sent x infos (flush (send_batch ctx_err conn) b x).state
  unfolding Sent
  flush-Sent x b [] e c h =
      subst (λ q. Sent x [] q.state) (sym (flush-empty (send_batch ctx_err conn) b x c e))
        (sym (append-nil (all_files x.sent)), refl)
  flush-Sent x b (f ∷ fs) e c h =
      let q = flush-files (send_batch ctx_err conn) b x c f fs e in
      subst (λ k. Sent x (f ∷ fs) k.state) (sym q)
        (after_flush-Sent x (f ∷ fs) b (send_batch ctx_err conn x (f ∷ fs)) (send_batch-Sent x f fs)
          (subst (λ k. k.result ≡ none) q h))

held_back :
    (d : Scan) (r : FileInfo)
    → must_stop d r ≡ true
    → (r.deleted ≡ false) ⊎ (d.previous_was_delete ≡ true)
unfolding must_stop
held_back d r h = ground arith

start_open : (s : Handler) (r : FileInfo) → must_stop (start_scan s) r ≡ false
unfolding must_stop full
start_open s r = refl

abbrev Reason : Scan → List FileInfo → Type 0
Reason d rest =
    (rest ≡ []) ⊎ ((r : FileInfo) × (rs : List FileInfo) × (rest ≡ r ∷ rs) × (must_stop d r ≡ true))

started :
    (used rest : List FileInfo) (d : Scan) (s : Handler)
    → (used ≡ [] → d ≡ start_scan s)
    → Reason d rest
    → (rest ≡ []) ⊎ ((f : FileInfo) × (fs : List FileInfo) × (used ≡ f ∷ fs))
started (f ∷ fs) rest d s first why = inr (f, fs, refl)
started [] rest d s first (inl z) = inl z
started [] rest d s first (inr (r, rs, p, m)) =
    absurd (false-true (sym (start_open s r) ∙ subst (λ k. must_stop k r ≡ true) (first refl) m))

boundary : (d : Scan) (rest : List FileInfo) → Reason d rest → Boundary d.previous_was_delete rest
unfolding Boundary
boundary d [] why = tt
boundary d (r ∷ rest) (inl z) = absurd (cons-nil z)
boundary d (r ∷ rest) (inr (h, hs, p, m)) =
    held_back d r (subst (λ k. must_stop d k ≡ true) (cons-head (sym p)) m)

module _ (proto_size : WireFileInfo → ℕ) (o : Outside) (s t : Handler)
    (sent ms : List Message) where
  abbrev Finishes : Looped → Type 0
  Finishes l = send_flush proto_size o s sent l ≡ ((t, ms), returned none)

  Used-Completed :
      (rows : List FileInfo) (d : Scan)
      → Used s.folder_is_receive_encrypted (start_scan s) rows d
      → Finishes (looped d)
      → Completed s sent rows t ms
  unfolding send_flush Sent
  Used-Completed rows d u e =
      let done =
        flush-Sent o.ctx_err o.conn (flushing s sent d) d.batch d.batch.infos refl u.clean
          (ap (λ k. outcome k.1) e) in
      record {
        used = u.used;
        rest = u.rest;
        split = u.split;
        seen = sym (ap (λ k. k.0.0.local_prev_sequence) e) ∙ done.1 ∙ u.seen;
        files = sym (ap (λ k. all_files k.0.1) e) ∙ done.0 ∙ ap (λ l. all_files sent ++ l) u.infos;
        progress = started u.used u.rest d s u.first u.why;
        pairs = subst (λ b. Boundary b u.rest) u.deletes (boundary d u.rest u.why);
      }

  Ends-Completed :
      (rows : List FileInfo) (l : Looped)
      → Ends s.folder_is_receive_encrypted (start_scan s) rows l
      → Finishes l
      → Completed s sent rows t ms
  unfolding send_flush
  Ends-Completed rows (looped d) (at_end u) e = Used-Completed rows d u e
  Ends-Completed rows (failed d x) on_error e = absurd (ground arith)
  Ends-Completed rows panicked on_panic e = absurd (ground arith)

  -- A call of `sendIndexTo` asks the database for at most 1001 rows. When it ends without an error, it
  -- has taken the rows that the database returned up to some row: what it has sent beyond what was sent before is exactly these rows, in order, without
  -- those that must stay on the device and as they are prepared; it stands at the sequence number of
  -- the last of them, from where the next call goes on; it has taken one at least when there was one;
  -- and the first of the returned rows that it has left, if any, is no delete, or the last file that
  -- it has sent is one. Of the rows behind the limit nothing is said.
  pub send_index_to-Completed :
      send_index_to proto_size o s sent ≡ ((t, ms), returned none)
      → Completed s sent (fetched o s) t ms
  unfolding send_index_to send_loop
  send_index_to-Completed e =
      Ends-Completed (fetched o s) (send_loop proto_size o s)
        (scan_rows-Ends proto_size s.folder_is_receive_encrypted o.row_err (start_scan s)
          (fetched o s) refl)
        e
