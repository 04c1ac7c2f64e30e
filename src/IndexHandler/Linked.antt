-- ===== src/IndexHandler/Linked.antt =====
-- The messages of lib/model/indexhandler.go over all runs of `sendIndexTo`: how their sequence
-- numbers hang together.
use Prim.Native.String.{String}
use vidsync_app.Base.{
  ℕ, ◌≡◌, refl, sym, subst, Bool, true, false, List, [], ◌∷◌, ◌++◌, Option, none, some, inl, inr,
  Bool-cases, Option-cases, arith, ℤ, pos, ◌≤ℤ◌, ◌<ℤ◌, eqb_ℤ, +ℤ_parts, eq_of_parts,
}
use vidsync_app.FileInfo.{FileInfo}
use vidsync_app.FileInfo.Wire.{WireFileInfo}
use vidsync_app.IndexHandler.{
  Problem, Handler, Announced, new_index_handler, start_sequence, resume, pause,
}
use vidsync_app.IndexHandler.Batch.{FileInfoBatch, flush, after_flush_fn}
use vidsync_app.IndexHandler.Send.{
  fetched, Message, Sending, last_sequence_of, message_for, send_batch, prepare_file_info_for_index,
  Scan, is_out_of_order, Looped, looped, failed, panicked, start_scan, flushing, Outside, send_loop,
  send_flush, send_index_to,
}
use vidsync_app.IndexHandler.Loop.{
  Accepts, withhold, add, AtEnd, ends, fails, panics, scan_rows-AtEnd, flush-empty, flush-files,
  append-some,
}
use vidsync_app.IndexHandler.Chain.{
  last_of, Rising, Follows, Linked, Rising-snoc, Rising-last, Linked-snoc,
}

-- What the loop keeps, where `a` is the sequence number that was sent last.
record Collects (a : ℤ) (c : Scan) : Type 0 where
  top : ℤ
  rising : Rising a c.batch.infos top
  below : top ≤ℤ c.local_prev_sequence
  clean : c.batch.error ≡ none

in_order :
    (c : Scan) (fi : FileInfo) → is_out_of_order c fi ≡ false → c.local_prev_sequence <ℤ fi.sequence
unfolding is_out_of_order
in_order c fi h = ground (arith, +ℤ_parts c.local_prev_sequence (pos 1))

module _ (proto_size : WireFileInfo → ℕ) (encrypted : Bool) where
  Accepts-Collects :
      (a : ℤ) (c d : Scan) (fi : FileInfo)
      → Collects a c
      → Accepts proto_size encrypted c fi d
      → Collects a d
  unfolding prepare_file_info_for_index
  Accepts-Collects a c d fi h (withhold s o w e) = subst (Collects a) (sym e) (record {
    top = h.top;
    rising = h.rising;
    below = omega (arith, h.below, in_order c fi o);
    clean = h.clean;
  })
  Accepts-Collects a c d fi h (add b s o w q e) =
      let r = append-some proto_size c.batch b (prepare_file_info_for_index fi) q in
      subst (Collects a) (sym e) (record {
        top = fi.sequence;
        rising =
            subst (λ l. Rising a l fi.sequence) (sym r.0)
              (Rising-snoc a h.top c.batch.infos (prepare_file_info_for_index fi) h.rising
                (omega (arith, h.below, in_order c fi o)));
        below = omega arith;
        clean = r.1;
      })

-- What holds between two calls.
pub record Announces (start : ℤ) (s : Handler) (sent : List Message) : Type 0 where
  pub linked : Linked start sent s.sent_prev_sequence
  pub ahead : s.sent_prev_sequence ≤ℤ s.local_prev_sequence
  pub nonneg : pos 0 ≤ℤ s.sent_prev_sequence

abbrev Fine : ℤ → Sending → Type 0
Fine start x = Announces start x.handler x.sent

message-last :
    (x : Sending) (f : FileInfo) (fs : List FileInfo)
    → last_of (message_for x f fs) ≡ last_sequence_of f fs
unfolding message_for
message-last x f fs = elim (Bool-cases x.initial) [
  | inl i ↦ rw (i, message_for) refl
  | inr i ↦ rw (i, message_for) refl
]

message-Follows :
    (x : Sending) (f : FileInfo) (fs : List FileInfo)
    → Rising x.handler.sent_prev_sequence (f ∷ fs) (last_sequence_of f fs)
    → x.handler.sent_prev_sequence <ℤ last_sequence_of f fs
    → (x.initial ≡ true → x.handler.sent_prev_sequence ≡ pos 0)
    → Follows x.handler.sent_prev_sequence (message_for x f fs)
unfolding message_for
message-Follows x f fs r l z = elim (Bool-cases x.initial) [
  | inl i ↦ rw (i, message_for) (record { prev = sym (z i); rising = r; nonempty = l })
  | inr i ↦ rw (i, message_for) (record { prev = refl; rising = r; nonempty = l })
]

module _ (ctx_err : Option Problem) (conn : List Message → Message → Option Problem)
    (start : ℤ) where
  -- The flush function, for a batch that is not empty.
  send_batch-Fine :
      (x : Sending) (f : FileInfo) (fs : List FileInfo) (top : ℤ)
      → Fine start x
      → Rising x.handler.sent_prev_sequence (f ∷ fs) top
      → top ≤ℤ x.handler.local_prev_sequence
      → (x.initial ≡ true → x.handler.sent_prev_sequence ≡ pos 0)
      → Fine start (send_batch ctx_err conn x (f ∷ fs)).0
  unfolding send_batch
  send_batch-Fine x f fs top w r b z =
      let p = Rising-last x.handler.sent_prev_sequence top f fs r in
      elim (Option-cases ctx_err) [
        | inr (e, c) ↦ rw (c, send_batch) w
        | inl c ↦ elim (Option-cases (conn x.sent (message_for x f fs))) [
          | inr (e, d) ↦ rw (c, send_batch) (rw (d) w)
          | inl d ↦
              rw (c, send_batch)
                (rw (d) (record {
                  linked =
                      subst (Linked start (x.sent ++ (message_for x f fs ∷ [])))
                        (message-last x f fs)
                        (Linked-snoc start x.handler.sent_prev_sequence x.sent (message_for x f fs)
                          w.linked
                          (message-Follows x f fs
                            (subst (Rising x.handler.sent_prev_sequence (f ∷ fs)) p.0 r)
                            (subst (λ k. x.handler.sent_prev_sequence <ℤ k) p.0 p.1) z));
                  ahead = subst (λ k. k ≤ℤ x.handler.local_prev_sequence) p.0 b;
                  nonneg = subst (λ k. pos 0 ≤ℤ k) p.0 (omega (arith, p.1, w.nonneg));
                }))
        ]
      ]

  after_flush-state :
      (b : FileInfoBatch) (r : Sending × Option Problem)
      → (after_flush_fn (send_batch ctx_err conn) b r).state ≡ r.0
  unfolding after_flush_fn
  after_flush-state b (s, none) = refl
  after_flush-state b (s, some e) = refl

  flush-Fine :
      (x : Sending) (b : FileInfoBatch) (infos : List FileInfo) (top : ℤ)
      → b.infos ≡ infos
      → b.error ≡ none
      → Fine start x
      → Rising x.handler.sent_prev_sequence infos top
      → top ≤ℤ x.handler.local_prev_sequence
      → (x.initial ≡ true → x.handler.sent_prev_sequence ≡ pos 0)
      → Fine start (flush (send_batch ctx_err conn) b x).state
  flush-Fine x b [] top e c w r l z =
      subst (λ q. Fine start q.state) (sym (flush-empty (send_batch ctx_err conn) b x c e)) w
  flush-Fine x b (f ∷ fs) top e c w r l z =
      subst (λ q. Fine start q.state) (sym (flush-files (send_batch ctx_err conn) b x c f fs e))
        (subst (Fine start) (sym (after_flush-state b (send_batch ctx_err conn x (f ∷ fs))))
          (send_batch-Fine x f fs top w r l z))

zero_between : (a b : ℤ) → eqb_ℤ b (pos 0) ≡ true → a ≤ℤ b → pos 0 ≤ℤ a → a ≡ pos 0
zero_between a b z h n = eq_of_parts a (pos 0) (ground arith)

-- The loop saw the sequence numbers from where the handler stood, so that it is now at least there.
module _ (proto_size : WireFileInfo → ℕ) (o : Outside) (start : ℤ) where
  Ahead : Handler → Scan → Type 0
  Ahead s c = Collects s.sent_prev_sequence c × (s.local_prev_sequence ≤ℤ c.local_prev_sequence)

  Accepts-local :
      (encrypted : Bool) (c d : Scan) (fi : FileInfo)
      → Accepts proto_size encrypted c fi d
      → c.local_prev_sequence ≤ℤ d.local_prev_sequence
  Accepts-local encrypted c d fi (withhold s p w e) =
      subst (λ k. c.local_prev_sequence ≤ℤ k.local_prev_sequence) (sym e)
        (omega (arith, in_order c fi p))
  Accepts-local encrypted c d fi (add b s p w q e) =
      subst (λ k. c.local_prev_sequence ≤ℤ k.local_prev_sequence) (sym e)
        (omega (arith, in_order c fi p))

  send_flush-Announces :
      (s : Handler) (sent : List Message) (l : Looped)
      → Announces start s sent
      → AtEnd (Ahead s) l
      → Announces start
          (send_flush proto_size o s sent l).0.0
          (send_flush proto_size o s sent l).0.1
  unfolding send_flush Ahead
  send_flush-Announces s sent (looped c) w (ends h) =
      flush-Fine o.ctx_err o.conn start (flushing s sent c) c.batch c.batch.infos h.0.top refl
        h.0.clean
        (record { linked = w.linked; ahead = omega (arith, w.ahead, h.1); nonneg = w.nonneg })
        h.0.rising h.0.below
        (λ z. zero_between s.sent_prev_sequence s.local_prev_sequence z w.ahead w.nonneg)
  send_flush-Announces s sent (failed c e) w (fails h) = record {
    linked = w.linked;
    ahead = omega (arith, w.ahead, h.1);
    nonneg = w.nonneg;
  }
  send_flush-Announces s sent panicked w panics = w

  send_index_to-Announces :
      (s : Handler) (sent : List Message)
      → Announces start s sent
      → Announces start
          (send_index_to proto_size o s sent).0.0
          (send_index_to proto_size o s sent).0.1
  unfolding send_index_to send_loop Ahead Rising
  send_index_to-Announces s sent w = send_flush-Announces s sent (send_loop proto_size o s) w (
      scan_rows-AtEnd proto_size s.folder_is_receive_encrypted (Ahead s)
        (λ c d fi h a. (
          Accepts-Collects proto_size s.folder_is_receive_encrypted s.sent_prev_sequence c d fi h.0
              a,
          omega (arith, h.1, Accepts-local s.folder_is_receive_encrypted c d fi a),
        ))
        o.row_err (start_scan s) (fetched o s)
        (
          record { top = s.sent_prev_sequence; rising = refl; below = w.ahead; clean = refl },
          omega arith,
        ))

-- A handler over its time: the messages sent until it is in this state.
pub data Reach (proto_size : WireFileInfo → ℕ) (h : Handler) : Handler → List Message → Type 0 where
  begin : Reach proto_size h h []
  send :
      {s : Handler} {sent : List Message} (o : Outside)
      → Reach proto_size h s sent
      → Reach proto_size h
          (send_index_to proto_size o s sent).0.0
          (send_index_to proto_size o s sent).0.1
  resumes :
      {s : Handler} {sent : List Message}
      → Reach proto_size h s sent
      → Reach proto_size h (resume s) sent
  pauses :
      {s : Handler} {sent : List Message}
      → Reach proto_size h s sent
      → Reach proto_size h (pause s).0 sent

module _ (proto_size : WireFileInfo → ℕ) (folder : String) (encrypted : Bool)
    (my_index_id their_index_id : ℕ) (my_sequence : ℤ) (local remote : Announced) where
  abbrev fresh : Handler
  fresh = (new_index_handler folder encrypted my_index_id my_sequence their_index_id local remote).0

  start_nonneg : pos 0 ≤ℤ local.max_sequence → pos 0 ≤ℤ start_sequence my_index_id my_sequence local
  unfolding start_sequence
  start_nonneg h = ground arith

  Reach-Announces :
      (s : Handler) (sent : List Message)
      → pos 0 ≤ℤ local.max_sequence
      → Reach proto_size fresh s sent
      → Announces (start_sequence my_index_id my_sequence local) s sent
  unfolding new_index_handler Linked resume pause
  Reach-Announces s sent n begin = record {
    linked = refl;
    ahead = omega arith;
    nonneg = start_nonneg n;
  }
  Reach-Announces s sent n (send {s = r} {sent = ms} o h) =
      send_index_to-Announces proto_size o (start_sequence my_index_id my_sequence local) r ms
        (Reach-Announces r ms n h)
  Reach-Announces s sent n (resumes {s = r} h) =
      let w = Reach-Announces r sent n h in
      record { linked = w.linked; ahead = w.ahead; nonneg = w.nonneg }
  Reach-Announces s sent n (pauses {s = r} h) =
      let w = Reach-Announces r sent n h in
      record { linked = w.linked; ahead = w.ahead; nonneg = w.nonneg }

  -- From when a handler is made, with a sequence number of the other device that is not negative,
  -- and whatever the database, the connection and the context answer, the messages that were sent
  -- are linked: the first continues at the number where the handler started, each later one where
  -- the one before it ended, and within a message the numbers of the files rise to its last number.
  -- The number sent last is never above the number seen last.
  pub Reach-Linked :
      (s : Handler) (sent : List Message)
      → pos 0 ≤ℤ local.max_sequence
      → Reach proto_size fresh s sent
      → Linked (start_sequence my_index_id my_sequence local) sent s.sent_prev_sequence
        × (s.sent_prev_sequence ≤ℤ s.local_prev_sequence)
  Reach-Linked s sent n h = let w = Reach-Announces s sent n h in (w.linked, w.ahead)
