-- ===== src/IndexHandler/Every.antt =====
-- What holds of the files of every message of lib/model/indexhandler.go, over all runs of
-- `sendIndexTo`: how many there are, and that none of them must stay on the device.
use vidsync_app.Base.{
  ℕ, ◌+◌, ◌≤◌, ◌≡◌, refl, sym, subst, ap, ◌∙◌, Bool, true, false, List, [], ◌∷◌, Option, none, some,
  inl, inr, ◌⊎◌, Bool-cases, Option-cases, arith, All, All-append, length, length-append,
}
use vidsync_app.FileInfo.{FileInfo, is_receive_only_changed}
use vidsync_app.FileInfo.Wire.{WireFileInfo}
use vidsync_app.IndexHandler.{Problem, Handler, resume, pause}
use vidsync_app.IndexHandler.Batch.{FileInfoBatch, flush, after_flush_fn, full}
use vidsync_app.IndexHandler.Send.{
  fetched, Message, Sending, message_for, send_batch, prepare_file_info_for_index, Scan, must_stop,
  is_withheld, Looped, looped, failed, panicked, start_scan, flushing, Outside, send_loop,
  send_flush, send_index_to,
}
use vidsync_app.IndexHandler.Loop.{
  Accepts, withhold, add, AtEnd, ends, fails, panics, scan_rows-AtEnd, flush-empty, flush-files,
  append-some,
}
use vidsync_app.IndexHandler.Chain.{files_of}
use vidsync_app.IndexHandler.Linked.{Reach, begin, send, resumes, pauses}

pub message-files :
    (x : Sending) (f : FileInfo) (fs : List FileInfo) → files_of (message_for x f fs) ≡ f ∷ fs
unfolding message_for
message-files x f fs = elim (Bool-cases x.initial) [
  | inl i ↦ rw (i, message_for) refl
  | inr i ↦ rw (i, message_for) refl
]

-- A property of lists of files that holds of the batch at the end of the loop.
module _ (P : List FileInfo → Type 0) where
  abbrev EveryMessage : List Message → Type 0
  EveryMessage = All (λ m. P (files_of m))

  module _ (ctx_err : Option Problem) (conn : List Message → Message → Option Problem) where
    abbrev Fine : Handler → Sending → Type 0
    Fine s x =
        EveryMessage x.sent
        × (x.handler.folder_is_receive_encrypted ≡ s.folder_is_receive_encrypted)

    send_batch-Fine :
        (s : Handler) (x : Sending) (f : FileInfo) (fs : List FileInfo)
        → P (f ∷ fs)
        → Fine s x
        → Fine s (send_batch ctx_err conn x (f ∷ fs)).0
    unfolding send_batch
    send_batch-Fine s x f fs p w = elim (Option-cases ctx_err) [
      | inr (e, c) ↦ rw (c, send_batch) w
      | inl c ↦ elim (Option-cases (conn x.sent (message_for x f fs))) [
        | inr (e, d) ↦ rw (c, send_batch) (rw (d) w)
        | inl d ↦
            rw (c, send_batch)
              (rw (d) (
                All-append (λ m. P (files_of m)) x.sent (message_for x f fs ∷ []) w.0
                    (subst P (sym (message-files x f fs)) p, tt),
                w.1,
              ))
      ]
    ]

    after_flush-Fine :
        (s : Handler) (b : FileInfoBatch) (r : Sending × Option Problem)
        → Fine s r.0
        → Fine s (after_flush_fn (send_batch ctx_err conn) b r).state
    unfolding after_flush_fn
    after_flush-Fine s b (x, none) w = w
    after_flush-Fine s b (x, some e) w = w

    flush-Fine :
        (s : Handler) (x : Sending) (b : FileInfoBatch) (infos : List FileInfo)
        → b.infos ≡ infos
        → b.error ≡ none
        → P infos
        → Fine s x
        → Fine s (flush (send_batch ctx_err conn) b x).state
    flush-Fine s x b [] e c p w =
        subst (λ q. Fine s q.state) (sym (flush-empty (send_batch ctx_err conn) b x c e)) w
    flush-Fine s x b (f ∷ fs) e c p w =
        subst (λ q. Fine s q.state) (sym (flush-files (send_batch ctx_err conn) b x c f fs e))
          (after_flush-Fine s b (send_batch ctx_err conn x (f ∷ fs)) (send_batch-Fine s x f fs p w))

  -- What the loop keeps, with the property of its batch.
  module _ (proto_size : WireFileInfo → ℕ) (encrypted : Bool) (Inv : Scan → Type 0)
      (starts : (s : Handler) → Inv (start_scan s))
      (keeps : (c d : Scan) (fi : FileInfo) → Inv c → Accepts proto_size encrypted c fi d → Inv d)
      (clean : (c : Scan) → Inv c → c.batch.error ≡ none)
      (gives : (c : Scan) → Inv c → P c.batch.infos) where
    send_flush-Every :
        (o : Outside) (s : Handler) (sent : List Message) (l : Looped)
        → EveryMessage sent
        → AtEnd Inv l
        → EveryMessage (send_flush proto_size o s sent l).0.1
          × ((send_flush proto_size o s sent l).0.0.folder_is_receive_encrypted
              ≡ s.folder_is_receive_encrypted)
    unfolding send_flush
    send_flush-Every o s sent (looped c) w (ends h) =
        flush-Fine o.ctx_err o.conn s (flushing s sent c) c.batch c.batch.infos refl (clean c h)
          (gives c h) (w, refl)
    send_flush-Every o s sent (failed c e) w (fails h) = (w, refl)
    send_flush-Every o s sent panicked w panics = (w, refl)

    send_index_to-Every :
        (o : Outside) (s : Handler) (sent : List Message)
        → s.folder_is_receive_encrypted ≡ encrypted
        → EveryMessage sent
        → EveryMessage (send_index_to proto_size o s sent).0.1
          × ((send_index_to proto_size o s sent).0.0.folder_is_receive_encrypted
              ≡ s.folder_is_receive_encrypted)
    unfolding send_index_to send_loop
    send_index_to-Every o s sent e w = send_flush-Every o s sent (send_loop proto_size o s) w (
        scan_rows-AtEnd proto_size s.folder_is_receive_encrypted Inv
          (λ c d fi h a. keeps c d fi h (subst (λ k. Accepts proto_size k c fi d) e a)) o.row_err
          (start_scan s) (fetched o s) (starts s))

    Reach-Every :
        (h s : Handler) (sent : List Message)
        → h.folder_is_receive_encrypted ≡ encrypted
        → Reach proto_size h s sent
        → EveryMessage sent × (s.folder_is_receive_encrypted ≡ encrypted)
    unfolding resume pause
    Reach-Every h s sent e begin = (tt, e)
    Reach-Every h s sent e (send {s = r} {sent = ms} o g) =
        let w = Reach-Every h r ms e g in
        let q = send_index_to-Every o r ms w.1 w.0 in (q.0, q.1 ∙ w.1)
    Reach-Every h s sent e (resumes {s = r} g) = Reach-Every h r sent e g
    Reach-Every h s sent e (pauses {s = r} g) = Reach-Every h r sent e g

-- The batch may pass the limit by one delete.
record Sized (c : Scan) : Type 0 where
  clean : c.batch.error ≡ none
  room :
      (length c.batch.infos ≤ 1000)
      ⊎ ((length c.batch.infos ≤ 1001) × (c.previous_was_delete ≡ true))

open_batch :
    (c : Scan) (fi : FileInfo)
    → must_stop c fi ≡ false
    → ((length c.batch.infos ≤ 1000)
        ⊎ ((length c.batch.infos ≤ 1001) × (c.previous_was_delete ≡ true)))
    → (length c.batch.infos + 1 ≤ 1000) ⊎ ((length c.batch.infos + 1 ≤ 1001) × (fi.deleted ≡ true))
unfolding must_stop full
open_batch c fi h r = ground arith

Accepts-Sized :
    (proto_size : WireFileInfo → ℕ) (encrypted : Bool) (c d : Scan) (fi : FileInfo)
    → Sized c
    → Accepts proto_size encrypted c fi d
    → Sized d
Accepts-Sized proto_size encrypted c d fi h (withhold s o w e) =
    subst Sized (sym e) (record { clean = h.clean; room = h.room })
Accepts-Sized proto_size encrypted c d fi h (add b s o w q e) =
    let r = append-some proto_size c.batch b (prepare_file_info_for_index fi) q in
    subst Sized (sym e) (record {
      clean = r.1;
      room =
          subst (λ n. (n ≤ 1000) ⊎ ((n ≤ 1001) × (fi.deleted ≡ true)))
            (sym
              (ap length r.0 ∙ length-append c.batch.infos (prepare_file_info_for_index fi ∷ [])))
            (open_batch c fi s h.room);
    })

-- However a handler is used, no message that it sends holds more than 1001 files.
pub Reach-Bounded :
    (proto_size : WireFileInfo → ℕ) (h s : Handler) (sent : List Message)
    → Reach proto_size h s sent
    → All (λ m. length (files_of m) ≤ 1001) sent
Reach-Bounded proto_size h s sent g =
    (Reach-Every (λ l. length l ≤ 1001) proto_size h.folder_is_receive_encrypted Sized
      (λ s. record { clean = refl; room = inl (omega arith) })
      (Accepts-Sized proto_size h.folder_is_receive_encrypted) (λ c w. w.clean)
      (λ c w. omega (arith, w.room)) h s sent refl g).0

abbrev pub Announceable : List FileInfo → Type 0
Announceable = All (λ f. is_receive_only_changed f ≡ false)

record Safe (c : Scan) : Type 0 where
  clean : c.batch.error ≡ none
  safe : Announceable c.batch.infos

prepared_safe :
    (fi : FileInfo)
    → is_withheld true fi ≡ false
    → is_receive_only_changed (prepare_file_info_for_index fi) ≡ false
unfolding is_withheld prepare_file_info_for_index is_receive_only_changed
prepared_safe fi h = h

Accepts-Safe :
    (proto_size : WireFileInfo → ℕ) (c d : Scan) (fi : FileInfo)
    → Safe c
    → Accepts proto_size true c fi d
    → Safe d
Accepts-Safe proto_size c d fi h (withhold s o w e) =
    subst Safe (sym e) (record { clean = h.clean; safe = h.safe })
Accepts-Safe proto_size c d fi h (add b s o w q e) =
    let r = append-some proto_size c.batch b (prepare_file_info_for_index fi) q in
    subst Safe (sym e) (record {
      clean = r.1;
      safe = subst Announceable (sym r.0) (
          All-append (λ f. is_receive_only_changed f ≡ false) c.batch.infos
            (prepare_file_info_for_index fi ∷ []) h.safe (prepared_safe fi w, tt));
    })

-- A handler of a folder that receives encrypted files never sends the file info of a file that was
-- changed locally.
pub Reach-Safe :
    (proto_size : WireFileInfo → ℕ) (h s : Handler) (sent : List Message)
    → h.folder_is_receive_encrypted ≡ true
    → Reach proto_size h s sent
    → All (λ m. Announceable (files_of m)) sent
Reach-Safe proto_size h s sent e g =
    (Reach-Every Announceable proto_size true Safe (λ s. record { clean = refl; safe = tt })
      (Accepts-Safe proto_size) (λ c w. w.clean) (λ c w. w.safe) h s sent e g).0
