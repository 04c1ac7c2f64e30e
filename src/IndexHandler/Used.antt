-- ===== src/IndexHandler/Used.antt =====
-- Which rows of the database the loop of `sendIndexTo` of lib/model/indexhandler.go takes.
use vidsync_app.Base.{
  ℕ, ◌≡◌, refl, sym, subst, ap, ◌∙◌, Bool, true, false, List, [], ◌∷◌, ◌++◌, append_assoc,
  append-nil, Option, none, some, inl, inr, ◌⊎◌, arith, ℤ, if◌then◌else◌,
}
use vidsync_app.FileInfo.{FileInfo}
use vidsync_app.FileInfo.Wire.{WireFileInfo}
use vidsync_app.IndexHandler.{Problem}
use vidsync_app.IndexHandler.Send.{
  Message, prepare_file_info_for_index, Scan, Round, go_on, stop, fail, panic, must_stop,
  is_withheld, add_file, round, scan_rows, Looped, looped, failed, panicked, Result, returned,
}
use vidsync_app.IndexHandler.Loop.{
  Accepts, withhold, add, Next, goes_on, stops, fails, panics, round-Accepts, append-some,
}
use vidsync_app.IndexHandler.Chain.{files_of}

-- The file infos that the other device is to get for these rows.
pub announced : Bool → List FileInfo → List FileInfo
announced encrypted [] = []
announced encrypted (f ∷ fs) =
    if is_withheld encrypted f
    then announced encrypted fs
    else prepare_file_info_for_index f ∷ announced encrypted fs

-- The last sequence number of these rows.
pub last_seen : ℤ → List FileInfo → ℤ
last_seen a [] = a
last_seen a (f ∷ fs) = last_seen f.sequence fs

-- Whether the last of these rows that is announced is a delete.
pub ends_with_delete : Bool → Bool → List FileInfo → Bool
ends_with_delete encrypted d [] = d
ends_with_delete encrypted d (f ∷ fs) =
    ends_with_delete encrypted (if is_withheld encrypted f then d else f.deleted) fs

-- All messages' files, one after the other.
pub all_files : List Message → List FileInfo
all_files [] = []
all_files (m ∷ ms) = files_of m ++ all_files ms

pub all_files-snoc :
    (ms : List Message) (m : Message) → all_files (ms ++ (m ∷ [])) ≡ all_files ms ++ files_of m
unfolding all_files
all_files-snoc [] m = append-nil (files_of m)
all_files-snoc (n ∷ ms) m =
    ap (λ l. files_of n ++ l) (all_files-snoc ms m)
    ∙ sym (append_assoc (files_of n) (all_files ms) (files_of m))

-- The rows that the loop has taken and those that it has left, with the reason that it stopped.
pub record Used (encrypted : Bool) (c : Scan) (rows : List FileInfo) (d : Scan) : Type 0 where
  pub used : List FileInfo
  pub rest : List FileInfo
  pub split : rows ≡ used ++ rest
  pub clean : d.batch.error ≡ none
  pub infos : d.batch.infos ≡ c.batch.infos ++ announced encrypted used
  pub seen : d.local_prev_sequence ≡ last_seen c.local_prev_sequence used
  pub deletes : d.previous_was_delete ≡ ends_with_delete encrypted c.previous_was_delete used
  pub first : used ≡ [] → d ≡ c
  pub why :
      (rest ≡ [])
      ⊎ ((r : FileInfo) × (rs : List FileInfo) × (rest ≡ r ∷ rs) × (must_stop d r ≡ true))

pub data Ends (encrypted : Bool) (c : Scan) (rows : List FileInfo) : Looped → Type 0 where
  at_end : {d : Scan} → Used encrypted c rows d → Ends encrypted c rows (looped d)
  on_error : {d : Scan} {e : Problem} → Ends encrypted c rows (failed d e)
  on_panic : Ends encrypted c rows panicked

pub cons-nil : {f : FileInfo} {fs : List FileInfo} → ¬ (f ∷ fs ≡ [])
cons-nil e = ground arith

pub cons-head : {f g : FileInfo} {fs gs : List FileInfo} → f ∷ fs ≡ g ∷ gs → f ≡ g
cons-head e = ground arith

pub false-true : ¬ (false ≡ true)
false-true e = ground arith

abbrev pub outcome : Result → Option Problem
outcome (returned r) = r
outcome panicked = none

after_accept :
    (proto_size : WireFileInfo → ℕ) (encrypted : Bool) (c d e : Scan) (fi : FileInfo)
    (rows : List FileInfo)
    → c.batch.error ≡ none
    → Accepts proto_size encrypted c fi d
    → Used encrypted d rows e
    → Used encrypted c (fi ∷ rows) e
unfolding announced last_seen ends_with_delete
after_accept proto_size encrypted c d e fi rows z (withhold s o w q) u = record {
  used = fi ∷ u.used;
  rest = u.rest;
  split = ap (◌∷◌ fi) u.split;
  clean = u.clean;
  infos = u.infos ∙ rw (w) (ap (λ k. k.batch.infos ++ announced encrypted u.used) q);
  seen = u.seen ∙ ap (λ k. last_seen k.local_prev_sequence u.used) q;
  deletes =
      u.deletes ∙ rw (w) (ap (λ k. ends_with_delete encrypted k.previous_was_delete u.used) q);
  first = λ x. absurd (cons-nil x);
  why = u.why;
}
after_accept proto_size encrypted c d e fi rows z (add b s o w a q) u =
    let r = append-some proto_size c.batch b (prepare_file_info_for_index fi) a in
    record {
      used = fi ∷ u.used;
      rest = u.rest;
      split = ap (◌∷◌ fi) u.split;
      clean = u.clean;
      infos =
          u.infos
          ∙ rw (w) (
              ap (λ k. k.batch.infos ++ announced encrypted u.used) q
              ∙ ap (λ l. l ++ announced encrypted u.used) r.0
              ∙ append_assoc c.batch.infos (prepare_file_info_for_index fi ∷ [])
                  (announced encrypted u.used));
      seen = u.seen ∙ ap (λ k. last_seen k.local_prev_sequence u.used) q;
      deletes =
          u.deletes ∙ rw (w) (ap (λ k. ends_with_delete encrypted k.previous_was_delete u.used) q);
      first = λ x. absurd (cons-nil x);
      why = u.why;
    }

Accepts-clean :
    (proto_size : WireFileInfo → ℕ) (encrypted : Bool) (c d : Scan) (fi : FileInfo)
    → c.batch.error ≡ none
    → Accepts proto_size encrypted c fi d
    → d.batch.error ≡ none
Accepts-clean proto_size encrypted c d fi z (withhold s o w q) =
    subst (λ k. k.batch.error ≡ none) (sym q) z
Accepts-clean proto_size encrypted c d fi z (add b s o w a q) =
    subst (λ k. k.batch.error ≡ none) (sym q)
      (append-some proto_size c.batch b (prepare_file_info_for_index fi) a).1

no_rows :
    (proto_size : WireFileInfo → ℕ) (encrypted : Bool) (row_err : Option Problem) (c : Scan)
    → c.batch.error ≡ none
    → Ends encrypted c [] (scan_rows proto_size encrypted row_err c [])
unfolding scan_rows announced last_seen ends_with_delete
no_rows proto_size encrypted (some e) c z = on_error
no_rows proto_size encrypted none c z = at_end (record {
  used = [];
  rest = [];
  split = refl;
  clean = z;
  infos = sym (append-nil c.batch.infos);
  seen = refl;
  deletes = refl;
  first = λ x. refl;
  why = inl refl;
})

module _ (proto_size : WireFileInfo → ℕ) (encrypted : Bool) (row_err : Option Problem) where
  accepted-Ends :
      (c d : Scan) (fi : FileInfo) (rows : List FileInfo) (l : Looped)
      → c.batch.error ≡ none
      → Accepts proto_size encrypted c fi d
      → Ends encrypted d rows l
      → Ends encrypted c (fi ∷ rows) l
  accepted-Ends c d fi rows (looped e) z a (at_end u) =
      at_end (after_accept proto_size encrypted c d e fi rows z a u)
  accepted-Ends c d fi rows (failed e x) z a on_error = on_error
  accepted-Ends c d fi rows panicked z a on_panic = on_panic

  after_round :
      (c : Scan) (fi : FileInfo) (rows : List FileInfo) (r : Round)
      → round proto_size encrypted c fi ≡ r
      → c.batch.error ≡ none
      → (r ≡ stop → must_stop c fi ≡ true)
      → Next (Accepts proto_size encrypted c fi) r
      → ((d : Scan)
          → d.batch.error ≡ none
          → Ends encrypted d rows (scan_rows proto_size encrypted row_err d rows))
      → Ends encrypted c (fi ∷ rows) (scan_rows proto_size encrypted row_err c (fi ∷ rows))
  unfolding scan_rows announced last_seen ends_with_delete
  after_round c fi rows (go_on d) e z m (goes_on a) rest =
      rw (e, scan_rows)
        (accepted-Ends c d fi rows (scan_rows proto_size encrypted row_err d rows) z a
          (rest d (Accepts-clean proto_size encrypted c d fi z a)))
  after_round c fi rows stop e z m stops rest =
      rw (e, scan_rows)
        (at_end (record {
          used = [];
          rest = fi ∷ rows;
          split = refl;
          clean = z;
          infos = sym (append-nil c.batch.infos);
          seen = refl;
          deletes = refl;
          first = λ x. refl;
          why = inr (fi, rows, refl, m refl);
        }))
  after_round c fi rows (fail x) e z m fails rest = rw (e, scan_rows) on_error
  after_round c fi rows panic e z m panics rest = rw (e, scan_rows) on_panic

  round-stop :
      (c : Scan) (fi : FileInfo) → round proto_size encrypted c fi ≡ stop → must_stop c fi ≡ true
  unfolding round add_file
  round-stop c fi h = ground arith

  pub scan_rows-Ends :
      (c : Scan) (rows : List FileInfo)
      → c.batch.error ≡ none
      → Ends encrypted c rows (scan_rows proto_size encrypted row_err c rows)
  scan_rows-Ends c [] z = no_rows proto_size encrypted row_err c z
  scan_rows-Ends c (fi ∷ rows) z =
      after_round c fi rows (round proto_size encrypted c fi) refl z (round-stop c fi)
        (round-Accepts proto_size encrypted c fi) (λ d y. scan_rows-Ends d rows y)
