-- ===== src/IndexHandler/Registry/Row.antt =====
-- The three entries that the registry of lib/model/indexhandler.go has for one folder.
use Prim.Native.String.{String}
use vidsync_app.Base.{
  ◌≡◌, refl, subst, ◌⊎◌, inl, inr, Bool, true, false, Option, none, some, Option-cases,
}
use vidsync_app.IndexHandler.{Problem, Handler, Cleanup, new_index_handler, resume, pause}
use vidsync_app.IndexHandler.Registry.{
  Folder, StartInfo, Indexes, finish_handler, open_handler, clean_up,
}

abbrev pub is_none : {V : Type 0} → Option V → Bool
is_none none = true
is_none (some v) = false

-- A start info waits only where there is neither a handler nor a folder state. A handler belongs to
-- its folder, and is paused exactly if there is no folder state. A folder state is of its folder.
pub record Row (k : String) (i : Option StartInfo) (h : Option Handler) (f : Option Folder)
    : Type 0 where
  pub waiting : (x : StartInfo) → i ≡ some x → (h ≡ none) × (f ≡ none)
  pub running : (x : Handler) → h ≡ some x → (x.folder ≡ k) × (x.paused ≡ is_none f)
  pub known : (x : Folder) → f ≡ some x → x.id ≡ k

-- The handler, where the start did not fail.
abbrev pub opened : Problem ⊎ Handler → Option Handler
opened (inl e) = none
opened (inr h) = some h

-- A handler that works on its folder and is not paused.
pub record Fresh (k : String) (o : Problem ⊎ Handler) : Type 0 where
  pub fresh : (x : Handler) → opened o ≡ some x → (x.folder ≡ k) × (x.paused ≡ false)

-- What holds of a handler, for the one that an option holds.
carried :
    (k : String) (b : Bool) (h x : Handler)
    → some h ≡ some x
    → h.folder ≡ k
    → h.paused ≡ b
    → (x.folder ≡ k) × (x.paused ≡ b)
carried k b h x e p q =
    let same : h ≡ x = cc (e) in
    subst {A = Handler} (λ (y : Handler). (y.folder ≡ k) × (y.paused ≡ b)) same (p, q)

pub Row-idle :
    (k : String) (f : Option Folder) → ((x : Folder) → f ≡ some x → x.id ≡ k) → Row k none none f
Row-idle k f h = record { waiting = λ x e. cc (e); running = λ x e. cc (e); known = h }

pub Row-waiting : (k : String) (i : StartInfo) → Row k (some i) none none
Row-waiting k i = record {
  waiting = λ x e. (refl, refl);
  running = λ x e. cc (e);
  known = λ x e. cc (e);
}

pub Row-Fresh :
    (k : String) (o : Problem ⊎ Handler) (f : Folder)
    → Fresh k o
    → f.id ≡ k
    → Row k none (opened o) (some f)
Row-Fresh k o f h e = record {
  waiting = λ x p. cc (p);
  running = λ x p. h.fresh x p;
  known = λ x p. cc (p, e);
}

pub Row-unknown :
    (k : String) (i : Option StartInfo) (f : Option Folder) → Row k i none f → Row k i none none
Row-unknown k i f r = record {
  waiting = λ x e. (refl, refl);
  running = λ x e. cc (e);
  known = λ x e. cc (e);
}

pub Row-paused :
    (k : String) (i : Option StartInfo) (h : Handler) (f : Option Folder)
    → Row k i (some h) f
    → Row k i (some (pause h).0) none
unfolding pause
Row-paused k i h f r = record {
  waiting = λ x e. (let w = r.waiting x e in cc (w.0), refl);
  running = λ x e. carried k true (pause h).0 x e (r.running h refl).0 refl;
  known = λ x e. cc (e);
}

pub Row-resumed :
    (k : String) (h : Handler) (f : Folder)
    → h.folder ≡ k
    → f.id ≡ k
    → Row k none (some (resume h)) (some f)
unfolding resume
Row-resumed k h f e d = record {
  waiting = λ x p. cc (p);
  running = λ x p. carried k false (resume h) x p e refl;
  known = λ x p. cc (p, d);
}

pub Row-uninformed :
    (k : String) (i : Option StartInfo) (h : Option Handler) (f : Option Folder)
    → Row k i h f
    → Row k none h f
Row-uninformed k i h f r = record { waiting = λ x e. cc (e); running = r.running; known = r.known }

-- Without the start info and the handler.
pub Row-cleared :
    (k : String) (i : Option StartInfo) (h : Option Handler) (f : Option Folder)
    → Row k i h f
    → Row k none none f
Row-cleared k i h f r = Row-idle k f r.known

pub finish_handler-Fresh :
    {S : Type 0} (calls : Indexes S) (k : String) (h : Handler × Cleanup) (s : S)
    → (h.0).folder ≡ k
    → (h.0).paused ≡ false
    → Fresh k (finish_handler calls k h s).1
unfolding finish_handler
finish_handler-Fresh calls k h s e p = elim (Option-cases (clean_up calls k h.1 s).1) [
  | inl q ↦ rw (q, finish_handler) record { fresh = λ x d. carried k false h.0 x d e p }
  | inr (_, q) ↦ rw (q, finish_handler) record { fresh = λ x d. cc (d) }
]

pub open_handler-Fresh :
    {S : Type 0} (calls : Indexes S) (f : Folder) (i : StartInfo) (s : S)
    → Fresh f.id (open_handler calls f i s).1
unfolding open_handler new_index_handler
open_handler-Fresh calls f i s =
    let mine = calls.local_index_id f.id s in
    let sequence = calls.local_sequence f.id mine.0 in
    elim (Option-cases mine.1.1) [
      | inr (_, q) ↦ rw (q, open_handler) record { fresh = λ x d. cc (d) }
      | inl q ↦
          rw (q, open_handler)
            (elim (Option-cases sequence.1) [
              | inr (_, p) ↦ rw (p) record { fresh = λ x d. cc (d) }
              | inl p ↦
                  let theirs = calls.their_index_id f.id mine.0 in
                  rw (p) (
                    finish_handler-Fresh calls f.id
                      (new_index_handler f.id f.is_receive_encrypted mine.1.0 sequence.0 theirs.1.0
                        i.local i.remote)
                      theirs.0 refl refl)
            ])
    ]
