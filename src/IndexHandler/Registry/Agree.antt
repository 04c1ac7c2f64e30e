-- ===== src/IndexHandler/Registry/Agree.antt =====
-- When two registries of lib/model/indexhandler.go are the same to their users.
use Prim.Native.String.{String}
use vidsync_app.Base.{◌≡◌, ◌≢◌, sym, ◌∙◌, ap, ap₂, inl, inr, List}
use vidsync_app.DownloadState.Assoc.{
  key_cases, lookup, delete, lookup-delete_self, lookup-delete_other,
}
use vidsync_app.IndexHandler.Registry.{
  Folder, StartInfo, Indexes, Registry, start_locked, open_handler,
}
use vidsync_app.IndexHandler.Registry.Row.{opened}
use vidsync_app.IndexHandler.Registry.Started.{
  started_infos, started_states, started_self, started_other, started_db, started_pulls,
  started_failures, pulled,
}

-- Two registries that no reader can tell apart.
pub record Agree {S : Type 0} (r t : Registry S) : Type 0 where
  pub handlers : (k : String) → lookup k r.handlers ≡ lookup k t.handlers
  pub infos : (k : String) → lookup k r.start_infos ≡ lookup k t.start_infos
  pub states : (k : String) → lookup k r.folder_states ≡ lookup k t.folder_states
  pub db : r.db ≡ t.db
  pub pulls : r.pulls ≡ t.pulls
  pub failures : r.failures ≡ t.failures

-- The same, but for the handler and the start info of one folder.
pub record AgreeOff {S : Type 0} (id : String) (r t : Registry S) : Type 0 where
  pub handlers : (k : String) → id ≢ k → lookup k r.handlers ≡ lookup k t.handlers
  pub infos : (k : String) → id ≢ k → lookup k r.start_infos ≡ lookup k t.start_infos
  pub states : (k : String) → lookup k r.folder_states ≡ lookup k t.folder_states
  pub db : r.db ≡ t.db
  pub pulls : r.pulls ≡ t.pulls
  pub failures : r.failures ≡ t.failures

pub at_key :
    {V : Type 0} (id : String) (m n : List (String × V))
    → lookup id m ≡ lookup id n
    → ((k : String) → id ≢ k → lookup k m ≡ lookup k n)
    → (k : String) → lookup k m ≡ lookup k n
at_key id m n s o k = elim (key_cases id k) [
  | inl (e, _) ↦ ap (λ j. lookup j m) (sym e) ∙ s ∙ ap (λ j. lookup j n) e
  | inr (d, _) ↦ o k d
]

module _ {S : Type 0} (calls : Indexes S) where
  pub start_locked-Agree :
      (f : Folder) (i : StartInfo) (r t : Registry S)
      → AgreeOff f.id r t
      → Agree (start_locked calls f i r) (start_locked calls f i t)
  start_locked-Agree f i r t a =
      let x = start_locked calls f i r in
      let y = start_locked calls f i t in
      record {
        handlers =
            at_key f.id x.handlers y.handlers
              (started_self calls f i r
                ∙ ap (λ s. opened (open_handler calls f i s).1) a.db
                ∙ sym (started_self calls f i t))
              (λ k n.
                started_other calls f i r k n
                ∙ a.handlers k n
                ∙ sym (started_other calls f i t k n));
        infos = λ k.
            ap (lookup k) (started_infos calls f i r)
            ∙ at_key f.id (delete f.id r.start_infos) (delete f.id t.start_infos)
                (lookup-delete_self f.id r.start_infos
                  ∙ sym (lookup-delete_self f.id t.start_infos))
                (λ j n.
                  lookup-delete_other f.id j r.start_infos n
                  ∙ a.infos j n
                  ∙ sym (lookup-delete_other f.id j t.start_infos n))
                k
            ∙ ap (lookup k) (sym (started_infos calls f i t));
        states = λ k.
            ap (lookup k) (started_states calls f i r)
            ∙ a.states k
            ∙ ap (lookup k) (sym (started_states calls f i t));
        db =
            started_db calls f i r
            ∙ ap (λ s. (open_handler calls f i s).0) a.db
            ∙ sym (started_db calls f i t);
        pulls =
            started_pulls calls f i r
            ∙ ap₂ (λ s p. pulled f.id (open_handler calls f i s).1 p) a.db a.pulls
            ∙ sym (started_pulls calls f i t);
        failures = started_failures calls f i r ∙ a.failures ∙ sym (started_failures calls f i t);
      }
