-- ===== src/IndexHandler/Registry/Started.antt =====
-- What `startLocked` of lib/model/indexhandler.go does to the maps of the registry.
use Prim.Native.String.{String}
use vidsync_app.Base.{◌≡◌, ◌≢◌, refl, ◌∙◌, ◌⊎◌, inl, inr, List, ◌∷◌}
use vidsync_app.DownloadState.Assoc.{
  lookup, delete, lookup-store_self, lookup-store_other, lookup-delete_self, lookup-delete_other,
}
use vidsync_app.IndexHandler.{Problem, Handler}
use vidsync_app.IndexHandler.Registry.{
  Folder, StartInfo, Indexes, Registry, open_handler, start_locked,
}
use vidsync_app.IndexHandler.Registry.Row.{opened}

-- What a start adds to the folders whose runners are asked to pull.
abbrev pub pulled : String → Problem ⊎ Handler → List String → List String
pulled k (inl e) ks = ks
pulled k (inr h) ks = k ∷ ks

started_cases :
    (o : Problem ⊎ Handler) → ((e : Problem) × (o ≡ inl e)) ⊎ ((h : Handler) × (o ≡ inr h))
started_cases (inl e) = inl (e, refl)
started_cases (inr h) = inr (h, refl)

module _ {S : Type 0} (calls : Indexes S) (f : Folder) (i : StartInfo) (r : Registry S) where
  pub started_infos : (start_locked calls f i r).start_infos ≡ delete f.id r.start_infos
  unfolding start_locked
  started_infos = elim (started_cases (open_handler calls f i r.db).1) [
    | inl (_, q) ↦ rw (q, start_locked) refl
    | inr (_, q) ↦ rw (q, start_locked) refl
  ]

  pub started_states : (start_locked calls f i r).folder_states ≡ r.folder_states
  unfolding start_locked
  started_states = elim (started_cases (open_handler calls f i r.db).1) [
    | inl (_, q) ↦ rw (q, start_locked) refl
    | inr (_, q) ↦ rw (q, start_locked) refl
  ]

  pub started_failures : (start_locked calls f i r).failures ≡ r.failures
  unfolding start_locked
  started_failures = elim (started_cases (open_handler calls f i r.db).1) [
    | inl (_, q) ↦ rw (q, start_locked) refl
    | inr (_, q) ↦ rw (q, start_locked) refl
  ]

  pub started_db : (start_locked calls f i r).db ≡ (open_handler calls f i r.db).0
  unfolding start_locked
  started_db = elim (started_cases (open_handler calls f i r.db).1) [
    | inl (_, q) ↦ rw (q, start_locked) refl
    | inr (_, q) ↦ rw (q, start_locked) refl
  ]

  pub started_pulls :
      (start_locked calls f i r).pulls ≡ pulled f.id (open_handler calls f i r.db).1 r.pulls
  unfolding start_locked
  started_pulls = elim (started_cases (open_handler calls f i r.db).1) [
    | inl (_, q) ↦ rw (q, start_locked) refl
    | inr (_, q) ↦ rw (q, start_locked) refl
  ]

  pub started_self :
      lookup f.id (start_locked calls f i r).handlers ≡ opened (open_handler calls f i r.db).1
  unfolding start_locked
  started_self = elim (started_cases (open_handler calls f i r.db).1) [
    | inl (_, q) ↦ rw (q, start_locked) (lookup-delete_self f.id r.handlers)
    | inr (h, q) ↦ rw (q, start_locked) (lookup-store_self f.id h (delete f.id r.handlers))
  ]

  pub started_other :
      (k : String) → f.id ≢ k → lookup k (start_locked calls f i r).handlers ≡ lookup k r.handlers
  unfolding start_locked
  started_other k n =
      let kept = lookup-delete_other f.id k r.handlers n in
      elim (started_cases (open_handler calls f i r.db).1) [
        | inl (_, q) ↦ rw (q, start_locked) kept
        | inr (h, q) ↦
            rw (q, start_locked) (lookup-store_other f.id k h (delete f.id r.handlers) n ∙ kept)
      ]
