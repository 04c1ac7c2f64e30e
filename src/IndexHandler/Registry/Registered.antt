-- ===== src/IndexHandler/Registry/Registered.antt =====
-- The registry of lib/model/indexhandler.go over the whole time of a connection.
use Prim.Native.String.{String}
use vidsync_app.Base.{◌≡◌, ◌≢◌, refl, subst, ◌∙◌, ap, inl, inr, Option, none, some, Option-cases}
use vidsync_app.DownloadState.Assoc.{
  key_cases, lookup, store, delete, lookup-store_self, lookup-store_other, lookup-delete_self,
  lookup-delete_other,
}
use vidsync_app.IndexHandler.{Handler, pause}
use vidsync_app.IndexHandler.Registry.{
  Folder, StartInfo, Indexes, Registry, new_registry, start_locked, open_handler, add_index_info,
  remove, folder_paused_locked,
}
use vidsync_app.IndexHandler.Registry.Row.{
  Row, Row-idle, Row-waiting, Row-Fresh, Row-paused, Row-unknown, Row-cleared, open_handler-Fresh,
}
use vidsync_app.IndexHandler.Registry.Started.{
  started_infos, started_states, started_self, started_other,
}

module _ {S : Type 0} where
  abbrev pub ValidAt : String → Registry S → Type 0
  ValidAt k r = Row k (lookup k r.start_infos) (lookup k r.handlers) (lookup k r.folder_states)

  abbrev pub IsValid : Registry S → Type 0
  IsValid r = (k : String) → ValidAt k r

  -- One folder, and the others.
  pub gathered :
      (id : String) (r : Registry S)
      → ValidAt id r
      → ((k : String) → id ≢ k → ValidAt k r)
      → IsValid r
  gathered id r v w k = elim (key_cases id k) [
    | inl (e, _) ↦ subst (λ j. ValidAt j r) e v
    | inr (n, _) ↦ w k n
  ]

  -- Where the three entries are.
  pub entries :
      {k : String} {i : Option StartInfo} {h : Option Handler} {f : Option Folder} (r : Registry S)
      → lookup k r.start_infos ≡ i
      → lookup k r.handlers ≡ h
      → lookup k r.folder_states ≡ f
      → Row k i h f
      → ValidAt k r
  entries r a b c v = rw (a, b, c) v

  pub new_registry-IsValid : (s : S) → IsValid (new_registry s)
  unfolding new_registry lookup
  new_registry-IsValid s k = Row-idle k none (λ x e. cc (e))

  module _ (calls : Indexes S) where
    pub start_locked-IsValid :
        (f : Folder) (i : StartInfo) (r : Registry S)
        → lookup f.id r.folder_states ≡ some f
        → ((k : String) → f.id ≢ k → ValidAt k r)
        → IsValid (start_locked calls f i r)
    start_locked-IsValid f i r e w =
        let t = start_locked calls f i r in
        let infos = started_infos calls f i r in
        let states = started_states calls f i r in
        gathered f.id t
          (entries t (ap (lookup f.id) infos ∙ lookup-delete_self f.id r.start_infos)
            (started_self calls f i r) (ap (lookup f.id) states ∙ e)
            (Row-Fresh f.id (open_handler calls f i r.db).1 f (open_handler-Fresh calls f i r.db)
              refl))
          (λ k n.
            entries t (ap (lookup k) infos ∙ lookup-delete_other f.id k r.start_infos n)
              (started_other calls f i r k n) (ap (lookup k) states) (w k n))

    pub add_index_info-IsValid :
        (k : String) (i : StartInfo) (r : Registry S)
        → IsValid r
        → IsValid (add_index_info calls k i r)
    unfolding add_index_info
    add_index_info-IsValid k i r v = elim (Option-cases (lookup k r.folder_states)) [
      | inl q ↦
          let t : Registry S = record r {
            handlers = delete k r.handlers;
            start_infos = store k i r.start_infos;
          } in
          rw (q, add_index_info)
            (gathered k t
              (entries t (lookup-store_self k i r.start_infos) (lookup-delete_self k r.handlers) q
                (Row-waiting k i))
              (λ j n.
                entries t (lookup-store_other k j i r.start_infos n)
                  (lookup-delete_other k j r.handlers n) refl (v j)))
      | inr (f, q) ↦
          let e : f.id ≡ k = (v k).known f q in
          let stopped : Registry S = record r { handlers = delete k r.handlers } in
          rw (q, add_index_info)
            (start_locked-IsValid f i stopped (ap (λ j. lookup j r.folder_states) e ∙ q) (λ j n.
              entries stopped refl (lookup-delete_other k j r.handlers (λ d. n (e ∙ d))) refl
                (v j)))
    ]

    pub remove-IsValid : (k : String) (r : Registry S) → IsValid r → IsValid (remove calls k r)
    unfolding remove
    remove-IsValid k r v =
        gathered k (remove calls k r)
          (entries (remove calls k r) (lookup-delete_self k r.start_infos)
            (lookup-delete_self k r.handlers) refl
            (Row-cleared k (lookup k r.start_infos) (lookup k r.handlers) (lookup k r.folder_states)
              (v k)))
          (λ j n.
            entries (remove calls k r) (lookup-delete_other k j r.start_infos n)
              (lookup-delete_other k j r.handlers n) refl (v j))

    pub folder_paused_locked-IsValid :
        (k : String) (r : Registry S) → IsValid r → IsValid (folder_paused_locked calls k r)
    unfolding folder_paused_locked
    folder_paused_locked-IsValid k r v =
        let gone = lookup-delete_self k r.folder_states in
        elim (Option-cases (lookup k r.handlers)) [
          | inl q ↦
              let t : Registry S = record r { folder_states = delete k r.folder_states } in
              rw (q, folder_paused_locked)
                (gathered k t
                  (entries t refl q gone (
                    Row-unknown k (lookup k r.start_infos) (lookup k r.folder_states) (
                      subst (λ h. Row k (lookup k r.start_infos) h (lookup k r.folder_states)) q
                        (v k))))
                  (λ j n. entries t refl refl (lookup-delete_other k j r.folder_states n) (v j)))
          | inr (h, q) ↦
              let t : Registry S = folder_paused_locked calls k r in
              let handlers : t.handlers ≡ store k (pause h).0 r.handlers =
                rw (q, folder_paused_locked) refl in
              let infos : t.start_infos ≡ r.start_infos = rw (q, folder_paused_locked) refl in
              let states : t.folder_states ≡ delete k r.folder_states =
                rw (q, folder_paused_locked) refl in
              gathered k t
                (entries t (ap (lookup k) infos)
                  (ap (lookup k) handlers ∙ lookup-store_self k (pause h).0 r.handlers)
                  (ap (lookup k) states ∙ gone)
                  (Row-paused k (lookup k r.start_infos) h (lookup k r.folder_states) (
                    subst (λ g. Row k (lookup k r.start_infos) g (lookup k r.folder_states)) q
                      (v k))))
                (λ j n.
                  entries t (ap (lookup j) infos)
                    (ap (lookup j) handlers ∙ lookup-store_other k j (pause h).0 r.handlers n)
                    (ap (lookup j) states ∙ lookup-delete_other k j r.folder_states n) (v j))
        ]
