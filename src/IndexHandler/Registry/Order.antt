-- ===== src/IndexHandler/Registry/Order.antt =====
-- The two orders in which the registry of lib/model/indexhandler.go can hear of a folder.
use Prim.Native.String.{String}
use vidsync_app.Base.{
  ℕ, ◌≡◌, ◌≢◌, not, if◌then◌else◌, refl, sym, ◌∙◌, ap, inl, inr, true, false, List, none,
  Option-cases,
}
use vidsync_app.DownloadState.Assoc.{
  lookup, store, delete, lookup-store_self, lookup-store_other, lookup-delete_self,
  lookup-delete_other,
}
use vidsync_app.IndexHandler.{Handler, resume}
use vidsync_app.IndexHandler.Registry.{
  Folder, StartInfo, Indexes, Registry, start_locked, shared_with, add_index_info, remove,
  folder_paused_locked, folder_running_locked, register_folder_state,
}
use vidsync_app.IndexHandler.Registry.Started.{started_infos}
use vidsync_app.IndexHandler.Registry.Agree.{Agree, at_key, start_locked-Agree}

module _ {S : Type 0} (calls : Indexes S) where
  -- The registry as `folderRunningLocked` leaves it, where no start info waits.
  abbrev with_state : Folder → Registry S → List (String × Handler) → Registry S
  with_state f r hs = record r { folder_states = store f.id f r.folder_states; handlers = hs }

  running_idle :
      (f : Folder) (r : Registry S)
      → lookup f.id r.start_infos ≡ none
      → (hs : List (String × Handler)) × (folder_running_locked calls f r ≡ with_state f r hs)
        × ((k : String) → f.id ≢ k → lookup k hs ≡ lookup k r.handlers)
  unfolding folder_running_locked
  running_idle f r q = elim (Option-cases (lookup f.id r.handlers)) [
    | inl p ↦ (r.handlers, rw (q, p, folder_running_locked) refl, λ k n. refl)
    | inr (h, p) ↦ (
      store f.id (resume h) r.handlers,
      rw (q, p, folder_running_locked) refl,
      λ k n. lookup-store_other f.id k (resume h) r.handlers n,
    )
  ]

  -- The announcement first.
  announced_first :
      (f : Folder) (i : StartInfo) (r : Registry S)
      → lookup f.id r.folder_states ≡ none
      → (hs : List (String × Handler))
      → ((k : String) → f.id ≢ k → lookup k hs ≡ lookup k r.handlers)
      → Agree
          (folder_running_locked calls f (add_index_info calls f.id i r))
          (start_locked calls f i (with_state f r (delete f.id hs)))
  unfolding add_index_info folder_running_locked
  announced_first f i r q hs o =
      let x : Registry S = record r {
        handlers = delete f.id r.handlers;
        start_infos = store f.id i r.start_infos;
      } in
      let known = with_state f x x.handlers in
      let added : add_index_info calls f.id i r ≡ x = rw (q, add_index_info) refl in
      let s = start_locked calls f i known in
      let ran : folder_running_locked calls f x
          ≡ record s { start_infos = delete f.id s.start_infos } =
        rw
          (
            lookup-store_self f.id i r.start_infos,
            lookup-delete_self f.id r.handlers,
            folder_running_locked,
          )
          refl in
      let a : Agree s (start_locked calls f i (with_state f r (delete f.id hs))) =
        start_locked-Agree calls f i known (with_state f r (delete f.id hs)) record {
          handlers = λ k n.
              lookup-delete_other f.id k r.handlers n
              ∙ sym (lookup-delete_other f.id k hs n ∙ o k n);
          infos = λ k n. lookup-store_other f.id k i r.start_infos n;
          states = λ k. refl;
          db = refl;
          pulls = refl;
          failures = refl;
        } in
      rw (ap (folder_running_locked calls f) added ∙ ran) record {
        handlers = a.handlers;
        infos = λ k.
            at_key f.id (delete f.id s.start_infos) s.start_infos
              (lookup-delete_self f.id s.start_infos
                ∙ sym (
                    ap (lookup f.id) (started_infos calls f i known)
                    ∙ lookup-delete_self f.id known.start_infos))
              (λ j n. lookup-delete_other f.id j s.start_infos n) k
            ∙ a.infos k;
        states = a.states;
        db = a.db;
        pulls = a.pulls;
        failures = a.failures;
      }

  -- The folder first.
  registered_first :
      (f : Folder) (i : StartInfo) (r : Registry S) (hs : List (String × Handler))
      → add_index_info calls f.id i (with_state f r hs)
        ≡ start_locked calls f i (with_state f r (delete f.id hs))
  unfolding add_index_info
  registered_first f i r hs = rw (lookup-store_self f.id f r.folder_states, add_index_info) refl

  either_order_running :
      (f : Folder) (i : StartInfo) (r : Registry S)
      → lookup f.id r.start_infos ≡ none
      → lookup f.id r.folder_states ≡ none
      → Agree
          (folder_running_locked calls f (add_index_info calls f.id i r))
          (add_index_info calls f.id i (folder_running_locked calls f r))
  either_order_running f i r p q =
      let b = running_idle f r p in
      rw (ap (add_index_info calls f.id i) b.1 ∙ registered_first f i r b.0)
        (announced_first f i r q b.0 b.2)

  register_running :
      (device : ℕ) (f : Folder) (r : Registry S)
      → shared_with f.devices device ≡ true
      → f.paused ≡ false
      → register_folder_state calls device f r ≡ folder_running_locked calls f r
  unfolding register_folder_state
  register_running device f r s p =
      ap
        (λ b.
          if not b
          then remove calls f.id r
          else if f.paused
          then folder_paused_locked calls f.id r
          else folder_running_locked calls f r)
        s
      ∙ ap (λ b. if b then folder_paused_locked calls f.id r else folder_running_locked calls f r) p

  -- A folder that is shared with the device and not paused, with no start info and no state of it in
  -- the registry, whether a handler of it is there or not: it makes no difference if the other
  -- device's announcement comes first and then the folder's registration, or the other way round.
  -- Every folder then has the same handler, start info and state, the database is the same, and the
  -- same runners were asked to pull.
  pub either_order :
      (device : ℕ) (f : Folder) (i : StartInfo) (r : Registry S)
      → shared_with f.devices device ≡ true
      → f.paused ≡ false
      → lookup f.id r.start_infos ≡ none
      → lookup f.id r.folder_states ≡ none
      → Agree
          (register_folder_state calls device f (add_index_info calls f.id i r))
          (add_index_info calls f.id i (register_folder_state calls device f r))
  either_order device f i r s p a b =
      rw
        (
          register_running device f (add_index_info calls f.id i r) s p,
          register_running device f r s p,
        )
        (either_order_running f i r a b)
