-- ===== src/IndexHandler/Registry/History.antt =====
-- Every method of the registry of lib/model/indexhandler.go, in any order.
use Prim.Native.String.{String}
use vidsync_app.Base.{
  ℕ, ◌≡◌, ◌≢◌, refl, sym, ◌∙◌, inl, inr, Bool, true, false, not, List, [], ◌∷◌, none, some,
  Option-cases, Bool-cases, if◌then◌else◌,
}
use vidsync_app.DownloadState.Assoc.{
  key_cases, lookup, store, delete, lookup-store_self, lookup-store_other, lookup-delete_self,
  lookup-delete_other, lookup-miss, same_head,
}
use vidsync_app.IndexHandler.{resume}
use vidsync_app.IndexHandler.Registry.{
  Folder, StartInfo, Indexes, Registry, new_registry, shared_with, is_excepted, keep_excepted,
  start_locked, add_index_info, remove, remove_all_except, folder_paused_locked,
  folder_running_locked, register_folder_state,
}
use vidsync_app.IndexHandler.Registry.Row.{Row-idle, Row-resumed, Row-cleared, Row-uninformed}
use vidsync_app.IndexHandler.Registry.Registered.{
  ValidAt, IsValid, gathered, entries, start_locked-IsValid, add_index_info-IsValid, remove-IsValid,
  folder_paused_locked-IsValid, new_registry-IsValid,
}

module _ {V : Type 0} (except : List String) (k : String) where
  kept :
      (m : List (String × V))
      → is_excepted k except ≡ true
      → lookup k (keep_excepted except m) ≡ lookup k m
  unfolding keep_excepted
  kept [] e = refl
  kept ((j, v) ∷ m) e = elim (Bool-cases (is_excepted j except)) [
    | inl q ↦ rw (q, keep_excepted) (same_head j k v (keep_excepted except m) m (kept m e))
    | inr q ↦ elim (key_cases j k) [
      | inl (p, _) ↦ cc (p, q, e)
      | inr (_, p) ↦ rw (q, keep_excepted) (kept m e ∙ sym (lookup-miss j k v m p))
    ]
  ]

  dropped :
      (m : List (String × V))
      → is_excepted k except ≡ false
      → lookup k (keep_excepted except m) ≡ none
  unfolding keep_excepted lookup
  dropped [] e = refl
  dropped ((j, v) ∷ m) e = elim (Bool-cases (is_excepted j except)) [
    | inl q ↦ elim (key_cases j k) [
      | inl (p, _) ↦ cc (p, q, e)
      | inr (_, p) ↦
          rw (q, keep_excepted) (lookup-miss j k v (keep_excepted except m) p ∙ dropped m e)
    ]
    | inr q ↦ rw (q, keep_excepted) (dropped m e)
  ]

-- A call of one of the exported methods.
pub data Call : Type 0 where
  adds : (folder : String) (info : StartInfo) → Call
  removes : (folder : String) → Call
  removes_all_except : (except : List String) → Call
  registers : (folder : Folder) → Call

either_IsValid :
    {S : Type 0} (b : Bool) (r t : Registry S)
    → IsValid r
    → IsValid t
    → IsValid (if b then r else t)
either_IsValid true r t v w = v
either_IsValid false r t v w = w

module _ {S : Type 0} (calls : Indexes S) where
  remove_all_except-IsValid :
      (except : List String) (r : Registry S)
      → IsValid r
      → IsValid (remove_all_except calls except r)
  unfolding remove_all_except
  remove_all_except-IsValid except r v k =
      let t = remove_all_except calls except r in
      elim (Bool-cases (is_excepted k except)) [
        | inl q ↦ entries t (kept except k r.start_infos q) (kept except k r.handlers q) refl (v k)
        | inr q ↦
            entries t (dropped except k r.start_infos q) (dropped except k r.handlers q) refl (
              Row-cleared k (lookup k r.start_infos) (lookup k r.handlers)
                (lookup k r.folder_states) (v k))
      ]

  -- Behind the second `delete` of `folderRunningLocked`.
  uninformed :
      (id : String) (r : Registry S)
      → IsValid r
      → IsValid (record r { start_infos = delete id r.start_infos })
  uninformed id r v =
      let t : Registry S = record r { start_infos = delete id r.start_infos } in
      gathered id t
        (entries t (lookup-delete_self id r.start_infos) refl refl (
          Row-uninformed id (lookup id r.start_infos) (lookup id r.handlers)
            (lookup id r.folder_states) (v id)))
        (λ k n. entries t (lookup-delete_other id k r.start_infos n) refl refl (v k))

  folder_running_locked-IsValid :
      (f : Folder) (r : Registry S) → IsValid r → IsValid (folder_running_locked calls f r)
  unfolding folder_running_locked
  folder_running_locked-IsValid f r v =
      let known : Registry S = record r { folder_states = store f.id f r.folder_states } in
      let self = lookup-store_self f.id f r.folder_states in
      let others : (k : String) → f.id ≢ k → ValidAt k known =
        λ k n. entries known refl refl (lookup-store_other f.id k f r.folder_states n) (v k) in
      elim (Option-cases (lookup f.id r.start_infos)) [
        | inr (i, q) ↦
            let idle = ((v f.id).waiting i q).0 in
            rw (q, idle, folder_running_locked)
              (uninformed f.id (start_locked calls f i known)
                (start_locked-IsValid calls f i known self others))
        | inl q ↦ elim (Option-cases (lookup f.id r.handlers)) [
          | inl p ↦
              rw (q, p, folder_running_locked)
                (gathered f.id known
                  (entries known q p self (Row-idle f.id (some f) (λ x e. cc (e)))) others)
          | inr (h, p) ↦
              let t : Registry S = record known { handlers = store f.id (resume h) r.handlers } in
              rw (q, p, folder_running_locked)
                (gathered f.id t
                  (entries t q (lookup-store_self f.id (resume h) r.handlers) self
                    (Row-resumed f.id h f (((v f.id).running h p).0) refl))
                  (λ k n.
                    entries t refl (lookup-store_other f.id k (resume h) r.handlers n)
                      (lookup-store_other f.id k f r.folder_states n) (v k)))
        ]
      ]

module _ {S : Type 0} (calls : Indexes S) (device : ℕ) where
  unfoldable pub call : Call → Registry S → Registry S
  unfolding add_index_info remove remove_all_except register_folder_state
  call (adds k i) r = add_index_info calls k i r
  call (removes k) r = remove calls k r
  call (removes_all_except ks) r = remove_all_except calls ks r
  call (registers f) r = register_folder_state calls device f r

  unfoldable pub run : List Call → Registry S → Registry S
  unfolding call
  run [] r = r
  run (c ∷ cs) r = run cs (call c r)

  register_folder_state-IsValid :
      (f : Folder) (r : Registry S) → IsValid r → IsValid (register_folder_state calls device f r)
  unfolding register_folder_state
  register_folder_state-IsValid f r v =
      either_IsValid (not (shared_with f.devices device)) (remove calls f.id r)
        (if f.paused then folder_paused_locked calls f.id r else folder_running_locked calls f r)
        (remove-IsValid calls f.id r v)
        (either_IsValid f.paused (folder_paused_locked calls f.id r)
          (folder_running_locked calls f r) (folder_paused_locked-IsValid calls f.id r v)
          (folder_running_locked-IsValid calls f r v))

  calls-IsValid : (cs : List Call) (r : Registry S) → IsValid r → IsValid (run cs r)
  unfolding run call
  calls-IsValid [] r v = v
  calls-IsValid (adds k i ∷ cs) r v =
      calls-IsValid cs (add_index_info calls k i r) (add_index_info-IsValid calls k i r v)
  calls-IsValid (removes k ∷ cs) r v =
      calls-IsValid cs (remove calls k r) (remove-IsValid calls k r v)
  calls-IsValid (removes_all_except ks ∷ cs) r v =
      calls-IsValid cs (remove_all_except calls ks r) (remove_all_except-IsValid calls ks r v)
  calls-IsValid (registers f ∷ cs) r v =
      calls-IsValid cs (register_folder_state calls device f r)
        (register_folder_state-IsValid f r v)

  -- Whatever calls a new registry gets, in whatever order and with whatever errors of the database:
  -- of every folder, a start info waits only where there is neither a handler nor a folder state, a
  -- handler is one for that folder and is paused exactly if no state of the folder is registered,
  -- and a registered state is that folder's.
  pub run-IsValid : (cs : List Call) (s : S) → IsValid (run cs (new_registry s))
  run-IsValid cs s = calls-IsValid cs (new_registry s) (new_registry-IsValid s)
