-- ===== src/DownloadState/Sync.antt =====
-- After the updates of lib/model/sentdownloadstate.go, the state of
-- lib/model/devicedownloadstate.go mirrors the new state.
use Prim.Native.String.{String}
use vidsync_app.Base.{
  ◌≡◌, ◌≢◌, refl, sym, ap, ◌∙◌, subst, ◌⊎◌, inl, inr, Bool, true, false, List, [], ◌∷◌, ◌++◌, none,
  some, Bool-cases, All,
}
use vidsync_app.Vector.{Vector}
use vidsync_app.Messages.Progress.{FileDownloadProgressUpdate}
use vidsync_app.DownloadState.Assoc.{
  key_cases, str_eq-false, lookup, lookup-hit, str_eq_refl, lookup-miss, same_head,
  lookup-delete_self, lookup-delete_other,
}
use vidsync_app.DownloadState.Remote as Remote
use vidsync_app.DownloadState.Remote.{FolderState, known_version, update_file}
use vidsync_app.DownloadState.Sent as Sent
use vidsync_app.DownloadState.Sent.{
  Puller, SentFile, SentFolder, Step, forget_update, update_puller, update_pullers, is_seen, kept,
  forgotten, destroy,
}
use vidsync_app.DownloadState.Mirror.{view, view_option, Agree, forget_known, forget_absent}
use vidsync_app.DownloadState.Round.{Extends, puller-Follows}

update-append :
    (r : FolderState) (us vs : List FileDownloadProgressUpdate)
    → Remote.update r (us ++ vs) ≡ Remote.update (Remote.update r us) vs
unfolding Remote.update
update-append r [] vs = refl
update-append r (u ∷ us) vs = update-append (update_file r u) us vs

-- The files that the pullers work on are different ones.
abbrev pub Distinct : List Puller → Type 0
Distinct [] = Unit
Distinct (p ∷ ps) = All (λ q. p.name ≢ q.name) ps × Distinct ps

Extends-frame :
    (s t : SentFolder) (k : String)
    → ((j : String) → k ≢ j → lookup j t ≡ lookup j s)
    → (ps : List Puller) → All (λ q. k ≢ q.name) ps
    → All (Extends s) ps
    → All (Extends t) ps
Extends-frame s t k same [] n h = tt
Extends-frame s t k same (p ∷ ps) n h =
    (λ f e. h.0 f (sym (same p.name n.0) ∙ e), Extends-frame s t k same ps n.1 h.1)

pullers-Agree :
    (s : SentFolder) (r : FolderState) (ps : List Puller)
    → Agree s r
    → Distinct ps
    → All (Extends s) ps
    → (st : Step) × (update_pullers s ps ≡ some st) × Agree st.0 (Remote.update r st.1)
unfolding update_pullers
pullers-Agree s r [] h d grows = ((s, []), refl, unfold Remote.update in h)
pullers-Agree s r (p ∷ ps) h d grows =
    let (st, e, agree, same) = puller-Follows s r p h grows.0 in
    let later = Extends-frame s st.0 p.name same ps d.0 grows.1 in
    let (st2, e2, agree2) = pullers-Agree st.0 (Remote.update r st.1) ps agree d.1 later in
    (
      (st2.0, st.1 ++ st2.1),
      rw (e, update_pullers) (rw (e2) refl),
      subst (Agree st2.0) (sym (update-append r st.1 st2.1)) agree2,
    )

-- The loop that forgets.
forget_other :
    (r : FolderState) (k j : String) (v : Vector)
    → k ≢ j
    → lookup j (update_file r (forget_update k v)) ≡ lookup j r
unfolding update_file
forget_other r k j v n = elim (Bool-cases (known_version (lookup k r) v)) [
  | inl e ↦ rw (e, update_file) (lookup-delete_other k j r n)
  | inr e ↦ rw (e, update_file) refl
]

-- The update forgets the file, known or not.
forgets :
    (r : FolderState) (k : String) (f : SentFile)
    → (lookup k r ≡ none) ⊎ (lookup k r ≡ some (view f))
    → lookup k (update_file r (forget_update k f.version)) ≡ none
forgets r k f (inl e) = ap (lookup k) (forget_absent r k f.version e) ∙ e
forgets r k f (inr e) = ap (lookup k) (forget_known r k (view f) e) ∙ lookup-delete_self k r

module _ (seen : String → Bool) where
  apart : (k j : String) → seen k ≡ true → seen j ≡ false → k ≢ j
  apart k j a b e = cc (a, b, ap seen e)

  kept_seen : (s : SentFolder) (j : String) → seen j ≡ true → lookup j (kept seen s) ≡ lookup j s
  unfolding kept
  kept_seen [] j h = refl
  kept_seen ((k, f) ∷ s) j h = elim (Bool-cases (seen k)) [
    | inl e ↦ rw (e, kept) (same_head k j f (kept seen s) s (kept_seen s j h))
    | inr e ↦
        let n = str_eq-false k j (λ d. apart j k h e (sym d)) in
        rw (e, kept) (kept_seen s j h ∙ sym (lookup-miss k j f s n))
  ]

  kept_unseen : (s : SentFolder) (j : String) → seen j ≡ false → lookup j (kept seen s) ≡ none
  unfolding kept
  kept_unseen [] j h = unfold lookup in refl
  kept_unseen ((k, f) ∷ s) j h = elim (Bool-cases (seen k)) [
    | inl e ↦
        rw (e, kept)
          (lookup-miss k j f (kept seen s) (str_eq-false k j (apart k j e h)) ∙ kept_unseen s j h)
    | inr e ↦ rw (e, kept) (kept_unseen s j h)
  ]

  forgotten_seen :
      (s : SentFolder) (r : FolderState) (j : String)
      → seen j ≡ true
      → lookup j (Remote.update r (forgotten seen s)) ≡ lookup j r
  unfolding forgotten Remote.update
  forgotten_seen [] r j h = refl
  forgotten_seen ((k, f) ∷ s) r j h = elim (Bool-cases (seen k)) [
    | inl e ↦ rw (e, forgotten) (forgotten_seen s r j h)
    | inr e ↦
        rw (e, forgotten)
          (forgotten_seen s (update_file r (forget_update k f.version)) j h
            ∙ forget_other r k j f.version (λ d. apart j k h e (sym d)))
  ]

  -- What the loop has still to forget on the other device is what it still has before it.
  abbrev Pending : SentFolder → FolderState → Type 0
  Pending s r =
      (j : String) → seen j ≡ false → (lookup j r ≡ none) ⊎ (lookup j r ≡ view_option (lookup j s))

  forget-Pending :
      (s : SentFolder) (r : FolderState) (k : String) (f : SentFile)
      → seen k ≡ false
      → Pending ((k, f) ∷ s) r
      → Pending s (update_file r (forget_update k f.version))
  forget-Pending s r k f u h j v = elim (key_cases k j) [
    | inl (p, _) ↦ inl (
        subst (λ i. lookup i (update_file r (forget_update k f.version)) ≡ none) p
          (forgets r k f (elim (h k u) [
            | inl e ↦ inl e
            | inr e ↦ inr (e ∙ ap view_option (lookup-hit k k f s (str_eq_refl k)))
          ])))
    | inr (n, d) ↦
        let frame = forget_other r k j f.version n in
        elim (h j v) [
          | inl e ↦ inl (frame ∙ e)
          | inr e ↦ inr (frame ∙ e ∙ ap view_option (lookup-miss k j f s d))
        ]
  ]

  forgotten_unseen :
      (s : SentFolder) (r : FolderState) (j : String)
      → Pending s r
      → seen j ≡ false
      → lookup j (Remote.update r (forgotten seen s)) ≡ none
  unfolding forgotten Remote.update
  forgotten_unseen [] r j h u = elim (h j u) [ inl e ↦ e | inr e ↦ unfold lookup in e ]
  forgotten_unseen ((k, f) ∷ s) r j h u = elim (Bool-cases (seen k)) [
    | inl e ↦
        rw (e, forgotten)
          (forgotten_unseen s r j
            (λ i v.
              subst (λ o. (lookup i r ≡ none) ⊎ (lookup i r ≡ view_option o))
                (lookup-miss k i f s (str_eq-false k i (apart k i e v))) (h i v))
            u)
    | inr e ↦
        rw (e, forgotten)
          (forgotten_unseen s (update_file r (forget_update k f.version)) j
            (forget-Pending s r k f e h) u)
  ]

  forgotten-Agree :
      (s : SentFolder) (r : FolderState)
      → Agree s r
      → Agree (kept seen s) (Remote.update r (forgotten seen s))
  forgotten-Agree s r h j = elim (Bool-cases (seen j)) [
    | inl e ↦ forgotten_seen s r j e ∙ h j ∙ sym (ap view_option (kept_seen s j e))
    | inr e ↦ forgotten_unseen s r j (λ i v. inr (h i)) e ∙ sym (ap view_option (kept_unseen s j e))
  ]

-- When the other device knows what this one has said of each file of a folder, then after `update`
-- and after the other device has taken in the updates that it returns, it knows it again. `update`
-- does not panic, if the pullers work on different files and a puller that goes on with a file has
-- at least as many blocks as were announced.
pub update-Agree :
    (s : SentFolder) (r : FolderState) (ps : List Puller)
    → Agree s r
    → Distinct ps
    → All (Extends s) ps
    → (st : Step) × (Sent.update s ps ≡ some st) × Agree st.0 (Remote.update r st.1)
unfolding Sent.update
update-Agree s r ps h d grows =
    let (st, e, agree) = pullers-Agree s r ps h d grows in
    (
      (kept (is_seen ps) st.0, st.1 ++ forgotten (is_seen ps) st.0),
      rw (e, Sent.update) refl,
      subst (Agree (kept (is_seen ps) st.0))
          (sym (update-append r st.1 (forgotten (is_seen ps) st.0)))
          (forgotten-Agree (is_seen ps) st.0 (Remote.update r st.1) agree),
    )

-- `destroy` leaves no file behind, and its updates make the other device forget every file of the
-- folder that it knew from this one.
pub destroy_lem :
    (s : SentFolder) (r : FolderState)
    → Agree s r
    → (name : String)
    → (lookup name (destroy s).0 ≡ none) × (lookup name (Remote.update r (destroy s).1) ≡ none)
unfolding destroy
destroy_lem s r h name = (
  kept_unseen (λ _. false) s name refl,
  forgotten_unseen (λ _. false) s r name (λ i v. inr (h i)) refl,
)
