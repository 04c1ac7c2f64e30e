-- ===== src/DownloadState/Round.antt =====
-- A round of the first loop of `update` of lib/model/sentdownloadstate.go, and the mirror after it.
use Prim.Native.String.{String}
use vidsync_app.Base.{
  ℕ, ◌≤◌, ◌≡◌, ◌≢◌, refl, sym, ap, ◌∙◌, subst, inl, inr, Bool, true, false, not, ◌||◌, ◌&&◌, List,
  [], ◌∷◌, ◌++◌, Option, none, some, length, drop, ltb, ℤ, eqb_ℤ, eqb_ℤ-eq, arith, append-nil,
  Bool-cases, Option-cases,
}
use vidsync_app.Vector.{Vector, equal_to}
use vidsync_app.DownloadState.Assoc.{
  key_cases, lookup, store, delete, lookup-store_self, lookup-store_other, lookup-delete_self,
  lookup-delete_other,
}
use vidsync_app.DownloadState.Remote as Remote
use vidsync_app.DownloadState.Remote.{FileState, FolderState, known_version, appended, update_file}
use vidsync_app.DownloadState.Sent.{
  Puller, SentFile, SentFolder, Step, forget_update, append_update, sent_file, new_updates,
  send_new, update_puller,
}
use vidsync_app.DownloadState.Mirror.{
  view, view_option, Agree, store-Agree, forget_known, append_absent, append_known,
}

-- The round of one puller does not panic, the other device follows it, and other files stay.
abbrev pub Follows : String → SentFolder → FolderState → Option Step → Type 0
Follows k s r o =
    (st : Step) × (o ≡ some st)
    × Agree st.0 (Remote.update r st.1)
    × ((j : String) → k ≢ j → lookup j st.0 ≡ lookup j s)

-- `Available` only grows while the puller works on one version.
abbrev pub Extends : SentFolder → Puller → Type 0
Extends s p =
    (f : SentFile)
    → lookup p.name s ≡ some f
    → equal_to p.version f.version ≡ true
    → p.created ≡ f.created
    → length f.block_indexes ≤ length p.available

follow_new :
    (s : SentFolder) (r : FolderState) (p : Puller)
    → Agree s r
    → lookup p.name s ≡ none
    → Follows p.name s r (update_puller s p)
unfolding update_puller Remote.update
follow_new s r p h e = elim (Bool-cases (ltb 0 (length p.available))) [
  | inl some_blocks ↦ (
    (store p.name (sent_file p) s, append_update p.name p.version p.available p.block_size ∷ []),
    rw (e, update_puller) (rw (some_blocks) refl),
    subst (Agree (store p.name (sent_file p) s))
        (sym (append_absent r p (h p.name ∙ ap view_option e)))
        (store-Agree s r r p.name (sent_file p) h (λ j n. refl)),
    λ j n. lookup-store_other p.name j (sent_file p) s n,
  )
  | inr no_blocks ↦ ((s, []), rw (e, update_puller) (rw (no_blocks) refl), h, λ j n. refl)
]

follow_replaced :
    (s : SentFolder) (r : FolderState) (p : Puller) (f : SentFile)
    → Agree s r
    → lookup p.name s ≡ some f
    → Agree (store p.name (sent_file p) s) (
        Remote.update r (
          forget_update p.name f.version
          ∷ append_update p.name p.version p.available p.block_size
          ∷ []))
unfolding Remote.update
follow_replaced s r p f h e =
    rw
      (
        forget_known r p.name (view f) (h p.name ∙ ap view_option e),
        append_absent (delete p.name r) p (lookup-delete_self p.name r),
      )
      (store-Agree s r (delete p.name r) p.name (sent_file p) h
        (λ j n. lookup-delete_other p.name j r n))

same-Agree :
    (s : SentFolder) (r : FolderState) (k : String) (f : SentFile)
    → Agree s r
    → lookup k r ≡ some (view f)
    → Agree (store k f s) r
same-Agree s r k f h e j = elim (key_cases k j) [
  | inl (p, _) ↦
      subst (λ i. lookup i r ≡ view_option (lookup i (store k f s))) p
        (e ∙ sym (ap view_option (lookup-store_self k f s)))
  | inr (n, _) ↦ h j ∙ sym (ap view_option (lookup-store_other k j f s n))
]

no_length {ℓ} : {A : Type ℓ} (xs : List A) → ltb 0 (length xs) ≡ false → xs ≡ []
no_length [] h = refl
no_length (x ∷ xs) h = absurd (ground arith)

update-new_updates :
    (r : FolderState) (k : String) (f : FileState) (ns : List ℤ) (size : ℤ)
    → lookup k r ≡ some f
    → ltb 0 (length ns) ≡ true
    → Remote.update r (new_updates k f.version ns size)
      ≡ store k (record f { block_indexes = f.block_indexes ++ ns }) r
unfolding new_updates Remote.update
update-new_updates r k f ns size e more = rw (more, new_updates) (append_known r k f ns size e)

update-no_updates :
    (r : FolderState) (k : String) (v : Vector) (ns : List ℤ) (size : ℤ)
    → ltb 0 (length ns) ≡ false
    → Remote.update r (new_updates k v ns size) ≡ r
unfolding new_updates Remote.update
update-no_updates r k v ns size less = rw (less, new_updates) refl

follow_grown :
    (s : SentFolder) (r : FolderState) (p : Puller) (f : SentFile)
    → Agree s r
    → lookup p.name s ≡ some f
    → Agree (send_new s p f).0 (Remote.update r (send_new s p f).1)
unfolding send_new
follow_grown s r p f h e =
    let new = drop (length f.block_indexes) p.available in
    let known = h p.name ∙ ap view_option e in
    let grown = record f {
      block_indexes = f.block_indexes ++ new;
      updated = p.available_updated;
    } in
    elim (Bool-cases (ltb 0 (length new))) [
      | inl more ↦
          subst (Agree (store p.name grown s))
            (sym (update-new_updates r p.name (view f) new p.block_size known more))
            (store-Agree s r r p.name grown h (λ j n. refl))
      | inr less ↦
          subst (Agree (store p.name grown s))
            (sym (update-no_updates r p.name f.version new p.block_size less))
            (same-Agree s r p.name grown h (
              known
              ∙ ap (λ ns. some (record (view f) { block_indexes = ns }))
                  (sym (append-nil f.block_indexes)
                    ∙ ap (λ ns. f.block_indexes ++ ns) (sym (no_length new less)))))
    ]

-- What the second test of a round has found when it goes on to the last part.
same_version : (a b : Bool) → (not a || not b) ≡ false → (a ≡ true) × (b ≡ true)
same_version a b h = ground arith

le→ltb_false : (a b : ℕ) → a ≤ b → ltb b a ≡ false
le→ltb_false a b h = ground arith

follow_known :
    (s : SentFolder) (r : FolderState) (p : Puller) (f : SentFile)
    → Agree s r
    → Extends s p
    → lookup p.name s ≡ some f
    → Follows p.name s r (update_puller s p)
unfolding update_puller
follow_known s r p f h grows e =
    elim (Bool-cases (eqb_ℤ p.available_updated f.updated && equal_to p.version f.version)) [
      | inl same ↦
          ((s, []), rw (e, update_puller) (rw (same) refl), unfold Remote.update in h, λ j n. refl)
      | inr changed ↦
          elim (Bool-cases
            (not (equal_to p.version f.version) || not (eqb_ℤ p.created f.created))) [
              | inl other ↦ (
                (
                  store p.name (sent_file p) s,
                  forget_update p.name f.version
                      ∷ append_update p.name p.version p.available p.block_size
                      ∷ [],
                ),
                rw (e, update_puller) (rw (changed, other) refl),
                follow_replaced s r p f h e,
                λ j n. lookup-store_other p.name j (sent_file p) s n,
              )
              | inr on ↦
                  let (v, c) = same_version _ _ on in
                  let fits = grows f e v (eqb_ℤ-eq _ _ c) in
                  (
                    send_new s p f,
                    rw (e, update_puller) (rw (changed, on, le→ltb_false _ _ fits) refl),
                    follow_grown s r p f h e,
                    unfold send_new in λ j n. lookup-store_other p.name j _ s n,
                  )
            ]
    ]

pub puller-Follows :
    (s : SentFolder) (r : FolderState) (p : Puller)
    → Agree s r
    → Extends s p
    → Follows p.name s r (update_puller s p)
puller-Follows s r p h grows = elim (Option-cases (lookup p.name s)) [
  | inl e ↦ follow_new s r p h e
  | inr (f, e) ↦ follow_known s r p f h grows e
]
