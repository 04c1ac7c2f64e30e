-- ===== src/DownloadState/Mirror.antt =====
-- When the state of lib/model/devicedownloadstate.go mirrors that of
-- lib/model/sentdownloadstate.go, and what single updates do to the mirror.
use Prim.Native.String.{String}
use vidsync_app.Base.{
  ◌≡◌, ◌≢◌, refl, sym, ap, ◌∙◌, subst, inl, inr, true, List, [], ◌∷◌, ◌++◌, Option, none, some, ℤ,
  arith,
}
use vidsync_app.Vector.{Vector, compare_loop, judge, compare, equal_to}
use vidsync_app.DownloadState.Assoc.{
  key_cases, lookup, store, delete, lookup-store_self, lookup-store_other,
}
use vidsync_app.DownloadState.Remote.{FileState, FolderState, known_version, appended, update_file}
use vidsync_app.DownloadState.Sent.{
  Puller, SentFile, SentFolder, forget_update, append_update, sent_file,
}

compare_loop_refl : (v : Vector) (o : _) → compare_loop v v o ≡ o
unfolding compare_loop judge
compare_loop_refl [] o = refl
compare_loop_refl (c ∷ v) o = ground (arith, compare_loop_refl v o)

pub equal_to_refl : (v : Vector) → equal_to v v ≡ true
unfolding equal_to compare
equal_to_refl v = rw (compare_loop_refl v _) refl

-- What the other device should have of a file.
abbrev pub view : SentFile → FileState
view f = record { block_indexes = f.block_indexes; version = f.version; block_size = f.block_size }

abbrev pub view_option : Option SentFile → Option FileState
view_option none = none
view_option (some f) = some (view f)

-- The other device knows, of every file, what this one has said of it.
abbrev pub Agree : SentFolder → FolderState → Type 0
Agree s r = (name : String) → lookup name r ≡ view_option (lookup name s)

pub store-Agree :
    (s : SentFolder) (r q : FolderState) (k : String) (f : SentFile)
    → Agree s r
    → ((j : String) → k ≢ j → lookup j q ≡ lookup j r)
    → Agree (store k f s) (store k (view f) q)
store-Agree s r q k f h other j = elim (key_cases k j) [
  | inl (e, _) ↦
      subst (λ i. lookup i (store k (view f) q) ≡ view_option (lookup i (store k f s))) e
        (lookup-store_self k (view f) q ∙ sym (ap view_option (lookup-store_self k f s)))
  | inr (n, _) ↦
      lookup-store_other k j (view f) q n
      ∙ other j n
      ∙ h j
      ∙ sym (ap view_option (lookup-store_other k j f s n))
]

pub forget_known :
    (r : FolderState) (k : String) (f : FileState)
    → lookup k r ≡ some f
    → update_file r (forget_update k f.version) ≡ delete k r
unfolding update_file known_version
forget_known r k f e = rw (e, update_file) (rw (equal_to_refl f.version) refl)

pub forget_absent :
    (r : FolderState) (k : String) (v : Vector)
    → lookup k r ≡ none
    → update_file r (forget_update k v) ≡ r
unfolding update_file known_version
forget_absent r k v e = rw (e, update_file) refl

pub append_absent :
    (r : FolderState) (p : Puller)
    → lookup p.name r ≡ none
    → update_file r (append_update p.name p.version p.available p.block_size)
      ≡ store p.name (view (sent_file p)) r
unfolding update_file appended
append_absent r p e = rw (e, update_file) refl

pub append_known :
    (r : FolderState) (k : String) (f : FileState) (ns : List ℤ) (size : ℤ)
    → lookup k r ≡ some f
    → update_file r (append_update k f.version ns size)
      ≡ store k (record f { block_indexes = f.block_indexes ++ ns }) r
unfolding update_file appended
append_known r k f ns size e = rw (e, update_file) (rw (equal_to_refl f.version, appended) refl)
