-- ===== src/DownloadState/Has.antt =====
-- What `Has` of lib/model/devicedownloadstate.go answers after an update.
use Prim.Native.String.{String}
use vidsync_app.Base.{
  ◌≡◌, ◌≢◌, refl, sym, ap, ◌∙◌, inl, inr, Bool, true, false, ◌||◌, List, [], ◌∷◌, ◌++◌, none, some,
  ℤ, arith, Bool-cases, Option-cases,
}
use vidsync_app.Vector.{Vector, equal_to}
use vidsync_app.DownloadState.Assoc.{lookup, store, lookup-store_self, lookup-store_other}
use vidsync_app.DownloadState.Remote.{
  FileState, FolderState, contains, has_block, update_file, appended,
}
use vidsync_app.DownloadState.Sent.{append_update}
use vidsync_app.DownloadState.Mirror.{equal_to_refl}

contains-append :
    (ms ns : List ℤ) (i : ℤ) → contains (ms ++ ns) i ≡ (contains ns i || contains ms i)
unfolding contains
contains-append [] ns i = ground arith
contains-append (m ∷ ms) ns i = ground (arith, contains-append ms ns i)

-- `has_block`, by what the map holds of the file.
has_lookup :
    (r q : FolderState) (k j : String) (v : Vector) (i : ℤ)
    → lookup k r ≡ lookup j q
    → has_block r k v i ≡ has_block q j v i
unfolding has_block
has_lookup r q k j v i e = rw (e, has_block) refl

has_none :
    (r : FolderState) (k : String) (v : Vector) (i : ℤ)
    → lookup k r ≡ none
    → has_block r k v i ≡ false
unfolding has_block
has_none r k v i e = rw (e, has_block) refl

has_some :
    (r : FolderState) (k : String) (f : FileState) (v : Vector) (i : ℤ)
    → lookup k r ≡ some f
    → equal_to f.version v ≡ true
    → has_block r k v i ≡ contains f.block_indexes i
unfolding has_block
has_some r k f v i e d = rw (e, has_block) (rw (d) refl)

has_other_version :
    (r : FolderState) (k : String) (f : FileState) (v : Vector) (i : ℤ)
    → lookup k r ≡ some f
    → equal_to f.version v ≡ false
    → has_block r k v i ≡ false
unfolding has_block
has_other_version r k f v i e d = rw (e, has_block) (rw (d) refl)

or_false : (b c : Bool) → c ≡ false → b ≡ (b || c)
or_false b c h = ground arith

module _ (r : FolderState) (k : String) (v : Vector) (ns : List ℤ) (size i : ℤ) where
  has_appended_same :
      (f : FileState)
      → lookup k r ≡ some f
      → equal_to f.version v ≡ true
      → has_block (store k (appended (some f) (append_update k v ns size)) r) k v i
        ≡ (contains ns i || has_block r k v i)
  unfolding appended
  has_appended_same f e d =
      rw (d, appended)
        (has_some (store k _ r) k _ v i (lookup-store_self k _ r) d
          ∙ contains-append f.block_indexes ns i
          ∙ ap (λ b. contains ns i || b) (sym (has_some r k f v i e d)))

  has_fresh :
      (f : FileState)
      → f.block_indexes ≡ ns
      → equal_to f.version v ≡ true
      → has_block r k v i ≡ false
      → has_block (store k f r) k v i ≡ (contains ns i || has_block r k v i)
  has_fresh f p d none_before =
      has_some (store k f r) k f v i (lookup-store_self k f r) d
      ∙ ap (λ l. contains l i) p
      ∙ or_false (contains ns i) (has_block r k v i) none_before

  has_appended :
      has_block (store k (appended (lookup k r) (append_update k v ns size)) r) k v i
      ≡ (contains ns i || has_block r k v i)
  unfolding appended
  has_appended = elim (Option-cases (lookup k r)) [
    | inl e ↦ rw (e, appended) (has_fresh _ refl (equal_to_refl v) (has_none r k v i e))
    | inr (f, e) ↦ elim (Bool-cases (equal_to f.version v)) [
      | inl d ↦ rw (e) (has_appended_same f e d)
      | inr d ↦
          rw (e, d, appended) (has_fresh _ refl (equal_to_refl v) (has_other_version r k f v i e d))
    ]
  ]

-- An update that appends blocks to a version of a file makes the device have these blocks of that
-- version, besides the ones of that version that it had. Other files are as before.
pub has_block-append :
    (r : FolderState) (k j : String) (v w : Vector) (ns : List ℤ) (size i : ℤ)
    → k ≢ j
    → (has_block (update_file r (append_update k v ns size)) k v i
        ≡ (contains ns i || has_block r k v i))
      × (has_block (update_file r (append_update k v ns size)) j w i ≡ has_block r j w i)
unfolding update_file appended
has_block-append r k j v w ns size i n = (
  has_appended r k v ns size i,
  has_lookup (store k _ r) r j j w i (lookup-store_other k j _ r n),
)
