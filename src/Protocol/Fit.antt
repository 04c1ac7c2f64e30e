-- ===== src/Protocol/Fit.antt =====
-- What `dispatcherLoop` of lib/protocol/protocol.go makes of one message, and when that is fit to be handed on.
use vidsync_app.Base.{
  ◌≡◌, ◌⊎◌, inl, inr, refl, Bool, true, false, not, ◌&&◌, List, [], ◌∷◌, Option, none, some,
  if◌then◌else◌, pos, ltb_ℤ, leb_ℤ, eqb_ℤ, ◌<ℤ◌, ◌≤ℤ◌, All, Bool-cases, Option-cases, arith,
}
use vidsync_app.DeviceId.Text.{codes}
use vidsync_app.DeviceId.Luhn.{Returned, ok, err}
use vidsync_app.Upgrade.{split}
use vidsync_app.FileInfo.{FileInfo, is_invalid, is_directory, type_file}
use vidsync_app.Messages.Index.{index_from_wire, index_update_from_wire}
use vidsync_app.Messages.Requests.{WireRequest, request_from_wire}
use vidsync_app.Messages.Cluster.{ClusterConfig, cluster_config_from_wire}
use vidsync_app.Protocol.Check.{
  Failure, deleted_has_blocks, directory_has_blocks, file_has_no_blocks, has_blocks, check_filename,
  check_blocks, check_file_info_consistency, check_index_consistency,
}
use vidsync_app.Protocol.Walk.{Proper}
use vidsync_app.Protocol.Filename.{check_filename_iff}
use vidsync_app.Protocol.Dispatch.{
  WireMessage, cluster_config, index, index_update, request, response, download_progress, ping,
  close, Call, on_cluster_config, on_index, on_index_update, on_request, on_response,
  on_download_progress, max_request_size, Prepared, checked, from_cluster, nothing, calls, rejected,
  panics, prepare, prepare_request,
}

-- A file info that may be stored: its name stays below the folder, a deleted file and a directory
-- have no blocks, and a file that is neither deleted nor invalid has some.
pub record Consistent (f : FileInfo) : Type 0 where
  pub name : Proper (split (codes f.name) b'/')
  pub without : (has_blocks f ≡ false) ⊎ ((f.deleted ≡ false) × (is_directory f ≡ false))
  pub with_blocks :
      (has_blocks f ≡ true)
      ⊎ ((f.deleted ≡ true) ⊎ ((is_invalid f ≡ true) ⊎ (eqb_ℤ f.type type_file ≡ false)))

switch_cases :
    (d b i v t : Bool)
    → (if d && b
        then some deleted_has_blocks
        else if i && b
        then some directory_has_blocks
        else if not d && (not v && (t && not b))
        then some file_has_no_blocks
        else none)
      ≡ none
    → ((b ≡ false) ⊎ ((d ≡ false) × (i ≡ false)))
      × ((b ≡ true) ⊎ ((d ≡ true) ⊎ ((v ≡ true) ⊎ (t ≡ false))))
switch_cases d b i v t h = ground arith

check_blocks-cases :
    (f : FileInfo)
    → check_blocks f ≡ none
    → ((has_blocks f ≡ false) ⊎ ((f.deleted ≡ false) × (is_directory f ≡ false)))
      × ((has_blocks f ≡ true)
          ⊎ ((f.deleted ≡ true) ⊎ ((is_invalid f ≡ true) ⊎ (eqb_ℤ f.type type_file ≡ false))))
unfolding check_blocks
check_blocks-cases f h =
    switch_cases f.deleted (has_blocks f) (is_directory f) (is_invalid f) (eqb_ℤ f.type type_file) h

check-Consistent : (f : FileInfo) → check_file_info_consistency f ≡ none → Consistent f
unfolding check_file_info_consistency
check-Consistent f h = elim (Option-cases (check_filename (codes f.name))) [
  | inr (e, q) ↦ absurd (ground arith)
  | inl q ↦
      let b : check_blocks f ≡ none = ground arith in
      let r = check_blocks-cases f b in
      record { name = (check_filename_iff (codes f.name)).0 q; without = r.0; with_blocks = r.1 }
]

check_index-Consistent :
    (fs : List FileInfo) → check_index_consistency fs ≡ none → All Consistent fs
unfolding check_index_consistency
check_index-Consistent [] h = tt
check_index-Consistent (f ∷ fs) h = elim (Option-cases (check_file_info_consistency f)) [
  | inr (e, q) ↦ absurd (ground arith)
  | inl q ↦ (check-Consistent f q, check_index-Consistent fs (ground arith))
]

-- What is handed on is fit for it: indexes hold consistent files, and a request names something below
-- the folder and asks for at least one byte and at most the largest request.
pub FitCall : Call → Type 0
FitCall (on_cluster_config c) = Unit {0}
FitCall (on_index none) = Unit {0}
FitCall (on_index (some m)) = All Consistent m.files
FitCall (on_index_update none) = Unit {0}
FitCall (on_index_update (some m)) = All Consistent m.files
FitCall (on_request r) =
    Proper (split (codes r.name) b'/') × ((pos 0 <ℤ r.size) × (r.size ≤ℤ max_request_size))
FitCall (on_response r) = Unit {0}
FitCall (on_download_progress p) = Unit {0}

-- The first thing that is handed on is a cluster configuration.
unfoldable pub Opens : List Call → Type 0
Opens [] = Unit {0}
Opens (on_cluster_config c ∷ cs) = Unit {0}
Opens (on_index m ∷ cs) = ⊥
Opens (on_index_update m ∷ cs) = ⊥
Opens (on_request r ∷ cs) = ⊥
Opens (on_response r ∷ cs) = ⊥
Opens (on_download_progress p ∷ cs) = ⊥

pub data Fit : Prepared → Type 0 where
  fit_nothing : Fit nothing
  fit_call : {c : Call} → FitCall c → Fit (calls c)
  fit_rejected : {e : Failure} → Fit (rejected e)
  fit_panics : Fit panics

checked-Fit : (o : Option Failure) (c : Call) → (o ≡ none → FitCall c) → Fit (checked o c)
checked-Fit none c h = fit_call (h refl)
checked-Fit (some e) c h = fit_rejected

request-Fit : (w : WireRequest) → Fit (prepare_request w)
unfolding prepare_request FitCall request_from_wire
request-Fit w = elim (Option-cases (check_filename (codes w.name))) [
  | inr (e, q) ↦ rw (q, prepare_request) fit_rejected
  | inl q ↦ elim (Bool-cases (leb_ℤ w.size (pos 0))) [
    | inl s ↦ rw (q, prepare_request) (rw (s) fit_rejected)
    | inr s ↦ elim (Bool-cases (ltb_ℤ max_request_size w.size)) [
      | inl l ↦ rw (q, prepare_request) (rw (s) (rw (l) fit_rejected))
      | inr l ↦
          rw (q, prepare_request)
            (rw (s) (
              rw (l) (
                fit_call (
                  (check_filename_iff (codes w.name)).0 q,
                  (ground (arith, s), ground (arith, l)),
                ))))
    ]
  ]
]

cluster-Fit : (r : Returned (Option ClusterConfig)) → Fit (from_cluster r)
unfolding FitCall
cluster-Fit (ok c) = fit_call tt
cluster-Fit (err e) = fit_panics

pub prepare-Fit : (m : WireMessage) → Fit (prepare m)
unfolding prepare FitCall index_from_wire index_update_from_wire
prepare-Fit (cluster_config w) = cluster-Fit (cluster_config_from_wire (some w))
prepare-Fit (index w) =
    checked-Fit _ (on_index (index_from_wire (some w))) (λ q. check_index-Consistent _ q)
prepare-Fit (index_update w) =
    checked-Fit _ (on_index_update (index_update_from_wire (some w)))
      (λ q. check_index-Consistent _ q)
prepare-Fit (request w) = request-Fit w
prepare-Fit (response w) = fit_call tt
prepare-Fit (download_progress w) = fit_call tt
prepare-Fit ping = fit_nothing
prepare-Fit close = fit_nothing
