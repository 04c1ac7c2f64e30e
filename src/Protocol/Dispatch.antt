-- ===== src/Protocol/Dispatch.antt =====
-- `dispatcherLoop` of lib/protocol/protocol.go: what is done with the messages that arrive.
use vidsync_app.Base.{List, [], ◌∷◌, ◌++◌, Option, none, some, if◌then◌else◌, ℤ, pos, ltb_ℤ, leb_ℤ}
use vidsync_app.DeviceId.Text.{Bytes, codes}
use vidsync_app.DeviceId.Luhn.{Returned, ok, err}
use vidsync_app.Messages.Index.{
  Index, WireIndex, index_from_wire, IndexUpdate, WireIndexUpdate, index_update_from_wire,
}
use vidsync_app.Messages.Requests.{
  Request, WireRequest, request_from_wire, Response, WireResponse, response_from_wire,
}
use vidsync_app.Messages.Progress.{
  DownloadProgress, WireDownloadProgress, download_progress_from_wire,
}
use vidsync_app.Messages.Cluster.{ClusterConfig, WireClusterConfig, cluster_config_from_wire}
use vidsync_app.Protocol.Check.{
  Failure, invalid_state, closed_by_remote, request_too_small, request_too_large, handling,
  check_filename, check_index_consistency,
}

-- The messages of internal/gen/bep that the reader puts into the inbox.
pub data WireMessage : Type 0 where
  cluster_config : WireClusterConfig → WireMessage
  index : WireIndex → WireMessage
  index_update : WireIndexUpdate → WireMessage
  request : WireRequest → WireMessage
  response : WireResponse → WireMessage
  download_progress : WireDownloadProgress → WireMessage
  ping : WireMessage
  close : WireMessage

-- What the loop hands on: to the model, to a goroutine with the request, or to who waits for the
-- response. A nil message cannot arrive; the conversions keep it apart.
pub data Call : Type 0 where
  on_cluster_config : Option ClusterConfig → Call
  on_index : Option Index → Call
  on_index_update : Option IndexUpdate → Call
  on_request : Request → Call
  on_response : Response → Call
  on_download_progress : DownloadProgress → Call

-- The variable `state`.
pub data State : Type 0 where
  initial ready : State

-- `2 * MaxBlockSize`.
abbrev pub max_request_size : ℤ
max_request_size = pos 33554432

-- The first switch: the new state, or the error.
pub data Admitted : Type 0 where
  admitted : State → Admitted
  refused : Failure → Admitted

unfoldable pub admit_other : State → Admitted
admit_other initial = refused invalid_state
admit_other ready = admitted ready

unfoldable pub admit : State → WireMessage → Admitted
unfolding admit_other
admit s (cluster_config w) = admitted ready
admit s close = refused closed_by_remote
admit s (index w) = admit_other s
admit s (index_update w) = admit_other s
admit s (request w) = admit_other s
admit s (response w) = admit_other s
admit s (download_progress w) = admit_other s
admit s ping = admit_other s

-- The second switch, as far as the call: none for a ping, the error of a check, or the panic of
-- `clusterConfigFromWire`.
pub data Prepared : Type 0 where
  nothing : Prepared
  calls : Call → Prepared
  rejected : Failure → Prepared
  panics : Prepared

abbrev pub checked : Option Failure → Call → Prepared
checked none c = calls c
checked (some e) c = rejected e

unfoldable pub prepare_request : WireRequest → Prepared
unfolding check_filename
prepare_request w = elim (check_filename (codes w.name)) [
  | some e ↦ rejected e
  | none ↦
      if leb_ℤ w.size (pos 0)
      then rejected request_too_small
      else if ltb_ℤ max_request_size w.size
      then rejected request_too_large
      else calls (on_request (request_from_wire w))
]

abbrev pub files_of_index : Option Index → Option Failure
files_of_index none = none
files_of_index (some m) = check_index_consistency m.files

abbrev pub files_of_update : Option IndexUpdate → Option Failure
files_of_update none = none
files_of_update (some m) = check_index_consistency m.files

abbrev pub from_cluster : Returned (Option ClusterConfig) → Prepared
from_cluster (ok c) = calls (on_cluster_config c)
from_cluster (err e) = panics

unfoldable pub prepare : WireMessage → Prepared
unfolding prepare_request check_index_consistency
prepare (cluster_config w) = from_cluster (cluster_config_from_wire (some w))
prepare (index w) =
    checked (files_of_index (index_from_wire (some w))) (on_index (index_from_wire (some w)))
prepare (index_update w) =
    checked (files_of_update (index_update_from_wire (some w)))
      (on_index_update (index_update_from_wire (some w)))
prepare (request w) = prepare_request w
prepare (response w) = calls (on_response (response_from_wire w))
prepare (download_progress w) = calls (on_download_progress (download_progress_from_wire w))
prepare ping = nothing
prepare close = nothing

-- How the loop stands: it waits for the next message, it has returned an error, or it has panicked.
pub data Standing : Type 0 where
  waits : State → Standing
  returned : Failure → Standing
  panicked : Standing

pub record Run : Type 0 where
  pub handed : List Call
  pub standing : Standing

-- The model's answers: the error of a call after those before it. A request and a response give none.
module _ (model : List Call → Call → Option Bytes) where
  abbrev pub answer : List Call → Call → Option Bytes
  answer before (on_request r) = none
  answer before (on_response r) = none
  answer before (on_cluster_config c) = model before (on_cluster_config c)
  answer before (on_index m) = model before (on_index m)
  answer before (on_index_update m) = model before (on_index_update m)
  answer before (on_download_progress p) = model before (on_download_progress p)

  abbrev pub stop_with : List Call → Standing → Run
  stop_with before s = record { handed = before; standing = s }

  unfoldable pub dispatcher_loop : State → List Call → List WireMessage → Run
  unfolding admit prepare
  dispatcher_loop s before [] = stop_with before (waits s)
  dispatcher_loop s before (m ∷ ms) = elim (admit s m) [
    | refused e ↦ stop_with before (returned e)
    | admitted t ↦ elim (prepare m) [
      | nothing ↦ dispatcher_loop t before ms
      | rejected e ↦ stop_with before (returned e)
      | panics ↦ stop_with before panicked
      | calls c ↦ elim (answer before c) [
        | none ↦ dispatcher_loop t (before ++ (c ∷ [])) ms
        | some e ↦ stop_with (before ++ (c ∷ [])) (returned (handling e))
      ]
    ]
  ]
