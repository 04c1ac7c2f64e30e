-- ===== src/Protocol/Tests.antt =====
-- Runs of lib/protocol/protocol.go, and the theorems at such inputs.
use vidsync_app.Base.{
  ℕ, ◌⊎◌, ◌<◌, ◌≡◌, refl, true, false, List, [], ◌∷◌, Option, none, some, arith, pos, All, ltb,
  Bool-cases, inl, inr,
}
use vidsync_app.DeviceId.Text.{Bytes, codes, bytes_equal}
use vidsync_app.Messages.Requests.{Request, WireRequest, Response, request_to_wire}
use vidsync_app.Protocol.Path.{clean, has_prefix, kind, walk, step_up, join, rebuild}
use vidsync_app.Upgrade.{split}
use vidsync_app.Protocol.Check.{check_filename, unclean_filename, invalid_filename}
use vidsync_app.Protocol.Walk.{Proper}
use vidsync_app.Protocol.Filename.{check_filename_iff}
use vidsync_app.Protocol.Dispatch.{
  WireMessage, cluster_config, index, request as wire_request, ping, close, Call, initial,
  dispatcher_loop,
}
use vidsync_app.Protocol.Fit.{FitCall, Opens}
use vidsync_app.Protocol.Safe.{dispatcher_loop-Fit}
use vidsync_app.Protocol.Awaiting.{
  AsyncResult, Waiting, new_waiting, send_request, deliver, handle_response,
}
use vidsync_app.Protocol.Slots.{
  begin, next, fresh, over, Sound, Reach, request, respond, requested, Waits,
}
use vidsync_app.Protocol.Answers.{Later, now, after, Reach-Sound, request-Answered, request-Lost}

cleans : clean (codes "/a//b/../c/./d") ≡ codes "/a/c/d"
unfolding clean split walk kind step_up rebuild join
cleans = refl

keeps_up : clean (codes "../a/../../b") ≡ codes "../../b"
unfolding clean split walk kind step_up rebuild join
keeps_up = refl

rejects_up : check_filename (codes "../a") ≡ some invalid_filename
unfolding check_filename clean split walk kind step_up rebuild join bytes_equal has_prefix
rejects_up = refl

rejects_unclean : check_filename (codes "a/../../b") ≡ some unclean_filename
unfolding check_filename clean split walk kind step_up rebuild join bytes_equal has_prefix
rejects_unclean = refl

accepts_dots : check_filename (codes "a/..b") ≡ none
unfolding check_filename clean split walk kind step_up rebuild join bytes_equal has_prefix
accepts_dots = refl

accepted_parts : Proper (split (codes "a/..b") b'/')
accepted_parts = (check_filename_iff (codes "a/..b")).0 accepts_dots

abbrev refuse : List Call → Call → Option Bytes
refuse before c = none

abbrev an_answer : AsyncResult
an_answer = record { val = 1 ∷ 2 ∷ []; err = none }

abbrev a_request : Request
a_request = record {
  id = pos 0;
  folder = "videos";
  name = "film.mp4";
  offset = pos 0;
  size = pos 2;
  hash = [];
  from_temporary = false;
  block_no = pos 0;
}

abbrev some_messages : List WireMessage
some_messages =
    cluster_config (record { folders = []; secondary = false })
    ∷ ping
    ∷ index (record { folder = "videos"; files = []; last_sequence = pos 0 })
    ∷ wire_request (request_to_wire a_request)
    ∷ close
    ∷ ping
    ∷ []

dispatcher_loop-Fit_example :
    All FitCall (dispatcher_loop refuse initial [] some_messages).handed
    × Opens (dispatcher_loop refuse initial [] some_messages).handed
dispatcher_loop-Fit_example = dispatcher_loop-Fit refuse some_messages

check_filename_iff_example :
    (check_filename (codes "a/..b") ≡ none → Proper (split (codes "a/..b") b'/'))
    × (Proper (split (codes "a/..b") b'/') → check_filename (codes "a/..b") ≡ none)
check_filename_iff_example = check_filename_iff (codes "a/..b")

abbrev stray : Response
stray = record { id = pos 5; data_bytes = []; code = pos 0 }

abbrev first_answer : Response
first_answer = record { id = pos 0; data_bytes = 1 ∷ 2 ∷ []; code = pos 0 }

abbrev first_sent : Waiting
first_sent = requested new_waiting

sends_first :
    send_request new_waiting a_request
    ≡ some (first_sent, request_to_wire (record a_request { id = pos 0 }))
unfolding send_request new_waiting
sends_first = refl

abbrev first_answered : Waiting
first_answered = handle_response first_sent first_answer

first_reached : Reach first_answered
first_reached =
    next
      (next begin (
        request a_request first_sent (request_to_wire (record a_request { id = pos 0 }))
          sends_first))
      (respond first_answer)

-- The same answer once more.
Reach-Sound_example :
    Sound first_answered
    × ((handle_response first_answered first_answer ≡ first_answered)
        ⊎ ((k : ℕ) × Waits first_answered first_answer.id k))
Reach-Sound_example = Reach-Sound first_answered first_answer first_reached

few : new_waiting.next_id < 2147483648
unfolding new_waiting
few = omega arith

-- Another request is sent, and a stray response comes, before the answer.
abbrev second_sent : Waiting
second_sent = requested (handle_response first_sent stray)

sends_second :
    send_request (handle_response first_sent stray) a_request
    ≡ some (second_sent, request_to_wire (record a_request { id = pos 1 }))
unfolding send_request new_waiting handle_response deliver
sends_second = refl

second_later : Later first_sent second_sent
second_later =
    after (after now (respond stray)) (
      request a_request second_sent (request_to_wire (record a_request { id = pos 1 }))
        sends_second)

first_open : second_sent.shut new_waiting.next_id ≡ false
unfolding new_waiting handle_response deliver
first_open = refl

request-Answered_example :
    (w : WireRequest) × (send_request new_waiting a_request ≡ some (first_sent, w))
    × ((deliver second_sent w.id an_answer).buffer new_waiting.next_id ≡ an_answer ∷ [])
    × ((deliver second_sent w.id an_answer).shut new_waiting.next_id ≡ true)
request-Answered_example =
    request-Answered new_waiting second_sent a_request an_answer begin few second_later first_open

-- After 2^31 requests that are all over.
abbrev many : Waiting
many = record {
  next_id = 2147483648;
  awaiting = λ k. none;
  made = 2147483648;
  buffer = λ c. [];
  shut = λ c. ltb c 2147483648;
}

many-Sound : Sound many
many-Sound = record {
  made = refl;
  slot = λ k. elim (Bool-cases (ltb k 2147483648)) [
    | inl h ↦ over (ground (arith, h)) refl (omega arith) h
    | inr h ↦ fresh (ground (arith, h)) refl refl h
  ];
}

request-Lost_example :
    (t : Waiting) × (w : WireRequest) × (send_request many a_request ≡ some (t, w))
    × (deliver t w.id an_answer ≡ t)
    × (t.awaiting many.next_id ≡ some many.next_id)
request-Lost_example = request-Lost many a_request an_answer many-Sound refl
