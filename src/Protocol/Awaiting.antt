-- ===== src/Protocol/Awaiting.antt =====
-- `Request`, `handleResponse` and the end of the waiting in `internalClose` of lib/protocol/protocol.go,
-- and the error codes of lib/protocol/errors.go.
use vidsync_app.Base.{
  ℕ, zero, suc, ◌||◌, Bool, true, false, List, [], ◌∷◌, ◌++◌, Option, none, some, ◌==◌,
  if◌then◌else◌, ℤ, pos, negsuc, eqb_ℤ,
}
use vidsync_app.DeviceId.Text.{Bytes}
use vidsync_app.Messages.Requests.{ErrorCode, Request, WireRequest, request_to_wire, Response}

-- The errors of a request, and all others.
pub data RequestError : Type 0 where
  no_such_file invalid generic : RequestError
  other : Bytes → RequestError

unfoldable pub code_to_error : ErrorCode → Option RequestError
code_to_error code =
    if eqb_ℤ code (pos 0)
    then none
    else if eqb_ℤ code (pos 2)
    then some no_such_file
    else if eqb_ℤ code (pos 3)
    then some invalid
    else some generic

unfoldable pub error_to_code : Option RequestError → ErrorCode
error_to_code none = pos 0
error_to_code (some no_such_file) = pos 2
error_to_code (some invalid) = pos 3
error_to_code (some generic) = pos 1
error_to_code (some (other text)) = pos 1

pub record AsyncResult : Type 0 where
  pub val : Bytes
  pub err : Option RequestError

-- The map from ids to channels, the channels by number with what lies in them and whether they are
-- closed, and how many were made.
pub record Waiting : Type 0 where
  pub next_id : ℕ
  pub awaiting : ℕ → Option ℕ
  pub made : ℕ
  pub buffer : ℕ → List AsyncResult
  pub shut : ℕ → Bool

abbrev pub set {ℓ} : {A : Type ℓ} → (ℕ → A) → ℕ → A → ℕ → A
set f k a j = if j == k then a else f j

unfoldable pub new_waiting : Waiting
new_waiting = record {
  next_id = 0;
  awaiting = λ k. none;
  made = 0;
  buffer = λ c. [];
  shut = λ c. false;
}

-- `Request` as far as the message that it sends; `none` is the panic "id taken".
unfoldable pub send_request : Waiting → Request → Option (Waiting × WireRequest)
send_request s req = elim (s.awaiting s.next_id) [
  | some c ↦ none
  | none ↦ some (
    record s {
      next_id = suc s.next_id;
      awaiting = set s.awaiting s.next_id (some s.made);
      made = suc s.made;
    },
    request_to_wire (record req { id = pos s.next_id }),
  )
]

abbrev pub find : Waiting → ℤ → Option ℕ
find s (pos n) = s.awaiting n
find s (negsuc n) = none

abbrev pub forget : (ℕ → Option ℕ) → ℤ → ℕ → Option ℕ
forget f (pos n) = set f n none
forget f (negsuc n) = f

-- What `handleResponse` does for this id.
unfoldable pub deliver : Waiting → ℤ → AsyncResult → Waiting
deliver s id result = elim (find s id) [
  | none ↦ s
  | some c ↦ record s {
    awaiting = forget s.awaiting id;
    buffer = set s.buffer c (s.buffer c ++ (result ∷ []));
    shut = set s.shut c true;
  }
]

unfoldable pub handle_response : Waiting → Response → Waiting
unfolding code_to_error deliver
handle_response s resp =
    deliver s resp.id (record { val = resp.data_bytes; err = code_to_error resp.code })

-- Whether a channel is in the map, of which the keys are below `next_id`.
abbrev pub is_awaited : (ℕ → Option ℕ) → ℕ → ℕ → Bool
is_awaited f zero c = false
is_awaited f (suc n) c = elim (f n) [ none ↦ false | some d ↦ d == c ] || is_awaited f n c

-- The loop of `internalClose`: every channel in the map is closed, and the map is emptied.
unfoldable pub close_waiting : Waiting → Waiting
close_waiting s = record s {
  awaiting = λ k. none;
  shut = λ c. is_awaited s.awaiting s.next_id c || s.shut c;
}
