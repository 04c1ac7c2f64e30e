-- ===== src/Protocol/Answers.antt =====
-- Who gets which answer: the requests of lib/protocol/protocol.go over the life of a connection.
use vidsync_app.Base.{
  ℕ, ◌⊎◌, ◌≤◌, ◌<◌, ◌≡◌, refl, sym, ap, ◌∙◌, true, false, [], ◌∷◌, ◌++◌, some, inl, inr, ◌==◌, ℤ,
  pos, negsuc, arith, Option-cases, to_int32, to_int32-id,
}
use vidsync_app.Messages.Requests.{Request, WireRequest, request_to_wire, Response}
use vidsync_app.Protocol.Awaiting.{
  AsyncResult, Waiting, send_request, deliver, handle_response, close_waiting, code_to_error,
}
use vidsync_app.Protocol.Slots.{
  closes, fresh, waiting, over, Sound, Step, request, respond, Reach, set_same, requested,
  requested-Sound, request-some, state_or, answered, deliver-some, Step-Sound, Reach-Slots, Waits,
  deliver-or,
}

-- Over the life of a connection each channel is not made yet, or waits for the answer to the
-- request of the same id, or is over, closed with at most one answer in it; so that no goroutine
-- blocks at the channel. And whatever response comes then: it changes nothing at all, unless it has
-- the id of a request that was sent, and whose channel is empty and not closed. So a second answer,
-- and one to no request, changes nothing.
pub Reach-Sound :
    (s : Waiting) (resp : Response)
    → Reach s
    → Sound s × ((handle_response s resp ≡ s) ⊎ ((k : ℕ) × Waits s resp.id k))
unfolding handle_response
Reach-Sound s resp h =
    let w = Reach-Slots s h in
    (w, deliver-or s resp.id (record { val = resp.data_bytes; err = code_to_error resp.code }) w)

wraps : to_int32 (pos 2147483648) ≡ negsuc 2147483647
unfolding to_int32
wraps = refl

dropped : (s : Waiting) (n : ℕ) (r : AsyncResult) → deliver s (negsuc n) r ≡ s
unfolding deliver
dropped s n r = refl

-- The states that a connection can come to from this one.
pub data Later (s : Waiting) : Waiting → Type 0 where
  now : Later s s
  after : {t u : Waiting} → Later s t → Step t u → Later s u

Later-Sound : (s u : Waiting) → Later s u → Sound s → Sound u
Later-Sound s u now w = w
Later-Sound s u (after {t = t} l e) w = Step-Sound t u e (Later-Sound s t l w)

deliver-next_id : (s : Waiting) (id : ℤ) (r : AsyncResult) → (deliver s id r).next_id ≡ s.next_id
unfolding deliver
deliver-next_id s (negsuc n) r = refl
deliver-next_id s (pos n) r = elim (Option-cases (s.awaiting n)) [
  | inl e ↦ rw (e, deliver) refl
  | inr (c, e) ↦ rw (e, deliver) refl
]

Step-next_id : (s u : Waiting) → Step s u → Sound s → s.next_id ≤ u.next_id
unfolding handle_response close_waiting
Step-next_id s u (request req v x e) w =
    let q = ap (λ o. (state_or s o).next_id) (sym (request-some s req w) ∙ e) in omega (arith, q)
Step-next_id s u (respond resp) w =
    let q =
      deliver-next_id s resp.id (record { val = resp.data_bytes; err = code_to_error resp.code }) in
    omega (arith, q)
Step-next_id s u closes w = omega arith

Later-next_id : (s u : Waiting) → Later s u → Sound s → s.next_id ≤ u.next_id
Later-next_id s u now w = omega arith
Later-next_id s u (after {t = t} l e) w =
    omega (arith, Later-next_id s t l w, Step-next_id t u e (Later-Sound s t l w))

-- An open channel below the next id waits.
still_waits :
    (u : Waiting) (k : ℕ)
    → Sound u
    → k < u.next_id
    → u.shut k ≡ false
    → (u.awaiting k ≡ some k) × (u.buffer k ≡ [])
still_waits u k w l o = elim (w.slot k) [
  | fresh n a b c ↦ absurd (omega (arith, n, l))
  | waiting n a b c ↦ (a, b)
  | over n a b c ↦ absurd (cc (c, o))
]

-- While fewer than 2^31 requests have been made on a connection, one more can be sent: its id is not
-- taken. Whatever requests, responses and closing come after it: as long as its channel has not been
-- closed, by its answer or with the connection, the response that carries the id of the message puts
-- its answer, alone, into the channel and closes it.
pub request-Answered :
    (s u : Waiting) (req : Request) (r : AsyncResult)
    → Reach s
    → s.next_id < 2147483648
    → Later (requested s) u
    → u.shut s.next_id ≡ false
    → (w : WireRequest) × (send_request s req ≡ some (requested s, w))
      × ((deliver u w.id r).buffer s.next_id ≡ r ∷ [])
      × ((deliver u w.id r).shut s.next_id ≡ true)
unfolding request_to_wire
request-Answered s u req r h l later unanswered =
    let w = Reach-Slots s h in
    let sound = requested-Sound s w in
    let id : to_int32 (pos s.next_id) ≡ pos s.next_id =
      to_int32-id (pos s.next_id) (record { low = omega arith; high = omega (arith, l) }) in
    let same : (s.next_id == s.next_id) ≡ true = ground arith in
    let (a, b) =
      still_waits u s.next_id (Later-Sound (requested s) u later sound)
        (omega (arith, Later-next_id (requested s) u later sound)) unanswered in
    let done : deliver u (to_int32 (pos s.next_id)) r ≡ answered u s.next_id r =
      ap (λ k. deliver u k r) id
      ∙ deliver-some u s.next_id r (Later-Sound (requested s) u later sound) s.next_id a in
    (
      request_to_wire (record req { id = pos s.next_id }),
      request-some s req w,
      ap (λ q. q.buffer s.next_id) done
          ∙ set_same u.buffer s.next_id s.next_id (u.buffer s.next_id ++ (r ∷ [])) same
          ∙ ap (λ x. x ++ (r ∷ [])) b,
      ap (λ q. q.shut s.next_id) done ∙ set_same u.shut s.next_id s.next_id true same,
    )

-- The request that comes after 2^31 others on one connection is sent with a negative id, and the
-- response that carries this id is dropped: the request waits on.
pub request-Lost :
    (s : Waiting) (req : Request) (r : AsyncResult)
    → Sound s
    → s.next_id ≡ 2147483648
    → (t : Waiting) × (w : WireRequest) × (send_request s req ≡ some (t, w))
      × (deliver t w.id r ≡ t)
      × (t.awaiting s.next_id ≡ some s.next_id)
unfolding request_to_wire
request-Lost s req r h e = (
  requested s,
  request_to_wire (record req { id = pos s.next_id }),
  request-some s req h,
  ap (λ k. deliver (requested s) k r) (ap (λ k. to_int32 (pos k)) e ∙ wraps)
      ∙ dropped (requested s) 2147483647 r,
  set_same s.awaiting s.next_id s.next_id (some s.made) (ground arith) ∙ ap some h.made,
)
