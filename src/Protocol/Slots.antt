-- ===== src/Protocol/Slots.antt =====
-- The channels of the requests of lib/protocol/protocol.go, and what the methods do to them.
use vidsync_app.Base.{
  ℕ, zero, suc, ◌⊎◌, ◌≤◌, ◌<◌, ◌≡◌, ◌≢◌, refl, sym, subst, ap, ◌∙◌, true, false, [], ◌∷◌, ◌++◌,
  Option, none, some, inl, inr, ◌==◌, ==_iff, length, ℤ, pos, negsuc, arith, Bool-cases,
  Option-cases,
}
use vidsync_app.Messages.Requests.{Request, WireRequest, request_to_wire, Response}
use vidsync_app.Protocol.Awaiting.{
  AsyncResult, Waiting, set, new_waiting, send_request, deliver, handle_response, close_waiting,
  code_to_error, is_awaited,
}

-- A channel and the id of the same number: not made yet, waiting for its answer, or over, with the
-- answer in it or without one.
pub data Slot (s : Waiting) (k : ℕ) : Type 0 where
  fresh : s.next_id ≤ k → s.awaiting k ≡ none → s.buffer k ≡ [] → s.shut k ≡ false → Slot s k
  waiting : k < s.next_id → s.awaiting k ≡ some k → s.buffer k ≡ [] → s.shut k ≡ false → Slot s k
  over : k < s.next_id → s.awaiting k ≡ none → length (s.buffer k) ≤ 1 → s.shut k ≡ true → Slot s k

pub record Sound (s : Waiting) : Type 0 where
  pub made : s.made ≡ s.next_id
  pub slot : (k : ℕ) → Slot s k

pub data Step (s : Waiting) : Waiting → Type 0 where
  request :
      (req : Request) (t : Waiting) (w : WireRequest) → send_request s req ≡ some (t, w) → Step s t
  respond : (resp : Response) → Step s (handle_response s resp)
  closes : Step s (close_waiting s)

pub data Reach : Waiting → Type 0 where
  begin : Reach new_waiting
  next : {s t : Waiting} → Reach s → Step s t → Reach t

pub next_free : (s : Waiting) → Sound s → s.awaiting s.next_id ≡ none
next_free s w = elim (w.slot s.next_id) [
  | fresh n a b c ↦ a
  | waiting n a b c ↦ absurd (omega (arith, n))
  | over n a b c ↦ a
]

pub next_empty : (s : Waiting) → Sound s → s.buffer s.next_id ≡ []
next_empty s w = elim (w.slot s.next_id) [
  | fresh n a b c ↦ b
  | waiting n a b c ↦ b
  | over n a b c ↦ absurd (omega (arith, n))
]

pub set_other : {A : Type 0} (f : ℕ → A) (k j : ℕ) (a : A) → (j == k) ≡ false → set f k a j ≡ f j
set_other f k j a h = rw (h) refl

pub set_same : {A : Type 0} (f : ℕ → A) (k j : ℕ) (a : A) → (j == k) ≡ true → set f k a j ≡ a
set_same f k j a h = rw (h) refl

-- The state behind a request.
abbrev pub requested : Waiting → Waiting
requested s = record s {
  next_id = suc s.next_id;
  awaiting = set s.awaiting s.next_id (some s.made);
  made = suc s.made;
}

pub requested-Sound : (s : Waiting) → Sound s → Sound (requested s)
requested-Sound s w = record {
  made = ap suc w.made;
  slot = λ k. elim (Bool-cases (k == s.next_id)) [
    | inl e ↦
        let q : k ≡ s.next_id = (==_iff k s.next_id).0 e in
        elim (w.slot k) [
          | fresh n a b c ↦
              waiting (omega arith)
                (set_same s.awaiting s.next_id k (some s.made) e ∙ ap some (w.made ∙ sym q)) b c
          | waiting n a b c ↦ absurd (omega (arith, n))
          | over n a b c ↦ absurd (omega (arith, n))
        ]
    | inr e ↦
        let q : k ≢ s.next_id = λ h. absurd (ground (arith, e, h)) in
        let o = set_other s.awaiting s.next_id k (some s.made) e in
        elim (w.slot k) [
          | fresh n a b c ↦ fresh (omega (arith, n, q)) (o ∙ a) b c
          | waiting n a b c ↦ waiting (omega (arith, n)) (o ∙ a) b c
          | over n a b c ↦ over (omega (arith, n)) (o ∙ a) b c
        ]
  ];
}

-- A request is sent: its id is not taken.
pub request-some :
    (s : Waiting) (req : Request)
    → Sound s
    → send_request s req ≡ some (requested s, request_to_wire (record req { id = pos s.next_id }))
unfolding send_request
request-some s req w = rw (next_free s w, send_request) refl

abbrev pub state_or : Waiting → Option (Waiting × WireRequest) → Waiting
state_or s none = s
state_or s (some r) = r.0

-- The state behind a response that found its channel.
abbrev pub answered : Waiting → ℕ → AsyncResult → Waiting
answered s k r = record s {
  awaiting = set s.awaiting k none;
  buffer = set s.buffer k (s.buffer k ++ (r ∷ []));
  shut = set s.shut k true;
}

pub answered-Sound :
    (s : Waiting) (k : ℕ) (r : AsyncResult)
    → k < s.next_id
    → s.buffer k ≡ []
    → Sound s
    → Sound (answered s k r)
answered-Sound s k r l b w = record {
  made = w.made;
  slot = λ j. elim (Bool-cases (j == k)) [
    | inl e ↦
        let q : j ≡ k = (==_iff j k).0 e in
        over (omega arith) (set_same s.awaiting k j none e)
          (omega (
            arith,
            ap length
                (set_same s.buffer k j (s.buffer k ++ (r ∷ [])) e ∙ ap (λ x. x ++ (r ∷ [])) b),
          ))
          (set_same s.shut k j true e)
    | inr e ↦
        let a = set_other s.awaiting k j none e in
        let f = set_other s.buffer k j (s.buffer k ++ (r ∷ [])) e in
        let c = set_other s.shut k j true e in
        elim (w.slot j) [
          | fresh n x y z ↦ fresh n (a ∙ x) (f ∙ y) (c ∙ z)
          | waiting n x y z ↦ waiting n (a ∙ x) (f ∙ y) (c ∙ z)
          | over n x y z ↦ over n (a ∙ x) (omega (arith, y, ap length f)) (c ∙ z)
        ]
  ];
}

-- A response that finds a channel finds that of its own id, which waits.
pub found :
    (s : Waiting) (k c : ℕ)
    → Sound s
    → s.awaiting k ≡ some c
    → (c ≡ k) × ((k < s.next_id) × (s.buffer k ≡ []))
found s k c w e = elim (w.slot k) [
  | fresh n a b d ↦ absurd (ground (arith, sym a ∙ e))
  | waiting n a b d ↦ (ground (arith, sym a ∙ e), (n, b))
  | over n a b d ↦ absurd (ground (arith, sym a ∙ e))
]

pub deliver-some :
    (s : Waiting) (n : ℕ) (r : AsyncResult)
    → Sound s
    → (c : ℕ) → s.awaiting n ≡ some c
    → deliver s (pos n) r ≡ answered s n r
unfolding deliver
deliver-some s n r w c e =
    subst
      (λ k. deliver s (pos n) r ≡ record s {
        awaiting = set s.awaiting n none;
        buffer = set s.buffer k (s.buffer k ++ (r ∷ []));
        shut = set s.shut k true;
      })
      (found s n c w e).0 (rw (e, deliver) refl)

pub deliver-Sound : (s : Waiting) (id : ℤ) (r : AsyncResult) → Sound s → Sound (deliver s id r)
unfolding deliver
deliver-Sound s (negsuc n) r w = w
deliver-Sound s (pos n) r w = elim (Option-cases (s.awaiting n)) [
  | inl e ↦ rw (e, deliver) w
  | inr (c, e) ↦
      let f = found s n c w e in
      subst Sound (sym (deliver-some s n r w c e)) (answered-Sound s n r f.1.0 f.1.1 w)
]

pub awaited-true : (f : ℕ → Option ℕ) (n k : ℕ) → k < n → f k ≡ some k → is_awaited f n k ≡ true
awaited-true f zero k l e = absurd (omega arith)
awaited-true f (suc n) k l e = elim (Bool-cases (k == n)) [
  | inl q ↦
      let h : f n ≡ some k = subst (λ j. f j ≡ some k) ((==_iff k n).0 q) e in rw (h) (ground arith)
  | inr q ↦ let r = awaited-true f n k (ground (arith, q)) e in rw (r) (ground arith)
]

pub awaited-false :
    (f : ℕ → Option ℕ) (n k : ℕ)
    → ((i d : ℕ) → f i ≡ some d → d ≡ i)
    → n ≤ k
    → is_awaited f n k ≡ false
awaited-false f zero k h l = refl
awaited-false f (suc n) k h l =
    let r = awaited-false f n k h (omega arith) in
    elim (Option-cases (f n)) [
      | inl e ↦ rw (e) r
      | inr (d, e) ↦ let q = h n d e in rw (e) (rw (r) (ground arith))
    ]

pub close-Sound : (s : Waiting) → Sound s → Sound (close_waiting s)
unfolding close_waiting
close-Sound s w = record {
  made = w.made;
  slot = λ k. elim (w.slot k) [
    | fresh n a b c ↦
        fresh n refl b
          (rw (awaited-false s.awaiting s.next_id k (λ i d e. (found s i d w e).0) n) c)
    | waiting n a b c ↦
        over n refl (omega (arith, ap length b)) (rw (awaited-true s.awaiting s.next_id k n a) refl)
    | over n a b c ↦ over n refl b (rw (c) (ground arith))
  ];
}

pub Step-Sound : (s t : Waiting) → Step s t → Sound s → Sound t
unfolding handle_response
Step-Sound s t (request req u v e) h =
    subst Sound (ap (state_or s) (sym (request-some s req h) ∙ e)) (requested-Sound s h)
Step-Sound s t (respond resp) h =
    deliver-Sound s resp.id (record { val = resp.data_bytes; err = code_to_error resp.code }) h
Step-Sound s t closes h = close-Sound s h

pub Reach-Slots : (s : Waiting) → Reach s → Sound s
unfolding new_waiting
Reach-Slots s begin = record { made = refl; slot = λ k. fresh (omega arith) refl refl refl }
Reach-Slots s (next {s = r} h e) = Step-Sound r s e (Reach-Slots r h)

-- The request with this id has been sent, and neither been answered nor closed.
pub record Waits (s : Waiting) (id : ℤ) (k : ℕ) : Type 0 where
  pub named : id ≡ pos k
  pub sent : k < s.next_id
  pub unanswered : s.shut k ≡ false
  pub empty : s.buffer k ≡ []

pub deliver-or :
    (s : Waiting) (id : ℤ) (r : AsyncResult)
    → Sound s
    → (deliver s id r ≡ s) ⊎ ((k : ℕ) × Waits s id k)
unfolding deliver
deliver-or s (negsuc n) r w = inl refl
deliver-or s (pos n) r w = elim (w.slot n) [
  | fresh l a b c ↦ inl (rw (a, deliver) refl)
  | waiting l a b c ↦ inr (n, record { named = refl; sent = l; unanswered = c; empty = b })
  | over l a b c ↦ inl (rw (a, deliver) refl)
]
