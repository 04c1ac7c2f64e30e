-- ===== src/PullerState/Closing.antt =====
-- When `finalClose` of lib/model/sharedpullerstate.go closes a file.
use vidsync_app.Base.{
  ℕ, suc, ◌+◌, ◌≤◌, ◌≡◌, refl, sym, subst, ap, ap₂, ◌∙◌, Bool, true, false, not, ◌&&◌, ◌||◌, ◌==◌,
  List, Option, none, some, inl, inr, ◌⊎◌, Option-cases, arith, if◌then◌else◌, ℤ, pos, ◌+ℤ◌, eqb_ℤ,
}
use vidsync_app.FileInfo.{FileInfo, BlockInfo}
use vidsync_app.PullerState.{
  Error, PullerState, new_puller_state, fail_with, temp_file, copy_done, copied_from_origin,
  skipped_sparse_block, pull_started, pull_done, Closer, close_now, close_writer, is_pending,
  final_close,
}
use vidsync_app.PullerState.Steps.{
  System, Step, origin, sparse, copy, start_pull, finish_pull, fails, opens, finish, start, Reach,
  here, next,
}
use vidsync_app.PullerState.Work.{Reach-Counted}

abbrev pub is_some : Option Error → Bool
is_some none = false
is_some (some e) = true

-- What `finalClose` answers, from the answers of its tests.
final_close-tests :
    (c : Closer) (s : PullerState)
    → (final_close c s).closed
      ≡ (not (s.closed || is_pending s) && (s.writer || not (is_some c.opening)))
unfolding final_close close_now
final_close-tests c s = ground arith

-- The flag of the state says how often the file was closed.
abbrev Once : System → Type 0
Once a = a.closes ≡ (if a.state.closed then 1 else 0)

closed-fail_with : (e : Error) (s : PullerState) → (fail_with e s).closed ≡ s.closed
unfolding fail_with
closed-fail_with e s = ground arith

closed-temp_file : (o : Option Error) (s : PullerState) → (temp_file o s).0.closed ≡ s.closed
unfolding temp_file fail_with
closed-temp_file o s = ground arith

-- The flag is set exactly by a call that returns true, and such a call finds it unset.
final_close-flag :
    (c : Closer) (s : PullerState)
    → ((final_close c s).closed ≡ true)
        × (((final_close c s).state.closed ≡ true) × (s.closed ≡ false))
      ⊎ ((final_close c s).closed ≡ false) × ((final_close c s).state.closed ≡ s.closed)
unfolding final_close close_now close_writer
final_close-flag c s = ground arith

Step-Once : (a b : System) → Step a b → Once a → Once b
unfolding copied_from_origin skipped_sparse_block copy_done pull_started pull_done
Step-Once a b (origin now n q m) w = w
Step-Once a b (sparse now n q m) w = w
Step-Once a b (copy now block n q) w = w
Step-Once a b (start_pull now n q m) w = w
Step-Once a b (finish_pull now block n q) w = w
Step-Once a b (fails e) w = w ∙ ap (λ k. if k then 1 else 0) (sym (closed-fail_with e a.state))
Step-Once a b (opens o) w = w ∙ ap (λ k. if k then 1 else 0) (sym (closed-temp_file o a.state))
Step-Once a b (finish c) w = elim (final_close-flag c a.state) [
  | inl h ↦ rw (h.0) (rw (h.1.0) (ap suc (w ∙ ap (λ k. if k then 1 else 0) h.1.1)))
  | inr h ↦ rw (h.0) (rw (h.1) w)
]

Reach-Once : (a b : System) → Once a → Reach a b → Once b
Reach-Once a b w here = w
Reach-Once a b w (next {b = m} r s) = Step-Once m b s (Reach-Once a m w r)

-- All blocks are copied or pulled, or an error has been recorded.
abbrev pub is_ready : System → Bool
is_ready b = is_some b.state.err || (b.queued + b.pulling == 0)

sum_zero : (p q : ℕ) → eqb_ℤ (pos p +ℤ pos q) (pos 0) ≡ (q + p == 0)
unfolding ◌+ℤ◌
sum_zero p q = ground arith

-- What `finalClose` returns beside the flag, `ready` being whether it is past its first test.
Answer : Closer → PullerState → Bool → Type 0
Answer c s ready =
    ((final_close c s).closed ≡ true) × ((final_close c s).result ≡ (final_close c s).state.err)
    ⊎ ((final_close c s).closed ≡ false)
      × ((final_close c s).state ≡ s)
      × ((final_close c s).result ≡ (if ready then c.opening else none))

final_close-Answer : (c : Closer) (s : PullerState) → Answer c s (not (s.closed || is_pending s))
unfolding final_close close_now Answer
final_close-Answer c s = ground arith

not_both : (a b : Bool) → not (a || not b) ≡ (not a && b)
not_both a b = ground arith

pending_of :
    (s : PullerState) (p q : ℕ)
    → s.pull_needed ≡ pos p
    → s.copy_needed ≡ pos q
    → is_pending s ≡ not (is_some s.err || (q + p == 0))
unfolding is_pending
pending_of s p q e f =
    let sum : eqb_ℤ (s.pull_needed +ℤ s.copy_needed) (pos 0) ≡ (q + p == 0) =
      ap₂ (λ x y. eqb_ℤ (x +ℤ y) (pos 0)) e f ∙ sum_zero p q in
    elim (Option-cases s.err) [
      | inl n ↦ rw (n, is_pending) (ap not sum)
      | inr (x, n) ↦ rw (n, is_pending) refl
    ]

not_or : (a b c : Bool) → (not (a || not b) && c) ≡ (not a && b && c)
not_or a b c = ground arith

module _ (file : FileInfo) (blocks : List BlockInfo) (reused : List ℤ) (now : ℤ) (b : System)
    (reached : Reach (start file blocks reused now) b) where
  start-Once : Once (start file blocks reused now)
  unfolding new_puller_state
  start-Once = refl

  -- Over the whole time of a file that is being pulled, `finalClose` returns true at most once, and the
  -- file is marked as closed exactly when it has.
  pub closes-once : (b.closes ≤ 1) × (b.closes ≡ (if b.state.closed then 1 else 0))
  closes-once =
      let w = Reach-Once (start file blocks reused now) b start-Once reached in
      (ground (arith, w), w)

  -- `finalClose` closes a file that is being pulled exactly when it is not closed, all its blocks are
  -- copied or pulled or an error has been recorded, and its temporary file is open or can be opened.
  -- With true it returns the error that is recorded in the new state, if any. Otherwise it leaves the
  -- state as it is and returns false, with no error while it is closed or not ready, and else with the
  -- error of opening its temporary file, which is there then, so that the caller sees a file that is
  -- not closed.
  pub final_close_lem :
      (c : Closer)
      → ((final_close c b.state).closed
          ≡ (not b.state.closed && is_ready b && (b.state.writer || not (is_some c.opening))))
        × (((final_close c b.state).closed ≡ true)
              × ((final_close c b.state).result ≡ (final_close c b.state).state.err)
            ⊎ ((final_close c b.state).closed ≡ false)
              × ((final_close c b.state).state ≡ b.state)
              × ((final_close c b.state).result
                  ≡ (if not b.state.closed && is_ready b then c.opening else none)))
  unfolding Answer
  final_close_lem c =
      let w = Reach-Counted file blocks reused now b reached in
      (
        final_close-tests c b.state
            ∙ ap (λ k. not (b.state.closed || k) && (b.state.writer || not (is_some c.opening)))
                (pending_of b.state b.pulling b.queued w.pull_needed_is w.copy_needed_is)
            ∙ not_or b.state.closed (is_ready b) (b.state.writer || not (is_some c.opening)),
        subst (Answer c b.state)
            (ap (λ k. not (b.state.closed || k))
                (pending_of b.state b.pulling b.queued w.pull_needed_is w.copy_needed_is)
              ∙ not_both b.state.closed (is_ready b))
            (final_close-Answer c b.state),
      )
