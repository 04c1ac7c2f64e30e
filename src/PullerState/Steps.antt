-- ===== src/PullerState/Steps.antt =====
-- The goroutines of lib/model/folder_sendrecv.go that share one state of
-- lib/model/sharedpullerstate.go, as a step relation.
use vidsync_app.Base.{
  ℕ, suc, ◌+◌, ◌≤◌, ◌≡◌, true, List, Option, arith, length, if◌then◌else◌, ℤ, pos, ◌+ℤ◌, ◌-ℤ◌,
  int_laws,
}
use vidsync_app.FileInfo.{FileInfo, BlockInfo}
use vidsync_app.PullerState.{
  Error, PullerState, new_puller_state, fail_with, temp_file, copy_done, copied_from_origin,
  skipped_sparse_block, pull_started, pull_done, Closer, keep_first, finalize_encrypted,
  close_writer, final_close, close_now,
}

-- The blocks by what has become of them: queued at the copier, copied, being pulled, and pulled.
-- `marked` are those that were counted as copied from the original file or skipped, `marking` the one
-- of these that is not yet counted as copied. `closes` is how often `finalClose` returned true.
pub record System : Type 0 where
  pub state : PullerState
  pub queued : ℕ
  pub copied : ℕ
  pub pulling : ℕ
  pub pulled : ℕ
  pub marked : ℕ
  pub marking : ℕ
  pub closes : ℕ

pub data Step (a : System) : System → Type 0 where
  origin :
      (now : ℤ) (n : ℕ)
      → a.queued ≡ suc n
      → a.marking ≡ 0
      → Step a
          (record a { state = copied_from_origin now a.state; marked = suc a.marked; marking = 1 })
  sparse :
      (now : ℤ) (n : ℕ)
      → a.queued ≡ suc n
      → a.marking ≡ 0
      → Step a (record a {
        state = skipped_sparse_block now a.state;
        marked = suc a.marked;
        marking = 1;
      })
  copy :
      (now block : ℤ) (n : ℕ)
      → a.queued ≡ suc n
      → Step a (record a {
        state = copy_done now block a.state;
        queued = n;
        copied = suc a.copied;
        marking = 0;
      })
  start_pull :
      (now : ℤ) (n : ℕ)
      → a.queued ≡ suc n
      → a.marking ≡ 0
      → Step a (record a { state = pull_started now a.state; queued = n; pulling = suc a.pulling })
  finish_pull :
      (now block : ℤ) (n : ℕ)
      → a.pulling ≡ suc n
      → Step a
          (record a { state = pull_done now block a.state; pulling = n; pulled = suc a.pulled })
  fails : (e : Error) → Step a (record a { state = fail_with e a.state })
  opens : (opening : Option Error) → Step a (record a { state = (temp_file opening a.state).0 })
  finish :
      (c : Closer)
      → Step a (record a {
        state = (final_close c a.state).state;
        closes = if (final_close c a.state).closed then suc a.closes else a.closes;
      })

abbrev pub start : FileInfo → List BlockInfo → List ℤ → ℤ → System
start file blocks reused now = record {
  state = new_puller_state file blocks reused now;
  queued = length blocks;
  copied = 0;
  pulling = 0;
  pulled = 0;
  marked = 0;
  marking = 0;
  closes = 0;
}

pub data Reach (a : System) : System → Type 0 where
  here : Reach a a
  next : {b c : System} → Reach a b → Step b c → Reach a c

-- The counters of a state, which only the counting methods change.
pub record Counters : Type 0 where
  pub reused : ℤ
  pub copy_total : ℤ
  pub pull_total : ℤ
  pub copy_origin : ℤ
  pub copy_needed : ℤ
  pub pull_needed : ℤ

abbrev pub counters : PullerState → Counters
counters s = record {
  reused = s.reused;
  copy_total = s.copy_total;
  pull_total = s.pull_total;
  copy_origin = s.copy_origin;
  copy_needed = s.copy_needed;
  pull_needed = s.pull_needed;
}

pub counters-fail_with : (e : Error) (s : PullerState) → counters (fail_with e s) ≡ counters s
unfolding fail_with
counters-fail_with e s = ground arith

pub counters-temp_file :
    (opening : Option Error) (s : PullerState) → counters (temp_file opening s).0 ≡ counters s
unfolding temp_file fail_with
counters-temp_file opening s = ground arith

counters-close_writer : (c : Closer) (s : PullerState) → counters (close_writer c s) ≡ counters s
unfolding close_writer keep_first finalize_encrypted fail_with
counters-close_writer c s = ground arith

pub counters-final_close :
    (c : Closer) (s : PullerState) → counters (final_close c s).state ≡ counters s
unfolding final_close close_now
counters-final_close c s =
    ground (arith, counters-close_writer c s, counters-close_writer c (record s { writer = true }))

-- What the counters say of the work on this number of blocks.
pub record Counted (reused : ℤ) (total : ℕ) (a : System) : Type 0 where
  pub blocks : a.queued + a.copied + a.pulling + a.pulled ≡ total
  pub marks : a.marked ≤ a.copied + a.marking
  pub one_mark : a.marking ≤ 1
  pub mark_queued : a.marking ≤ a.queued
  pub reused_is : a.state.reused ≡ reused
  pub copy_total_is : a.state.copy_total ≡ pos (a.queued + a.copied)
  pub pull_total_is : a.state.pull_total ≡ pos (a.pulling + a.pulled)
  pub copy_origin_is : a.state.copy_origin ≡ pos a.marked
  pub copy_needed_is : a.state.copy_needed ≡ pos a.queued
  pub pull_needed_is : a.state.pull_needed ≡ pos a.pulling

pub up : (k n : ℕ) → n ≡ suc k → pos k +ℤ pos 1 ≡ pos n
up k n e = rw (e) (omega int_laws)

pub down : (k n : ℕ) → k ≡ suc n → pos k -ℤ pos 1 ≡ pos n
down k n e = rw (e) (omega int_laws)
