-- ===== src/PullerState/Work.antt =====
-- The goroutines of lib/model/folder_sendrecv.go that share one state of
-- lib/model/sharedpullerstate.go: what its counters say of the work.
use vidsync_app.Base.{
  ℕ, suc, ◌+◌, ◌≡◌, refl, ap, ◌∙◌, List, arith, length, if◌then◌else◌, ℤ, pos, ◌+ℤ◌, ◌-ℤ◌,
}
use vidsync_app.FileInfo.{FileInfo, BlockInfo}
use vidsync_app.PullerState.{
  PullerState, new_puller_state, fail_with, temp_file, copy_done, copied_from_origin,
  skipped_sparse_block, pull_started, pull_done, final_close,
}
use vidsync_app.PullerState.Steps.{
  System, Step, origin, sparse, copy, start_pull, finish_pull, fails, opens, finish, start, Reach,
  here, next, counters, counters-fail_with, counters-temp_file, counters-final_close, Counted, up,
  down,
}

-- A step that leaves the counters and the blocks alone.
unchanged :
    (reused : ℤ) (total : ℕ) (a : System) (s : PullerState) (closes : ℕ)
    → counters s ≡ counters a.state
    → Counted reused total a
    → Counted reused total (record a { state = s; closes = closes })
unchanged reused total a s closes e w = record {
  blocks = w.blocks;
  marks = w.marks;
  one_mark = w.one_mark;
  mark_queued = w.mark_queued;
  reused_is = ap (λ c. c.reused) e ∙ w.reused_is;
  copy_total_is = ap (λ c. c.copy_total) e ∙ w.copy_total_is;
  pull_total_is = ap (λ c. c.pull_total) e ∙ w.pull_total_is;
  copy_origin_is = ap (λ c. c.copy_origin) e ∙ w.copy_origin_is;
  copy_needed_is = ap (λ c. c.copy_needed) e ∙ w.copy_needed_is;
  pull_needed_is = ap (λ c. c.pull_needed) e ∙ w.pull_needed_is;
}

-- A block that is counted as copied from the original file.
marked :
    (reused : ℤ) (total n : ℕ) (a : System) (s : PullerState)
    → a.queued ≡ suc n
    → a.marking ≡ 0
    → counters s ≡ record (counters a.state) { copy_origin = a.state.copy_origin +ℤ pos 1 }
    → Counted reused total a
    → Counted reused total (record a { state = s; marked = suc a.marked; marking = 1 })
marked reused total n a s q m e w = record {
  blocks = w.blocks;
  marks = omega (arith, w.marks);
  one_mark = omega arith;
  mark_queued = omega arith;
  reused_is = ap (λ c. c.reused) e ∙ w.reused_is;
  copy_total_is = ap (λ c. c.copy_total) e ∙ w.copy_total_is;
  pull_total_is = ap (λ c. c.pull_total) e ∙ w.pull_total_is;
  copy_origin_is =
      ap (λ c. c.copy_origin) e
      ∙ ap (λ k. k +ℤ pos 1) w.copy_origin_is
      ∙ up a.marked (suc a.marked) refl;
  copy_needed_is = ap (λ c. c.copy_needed) e ∙ w.copy_needed_is;
  pull_needed_is = ap (λ c. c.pull_needed) e ∙ w.pull_needed_is;
}

pub Step-Counted :
    (reused : ℤ) (total : ℕ) (a b : System)
    → Step a b
    → Counted reused total a
    → Counted reused total b
unfolding copied_from_origin skipped_sparse_block copy_done pull_started pull_done
Step-Counted reused total a b (origin now n q m) w =
    marked reused total n a (copied_from_origin now a.state) q m refl w
Step-Counted reused total a b (sparse now n q m) w =
    marked reused total n a (skipped_sparse_block now a.state) q m refl w
Step-Counted reused total a b (copy now block n q) w = record {
  blocks = omega (arith, w.blocks);
  marks = omega (arith, w.marks, w.one_mark);
  one_mark = omega arith;
  mark_queued = omega arith;
  reused_is = w.reused_is;
  copy_total_is = w.copy_total_is ∙ ap pos (omega arith);
  pull_total_is = w.pull_total_is;
  copy_origin_is = w.copy_origin_is;
  copy_needed_is = ap (λ k. k -ℤ pos 1) w.copy_needed_is ∙ down a.queued n q;
  pull_needed_is = w.pull_needed_is;
}
Step-Counted reused total a b (start_pull now n q m) w = record {
  blocks = omega (arith, w.blocks);
  marks = w.marks;
  one_mark = w.one_mark;
  mark_queued = omega arith;
  reused_is = w.reused_is;
  copy_total_is =
      ap (λ k. k -ℤ pos 1) w.copy_total_is
      ∙ down (a.queued + a.copied) (n + a.copied) (omega arith);
  pull_total_is =
      ap (λ k. k +ℤ pos 1) w.pull_total_is
      ∙ up (a.pulling + a.pulled) (suc a.pulling + a.pulled) (omega arith);
  copy_origin_is = w.copy_origin_is;
  copy_needed_is = ap (λ k. k -ℤ pos 1) w.copy_needed_is ∙ down a.queued n q;
  pull_needed_is = ap (λ k. k +ℤ pos 1) w.pull_needed_is ∙ up a.pulling (suc a.pulling) refl;
}
Step-Counted reused total a b (finish_pull now block n q) w = record {
  blocks = omega (arith, w.blocks);
  marks = w.marks;
  one_mark = w.one_mark;
  mark_queued = w.mark_queued;
  reused_is = w.reused_is;
  copy_total_is = w.copy_total_is;
  pull_total_is = w.pull_total_is ∙ ap pos (omega arith);
  copy_origin_is = w.copy_origin_is;
  copy_needed_is = w.copy_needed_is;
  pull_needed_is = ap (λ k. k -ℤ pos 1) w.pull_needed_is ∙ down a.pulling n q;
}
Step-Counted reused total a b (fails e) w =
    unchanged reused total a (fail_with e a.state) a.closes (counters-fail_with e a.state) w
Step-Counted reused total a b (opens opening) w =
    unchanged reused total a (temp_file opening a.state).0 a.closes
      (counters-temp_file opening a.state) w
Step-Counted reused total a b (finish c) w =
    unchanged reused total a (final_close c a.state).state
      (if (final_close c a.state).closed then suc a.closes else a.closes)
      (counters-final_close c a.state) w

start-Counted :
    (file : FileInfo) (blocks : List BlockInfo) (reused : List ℤ) (now : ℤ)
    → Counted (pos (length reused)) (length blocks) (start file blocks reused now)
unfolding new_puller_state
start-Counted file blocks reused now = record {
  blocks = omega arith;
  marks = omega arith;
  one_mark = omega arith;
  mark_queued = omega arith;
  reused_is = refl;
  copy_total_is = ap pos (omega arith);
  pull_total_is = refl;
  copy_origin_is = refl;
  copy_needed_is = refl;
  pull_needed_is = refl;
}

Reach-Counts :
    (reused : ℤ) (total : ℕ) (a b : System)
    → Counted reused total a
    → Reach a b
    → Counted reused total b
Reach-Counts reused total a b w here = w
Reach-Counts reused total a b w (next {b = m} r s) =
    Step-Counted reused total m b s (Reach-Counts reused total a m w r)

-- However the goroutines take their turns, the counters of the shared state say how many of the blocks
-- that `newSharedPullerState` was given, whatever the file's own list, are queued,
-- copied, being pulled and pulled, and these four add up to the number of those blocks. The number of
-- reused blocks stays as it was. The blocks that are counted as copied from the original file are at
-- most one more than the copied ones.
pub Reach-Counted :
    (file : FileInfo) (blocks : List BlockInfo) (reused : List ℤ) (now : ℤ) (b : System)
    → Reach (start file blocks reused now) b
    → Counted (pos (length reused)) (length blocks) b
Reach-Counted file blocks reused now b r =
    Reach-Counts (pos (length reused)) (length blocks) (start file blocks reused now) b
      (start-Counted file blocks reused now) r
