-- ===== src/JobQueue.antt =====
-- lib/model/queue.go: the files that a folder still has to pull. The mutex makes each method one
-- step on the queue.
mod Tests
pub mod Order
pub mod Pages
use Prim.Native.String.{String}
use text.Mathlib.Text.{◌==◌ as str_eq}
use vidsync_app.Base.{
  ℕ, zero, suc, ◌+◌, ◌-◌, ◌*◌, Bool, true, false, List, [], ◌∷◌, ◌++◌, Option, none, some, map, ltb,
  leb, ◌==◌, ◌&&◌, if◌then◌else◌, length, take, drop, ℤ,
}

-- `modified` is the time in nanoseconds.
pub record JobQueueEntry : Type 0 where
  pub name : String
  pub size : ℤ
  pub modified : ℤ

pub record JobQueue : Type 0 where
  pub progress : List String
  pub queued : List JobQueueEntry

abbrev pub new_job_queue : JobQueue
new_job_queue = record { progress = []; queued = [] }

unfoldable pub push : JobQueue → String → ℤ → ℤ → JobQueue
push q file size modified = record q {
  queued = q.queued ++ record { name = file; size = size; modified = modified } ∷ [];
}

pop_queued : List JobQueueEntry → JobQueue → Option String × JobQueue
pop_queued [] q = (none, q)
pop_queued (e ∷ rest) q =
    (some e.name, record { progress = q.progress ++ e.name ∷ []; queued = rest })

-- The name with `true`, or no name with `false`.
unfoldable pub pop : JobQueue → Option String × JobQueue
unfolding pop_queued
pop q = pop_queued q.queued q

-- The loop of `BringToFront`: `before` holds the entries that it has passed, which it shifts by one.
unfoldable pub bring : String → List JobQueueEntry → List JobQueueEntry → List JobQueueEntry
bring filename before [] = before
bring filename before (e ∷ rest) =
    let go_on = bring filename (before ++ e ∷ []) rest in
    if str_eq e.name filename then e ∷ (before ++ rest) else go_on

unfoldable pub bring_to_front : JobQueue → String → JobQueue
unfolding bring
bring_to_front q filename = record q { queued = bring filename [] q.queued }

-- The loop of `Done` takes the first entry of that name out.
unfoldable pub remove_first : String → List String → List String
remove_first file [] = []
remove_first file (p ∷ ps) = if str_eq p file then ps else p ∷ remove_first file ps

unfoldable pub done : JobQueue → String → JobQueue
unfolding remove_first
done q file = record q { progress = remove_first file q.progress }

pub record Page : Type 0 where
  pub progress : List String
  pub queued : List String
  pub skipped : ℕ

-- `for i := range queued { queued[i] = q.queued[i+toSkip].name }`, where `queued` has length `n`.
abbrev pub names : ℕ → ℕ → List JobQueueEntry → List String
names to_skip n entries = map (λ e. e.name) (take n (drop to_skip entries))

-- The length of the `queued` that `Jobs` makes.
abbrev pub queued_len : ℕ → ℕ → ℕ → ℕ
queued_len available wanted got = if ltb available (wanted - got) then available else wanted - got

-- `Jobs`, once the number of jobs to skip is known.
unfoldable pub cut_page : JobQueue → ℕ → ℕ → Page
cut_page q to_skip perpage =
    let plen = length q.progress in
    let qlen = length q.queued in
    if leb (plen + qlen) to_skip
    then record { progress = []; queued = []; skipped = plen + qlen }
    else if leb (to_skip + perpage) plen
    then record {
      progress = take perpage (drop to_skip q.progress);
      queued = [];
      skipped = to_skip;
    }
    else if ltb to_skip plen
    then record {
      progress = drop to_skip q.progress;
      queued = names 0 (queued_len qlen perpage (length (drop to_skip q.progress))) q.queued;
      skipped = to_skip;
    }
    else record {
      progress = [];
      queued = names (to_skip - plen) (queued_len (qlen - (to_skip - plen)) perpage 0) q.queued;
      skipped = to_skip;
    }

-- `Jobs`, for a page and a page size that are not negative. Page 0 of a positive size cuts the slice
-- at a negative index, which is a run-time panic: `none`.
unfoldable pub jobs : JobQueue → ℕ → ℕ → Option Page
unfolding cut_page
jobs q page perpage =
    if page == 0 && ltb 0 perpage then none else some (cut_page q ((page - 1) * perpage) perpage)

unfoldable pub reset : JobQueue → JobQueue
reset q = record { progress = []; queued = [] }

abbrev pub len_queued : JobQueue → ℕ
len_queued q = length q.queued

abbrev pub len_progress : JobQueue → ℕ
len_progress q = length q.progress
