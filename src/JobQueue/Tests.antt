-- ===== src/JobQueue/Tests.antt =====
-- Runs of lib/model/queue.go, and the theorems at such inputs.
use Prim.Native.String.{String}
use vidsync_app.Base.{◌-◌, ◌*◌, min, ◌≡◌, refl, [], ◌∷◌, some, none, arith, length, take, drop, pos}
use vidsync_app.JobQueue.{JobQueueEntry, JobQueue, Page, bring_to_front, jobs}
use vidsync_app.JobQueue.Order.{Brought, bring_to_front_lem}
use vidsync_app.JobQueue.Pages.{all_names, listed, jobs-window}

abbrev entry : String → JobQueueEntry
entry name = record { name = name; size = pos 1; modified = pos 0 }

abbrev four_jobs : JobQueue
four_jobs = record { progress = "a" ∷ "b" ∷ []; queued = entry "c" ∷ entry "d" ∷ [] }

second_page : jobs four_jobs 2 3 ≡ some (record { progress = []; queued = "d" ∷ []; skipped = 3 })
unfolding jobs
second_page = refl

page_zero : jobs four_jobs 0 3 ≡ none
unfolding jobs
page_zero = refl

bring_to_front_lem_example :
    Brought "d" [] four_jobs.queued (bring_to_front four_jobs "d").queued
    × ((bring_to_front four_jobs "d").progress ≡ four_jobs.progress)
bring_to_front_lem_example = bring_to_front_lem four_jobs "d"

jobs-window_example :
    (p : Page) × (jobs four_jobs 2 3 ≡ some p)
    × (listed p ≡ take 3 (drop ((2 - 1) * 3) (all_names four_jobs)))
    × (p.skipped ≡ min ((2 - 1) * 3) (length (all_names four_jobs)))
jobs-window_example = jobs-window four_jobs 2 3 (omega arith)
