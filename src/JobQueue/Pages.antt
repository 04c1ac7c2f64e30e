-- ===== src/JobQueue/Pages.antt =====
-- The pages of `Jobs` of lib/model/queue.go cut one sequence: the files in progress, then the queue.
use Prim.Native.String.{String}
use vidsync_app.Base.{
  ℕ, zero, suc, ◌+◌, ◌-◌, ◌*◌, ◌≤◌, ◌<◌, min, ◌≡◌, refl, sym, ap, ◌∙◌, List, [], ◌++◌, some, map,
  arith, length, take, drop, length-drop, length-append, length-map, take-all, drop-all,
  take-append_le, take-append_ge, drop-append_le, drop-append_ge, take-map, append-nil, drop-map,
}
use vidsync_app.JobQueue.{JobQueueEntry, JobQueue, Page, names, queued_len, cut_page, jobs}

-- Every job, in the order in which `Jobs` lists them.
abbrev pub all_names : JobQueue → List String
all_names q = q.progress ++ map (λ e. e.name) q.queued

abbrev pub listed : Page → List String
listed p = p.progress ++ p.queued

take-queued {ℓ} :
    {A : Type ℓ} (k n got : ℕ) (xs : List A)
    → length xs ≡ k
    → take (queued_len k n got) xs ≡ take (n - got) xs
take-queued k n got xs e = ground (arith, take-all k xs, take-all (n - got) xs)

take-nil {ℓ} : {A : Type ℓ} (n : ℕ) → take {A = A} n [] ≡ []
take-nil zero = refl
take-nil (suc n) = refl

module _ (q : JobQueue) (to_skip perpage : ℕ) where
  in_progress :
      to_skip + perpage ≤ length q.progress
      → take perpage (drop to_skip q.progress) ++ [] ≡ take perpage (drop to_skip (all_names q))
  in_progress h =
      append-nil (take perpage (drop to_skip q.progress))
      ∙ sym (
          ap (take perpage) (drop-append_le to_skip q.progress _ (omega arith))
          ∙ take-append_le perpage (drop to_skip q.progress) _
              (omega (arith, length-drop to_skip q.progress)))

  across :
      to_skip < length q.progress
      → length q.progress < to_skip + perpage
      → drop to_skip q.progress
          ++ names 0
              (queued_len (length q.queued) perpage (length (drop to_skip q.progress)))
              q.queued
        ≡ take perpage (drop to_skip (all_names q))
  across h k =
      let got = drop to_skip q.progress in
      ap (λ l. got ++ map (λ e. e.name) l)
        (take-queued (length q.queued) perpage (length got) q.queued refl)
      ∙ ap (◌++◌ got) (sym (take-map (λ e. e.name) (perpage - length got) q.queued))
      ∙ sym (
          ap (take perpage) (drop-append_le to_skip q.progress _ (omega arith))
          ∙ take-append_ge perpage got _ (omega (arith, length-drop to_skip q.progress)))

  in_queue :
      length q.progress ≤ to_skip
      → names
          (to_skip - length q.progress)
          (queued_len (length q.queued - (to_skip - length q.progress)) perpage 0)
          q.queued
        ≡ take perpage (drop to_skip (all_names q))
  in_queue h =
      let d = to_skip - length q.progress in
      ap (map (λ e. e.name))
        (take-queued (length q.queued - d) perpage 0 (drop d q.queued) (length-drop d q.queued))
      ∙ sym (take-map (λ e. e.name) (perpage - 0) (drop d q.queued))
      ∙ ap (take (perpage - 0)) (sym (drop-map (λ e. e.name) d q.queued))
      ∙ ap (λ k. take k (drop d (map (λ e. e.name) q.queued))) (omega arith)
      ∙ ap (take perpage) (sym (drop-append_ge to_skip q.progress (map (λ e. e.name) q.queued) h))

  past_end :
      length q.progress + length q.queued ≤ to_skip → [] ≡ take perpage (drop to_skip (all_names q))
  past_end h = sym (
      ap (take perpage) (
        drop-all to_skip (all_names q) (
          omega (
            arith,
            length-append q.progress (map (λ e. e.name) q.queued),
            length-map (λ (e : JobQueueEntry). e.name) q.queued,
          )))
      ∙ take-nil perpage)

  listed-cut_page : listed (cut_page q to_skip perpage) ≡ take perpage (drop to_skip (all_names q))
  unfolding cut_page
  listed-cut_page = ground (arith, past_end, in_progress, across, in_queue)

  skipped-cut_page : (cut_page q to_skip perpage).skipped ≡ min to_skip (length (all_names q))
  unfolding cut_page
  skipped-cut_page = ground (
    arith,
    length-append q.progress (map (λ e. e.name) q.queued),
    length-map (λ (e : JobQueueEntry). e.name) q.queued,
  )

-- From page 1 on `Jobs` returns a page, and its files in progress followed by its queued files are
-- the `perpage` jobs that stand behind the first `(page - 1) * perpage` jobs, the jobs in progress
-- before the queued ones. The pages before it are what is reported as skipped, or all jobs where the
-- page lies behind the last job.
pub jobs-window :
    (q : JobQueue) (page perpage : ℕ)
    → 1 ≤ page
    → (p : Page) × (jobs q page perpage ≡ some p)
      × (listed p ≡ take perpage (drop ((page - 1) * perpage) (all_names q)))
      × (p.skipped ≡ min ((page - 1) * perpage) (length (all_names q)))
jobs-window q page perpage h = (
  cut_page q ((page - 1) * perpage) perpage,
  unfold jobs in ground arith,
  listed-cut_page q ((page - 1) * perpage) perpage,
  skipped-cut_page q ((page - 1) * perpage) perpage,
)
