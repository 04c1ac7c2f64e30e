-- ===== src/JobQueue/Order.antt =====
-- What the methods of lib/model/queue.go do to the order of the jobs.
use Prim.Native.String.{String}
use text.Mathlib.Text.{◌==◌ as str_eq}
use text.Mathlib.TextEquality.{eq_iff}
use vidsync_app.Base.{
  ◌≡◌, ◌≢◌, ◌⊎◌, inl, inr, refl, sym, ap, ◌∙◌, List, [], ◌∷◌, ◌++◌, Option, none, some, map,
  Bool-cases, append_assoc, append-nil,
}
use vidsync_app.JobQueue.{
  JobQueueEntry, JobQueue, pop, pop_queued, bring, bring_to_front, remove_first, done,
}

-- The name of the first entry, which the next `Pop` hands out.
abbrev pub first_name : List JobQueueEntry → Option String
first_name [] = none
first_name (e ∷ es) = some e.name

abbrev pub rest_of : List JobQueueEntry → List JobQueueEntry
rest_of [] = []
rest_of (e ∷ es) = es

abbrev pub listed_name : Option String → List String
listed_name none = []
listed_name (some n) = n ∷ []

abbrev pub IsListed : String → List String → Type 0
IsListed name [] = ⊥
IsListed name (n ∷ ns) = (n ≡ name) ⊎ IsListed name ns

abbrev pub IsQueued : String → List JobQueueEntry → Type 0
IsQueued name es = IsListed name (map (λ e. e.name) es)

-- `Pop` hands out the entry that was queued first, and moves its name to the end of the files in
-- progress; on an empty queue it changes nothing and hands out none.
pub pop_lem :
    (q : JobQueue)
    → ((pop q).0 ≡ first_name q.queued)
      × ((pop q).1.queued ≡ rest_of q.queued)
      × ((pop q).1.progress ≡ q.progress ++ listed_name (first_name q.queued))
unfolding pop
pop_lem q = cases q.queued q refl
  where
    cases :
        (es : List JobQueueEntry) (p : JobQueue)
        → p.queued ≡ es
        → ((pop_queued es p).0 ≡ first_name es)
          × ((pop_queued es p).1.queued ≡ rest_of es)
          × ((pop_queued es p).1.progress ≡ p.progress ++ listed_name (first_name es))
    cases [] p e = (refl, e, sym (append-nil p.progress))
    cases (x ∷ es) p e = (refl, refl, refl)

-- The outcome of `BringToFront` on the entries `es` behind `before`.
abbrev pub Brought : String → List JobQueueEntry → List JobQueueEntry → List JobQueueEntry → Type 0
Brought name before es r =
    ((¬ IsQueued name es) × (r ≡ before ++ es))
    ⊎ ((xs : List JobQueueEntry) × (e : JobQueueEntry) × (ys : List JobQueueEntry) × (es
          ≡ xs ++ (e ∷ ys))
        × (e.name ≡ name)
        × (¬ IsQueued name xs)
        × (r ≡ e ∷ (before ++ (xs ++ ys))))

not-IsListed :
    (name n : String) (ns : List String) → n ≢ name → ¬ IsListed name ns → ¬ IsListed name (n ∷ ns)
not-IsListed name n ns h k (inl e) = h e
not-IsListed name n ns h k (inr m) = k m

Brought-step :
    (name : String) (before : List JobQueueEntry) (e : JobQueueEntry) (es r : List JobQueueEntry)
    → e.name ≢ name
    → Brought name (before ++ (e ∷ [])) es r
    → Brought name before (e ∷ es) r
Brought-step name before e es r h (inl (n, q)) =
    inl (not-IsListed name e.name (map (λ x. x.name) es) h n, q ∙ append_assoc before (e ∷ []) es)
Brought-step name before e es r h (inr (xs, x, ys, p, m, n, q)) = inr (
  e ∷ xs,
  x,
  ys,
  ap (◌∷◌ e) p,
  m,
  not-IsListed name e.name (map (λ x. x.name) xs) h n,
  q ∙ ap (◌∷◌ x) (append_assoc before (e ∷ []) (xs ++ ys)),
)

bring-Brought :
    (name : String) (before es : List JobQueueEntry) → Brought name before es (bring name before es)
unfolding bring
bring-Brought name before [] = inl (λ h. h, sym (append-nil before))
bring-Brought name before (e ∷ es) = elim (Bool-cases (str_eq e.name name)) [
  | inl hit ↦ rw (hit, bring) (inr ([], e, es, refl, (eq_iff e.name name).0 hit, (λ h. h), refl))
  | inr miss ↦
      rw (miss, bring)
        (Brought-step name before e es (bring name (before ++ (e ∷ [])) es)
          (λ h. cc (miss, (eq_iff e.name name).1 h)) (bring-Brought name (before ++ (e ∷ [])) es))
]

-- `BringToFront` moves the first entry of that name to the front and keeps the other entries in
-- their order; a name that is not queued changes nothing. The files in progress stay as they are.
pub bring_to_front_lem :
    (q : JobQueue) (name : String)
    → Brought name [] q.queued (bring_to_front q name).queued
      × ((bring_to_front q name).progress ≡ q.progress)
unfolding bring_to_front
bring_to_front_lem q name = (bring-Brought name [] q.queued, refl)

-- The outcome of taking a name out of a list.
abbrev pub Removed : String → List String → List String → Type 0
Removed name ns r =
    ((¬ IsListed name ns) × (r ≡ ns))
    ⊎ ((xs : List String) × (ys : List String) × (ns ≡ xs ++ (name ∷ ys))
        × (¬ IsListed name xs)
        × (r ≡ xs ++ ys))

Removed-step :
    (name n : String) (ns r : List String)
    → n ≢ name
    → Removed name ns r
    → Removed name (n ∷ ns) (n ∷ r)
Removed-step name n ns r h (inl (k, q)) = inl (not-IsListed name n ns h k, ap (◌∷◌ n) q)
Removed-step name n ns r h (inr (xs, ys, p, k, q)) =
    inr (n ∷ xs, ys, ap (◌∷◌ n) p, not-IsListed name n xs h k, ap (◌∷◌ n) q)

remove_first-Removed : (name : String) (ns : List String) → Removed name ns (remove_first name ns)
unfolding remove_first
remove_first-Removed name [] = inl ((λ h. h), refl)
remove_first-Removed name (n ∷ ns) = elim (Bool-cases (str_eq n name)) [
  | inl hit ↦
      rw (hit, remove_first)
        (inr ([], ns, ap (λ x. x ∷ ns) ((eq_iff n name).0 hit), (λ h. h), refl))
  | inr miss ↦
      rw (miss, remove_first)
        (Removed-step name n ns (remove_first name ns) (λ h. cc (miss, (eq_iff n name).1 h))
          (remove_first-Removed name ns))
]

-- `Done` takes the first file of that name out of the files in progress and keeps the others in
-- their order; a file that is not in progress changes nothing. The queue stays as it is.
pub done_lem :
    (q : JobQueue) (name : String)
    → Removed name q.progress (done q name).progress × ((done q name).queued ≡ q.queued)
unfolding done
done_lem q name = (remove_first-Removed name q.progress, refl)
