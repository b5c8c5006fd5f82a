-- ===== src/Pool/Order.antt =====
-- The order in which the tasks of a pool are run, against a list that is kept sorted.
use mathlib.Core.List.{map}
use tazer.Base.{
  ℕ, suc, ◌+◌, ◌%◌, ◌<◌, ◌≤◌, ◌≡◌, if◌then◌else◌, ltb, List, [], ◌∷◌, All, Option, none, some,
  arith, refl, ap, Bool-cases, inl, inr,
}
use tazer.Pool.Queue.{
  u32, TaskEntry, Op, add, take_task, is_after, pop_top, new_queue, add_task, take_round, run_queue,
}

module _ {F : Type 0} where
  -- The queue as its user sees it: tasks with their priorities, those to run first in front.
  abbrev pub insert_job : ℕ → F → List (ℕ × F) → List (ℕ × F)
  insert_job p f [] = (p, f) ∷ []
  insert_job p f (x ∷ l) = if ltb p x.0 then (p, f) ∷ x ∷ l else x ∷ insert_job p f l

  -- The calls on that list: a task goes behind those of its priority, and the first one is run.
  unfoldable pub run_jobs : List (ℕ × F) → List (Op F) → List (Option F)
  run_jobs l [] = []
  run_jobs l (add p f ∷ ops) = run_jobs (insert_job p f l) ops
  run_jobs [] (take_task ∷ ops) = none ∷ run_jobs [] ops
  run_jobs (x ∷ l) (take_task ∷ ops) = some x.1 ∷ run_jobs l ops

  abbrev place : TaskEntry F → List (TaskEntry F) → List (TaskEntry F)
  place e [] = e ∷ []
  place e (x ∷ l) = if is_after e x then x ∷ place e l else e ∷ x ∷ l

  -- The entries in the order in which they come out.
  abbrev sorted : List (TaskEntry F) → List (TaskEntry F)
  sorted [] = []
  sorted (e ∷ q) = place e (sorted q)

  abbrev job : TaskEntry F → ℕ × F
  job e = (e.priority, e.func)

  pop_top-sorted :
      (e : TaskEntry F) (q : List (TaskEntry F))
      → sorted (e ∷ q) ≡ (pop_top e q).0 ∷ sorted (pop_top e q).1
  unfolding pop_top
  pop_top-sorted e [] = refl
  pop_top-sorted e (x ∷ q) = elim (Bool-cases (is_after e (pop_top x q).0)) [
    | inl a ↦ rw (pop_top-sorted x q, a) refl
    | inr a ↦ rw (a, pop_top-sorted x q, a) refl
  ]

  -- Stamps below `t`, falling from the front.
  abbrev Newest : ℕ → List (TaskEntry F) → Type 0
  Newest t [] = Unit
  Newest t (e ∷ q) = (e.time_stamp < t) × Newest e.time_stamp q

  Newest-later : (t u : ℕ) (q : List (TaskEntry F)) → t ≤ u → Newest t q → Newest u q
  Newest-later t u [] le h = tt
  Newest-later t u (e ∷ q) le h = (omega (arith, h.0), h.1)

  pop_top-Newest :
      (t : ℕ) (e : TaskEntry F) (q : List (TaskEntry F))
      → Newest t (e ∷ q)
      → Newest t (pop_top e q).1
  unfolding pop_top
  pop_top-Newest t e [] h = tt
  pop_top-Newest t e (x ∷ q) h = elim (Bool-cases (is_after e (pop_top x q).0)) [
    | inl a ↦ rw (a) (h.0, pop_top-Newest e.time_stamp x q h.1)
    | inr a ↦ rw (a) (Newest-later e.time_stamp t (x ∷ q) (omega (arith, h.0)) h.1)
  ]

  abbrev Older : ℕ → List (TaskEntry F) → Type 0
  Older t = All (λ x. x.time_stamp < t)

  place-Older :
      (t : ℕ) (e : TaskEntry F) (l : List (TaskEntry F))
      → e.time_stamp < t
      → Older t l
      → Older t (place e l)
  place-Older t e [] lt h = (lt, tt)
  place-Older t e (x ∷ l) lt h = elim (Bool-cases (is_after e x)) [
    | inl a ↦ rw (a) (h.0, place-Older t e l lt h.1)
    | inr a ↦ rw (a) (lt, h)
  ]

  Newest-Older : (t : ℕ) (q : List (TaskEntry F)) → Newest t q → Older t (sorted q)
  Newest-Older t [] h = tt
  Newest-Older t (e ∷ q) h =
      place-Older t e (sorted q) h.0
        (Newest-Older t q (Newest-later e.time_stamp t q (omega (arith, h.0)) h.1))

  -- A newer entry comes out after the others of its priority.
  place-insert :
      (e : TaskEntry F) (l : List (TaskEntry F))
      → Older e.time_stamp l
      → map job (place e l) ≡ insert_job e.priority e.func (map job l)
  unfolding is_after
  place-insert e [] h = refl
  place-insert e (x ∷ l) h = ground (arith, h.0, place-insert e l h.1)

  abbrev pub count_adds : List (Op F) → ℕ
  count_adds [] = 0
  count_adds (add p f ∷ ops) = suc (count_adds ops)
  count_adds (take_task ∷ ops) = count_adds ops

  run_queue-run_jobs :
      (ops : List (Op F)) (i : ℕ) (q : List (TaskEntry F))
      → Newest i q
      → i + count_adds ops < u32
      → run_queue (record { index = i; q = q }) ops ≡ run_jobs (map job (sorted q)) ops
  unfolding run_jobs run_queue add_task take_round
  run_queue-run_jobs [] i q h lt = refl
  run_queue-run_jobs (add p f ∷ ops) i q h lt =
      let e : TaskEntry F = record { priority = p; time_stamp = i; func = f } in
      let next : (i + 1) % u32 ≡ i + 1 = omega (arith, lt) in
      rw (next, ← place-insert e (sorted q) (Newest-Older i q h))
        (run_queue-run_jobs ops (i + 1) (e ∷ q) (omega arith, h) (omega (arith, lt)))
  run_queue-run_jobs (take_task ∷ ops) i [] h lt = ap (◌∷◌ none) (run_queue-run_jobs ops i [] h lt)
  run_queue-run_jobs (take_task ∷ ops) i (e ∷ q) h lt =
      let r = pop_top e q in
      rw (pop_top-sorted e q)
        (ap (◌∷◌ (some r.0.func)) (run_queue-run_jobs ops i r.1 (pop_top-Newest i e q h) lt))

  -- For calls of addTask, fewer than 2^32, and rounds of workLoop on a new pool in any order, each
  -- round runs the task in front of a list that is kept sorted by priority, with equal priorities
  -- in the order in which they were added, and none exactly if that list is empty.
  pub run_queue-Jobs :
      (ops : List (Op F)) → count_adds ops < u32 → run_queue new_queue ops ≡ run_jobs [] ops
  run_queue-Jobs ops lt = run_queue-run_jobs ops 0 [] tt (omega (arith, lt))
