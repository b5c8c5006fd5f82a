-- ===== src/Pool/Queue.antt =====
-- The queue of `PriorityThreadPool`: what `addTask` and a round of `workLoop` do under its lock.
-- `std::priority_queue` is a list in no particular order (the newest entry first) with the entry
-- that its comparator puts on top. A task is any type, and the number `index` wraps at 32 bits.
use tazer.Base.{ℕ, ◌+◌, ◌%◌, ◌^◌, Bool, if◌then◌else◌, ◌==◌, ltb, List, [], ◌∷◌, Option, none, some}

abbrev pub u32 : ℕ
u32 = 2 ^ 32

module _ (F : Type 0) where
  pub record TaskEntry : Type 0 where
    pub priority : ℕ
    pub time_stamp : ℕ
    pub func : F

  -- `_index` and `_q`.
  pub record TaskQueue : Type 0 where
    pub index : ℕ
    pub q : List TaskEntry

  -- A call on the queue: `addTask`, or a round of `workLoop` that finds what it can.
  pub data Op : Type 0 where
    add : (priority : ℕ) (func : F) → Op
    take_task : Op

module _ {F : Type 0} where
  -- `TaskEntry::operator()`: whether `lhs` comes out after `rhs`.
  unfoldable pub is_after : TaskEntry F → TaskEntry F → Bool
  is_after lhs rhs =
      if lhs.priority == rhs.priority
      then ltb rhs.time_stamp lhs.time_stamp
      else ltb rhs.priority lhs.priority

  -- `top` and `pop` of the entries `e ∷ q`: the one that comes out, and the others.
  unfoldable pub pop_top : TaskEntry F → List (TaskEntry F) → TaskEntry F × List (TaskEntry F)
  unfolding is_after
  pop_top e [] = (e, [])
  pop_top e (x ∷ q) = let r = pop_top x q in if is_after e r.0 then (r.0, e ∷ r.1) else (e, x ∷ q)

  abbrev pub new_queue : TaskQueue F
  new_queue = record { index = 0; q = [] }

  -- `addTask`.
  unfoldable pub add_task : TaskQueue F → ℕ → F → TaskQueue F
  add_task t priority f = record {
    index = (t.index + 1) % u32;
    q = record { priority = priority; time_stamp = t.index; func = f } ∷ t.q;
  }

  -- A round of `workLoop`: the task that it runs, if the queue is not empty.
  unfoldable pub take_round : TaskQueue F → Option F × TaskQueue F
  unfolding pop_top
  take_round t = taken t.q
    where
      taken : List (TaskEntry F) → Option F × TaskQueue F
      taken [] = (none, t)
      taken (e ∷ q) = let r = pop_top e q in (some r.0.func, record { index = t.index; q = r.1 })

  -- Calls in the order in which they get the lock, with what each round runs.
  unfoldable pub run_queue : TaskQueue F → List (Op F) → List (Option F)
  unfolding add_task take_round
  run_queue t [] = []
  run_queue t (add priority f ∷ ops) = run_queue (add_task t priority f) ops
  run_queue t (take_task ∷ ops) = let r = take_round t in r.0 ∷ run_queue r.1 ops
