-- ===== src/Pool/Tests.antt =====
-- Pools with a few calls, on which the theorems of this component are applied.
use tazer.Base.{
  ℕ, ◌+◌, ◌*◌, ◌<◌, ◌≡◌, ◌⊎◌, true, false, if◌then◌else◌, ltb, List, [], ◌∷◌, none, some, arith,
  refl,
}
use tazer.Pool.Queue.{
  Op, add, take_task, new_queue, run_queue, add_task, take_round, pop_top, is_after,
}
use tazer.Pool.Order.{run_jobs, run_queue-Jobs}
use tazer.Pool.Threads.{
  Call, threads_call, initiate_call, terminate_call, new_pool, call, calls, add_threads, initiate,
  terminate, threads_to_add, IsPool, history-IsPool,
}
use tazer.Pool.Drain.{DrainState, start_poll, wait_drain, wait_drain-ends}

-- Three tasks, two of them of one priority, and four rounds of a worker.
abbrev ops : List (Op ℕ)
ops = add 2 20 ∷ add 1 10 ∷ add 2 21 ∷ take_task ∷ take_task ∷ take_task ∷ take_task ∷ []

run_queue-Jobs_example : run_queue new_queue ops ≡ run_jobs [] ops
run_queue-Jobs_example = run_queue-Jobs ops (omega arith)

ops_run : run_queue new_queue ops ≡ some 10 ∷ some 20 ∷ some 21 ∷ none ∷ []
unfolding run_queue add_task take_round pop_top is_after
ops_run = refl

abbrev some_calls : List Call
some_calls = initiate_call ∷ threads_call 3 ∷ terminate_call false ∷ terminate_call true ∷ []

history-IsPool_example :
    IsPool (calls (new_pool 4) some_calls) × ((calls (new_pool 4) some_calls).max_threads ≡ 4)
history-IsPool_example =
    history-IsPool 4 some_calls (omega arith, (omega arith, (omega arith, (omega arith, tt))))
      (omega arith)

-- Forced shut down, a pool without users comes back with the next `terminate`.
revived :
    (calls
      (new_pool 4)
      (initiate_call ∷ terminate_call true ∷ terminate_call false ∷ threads_call 3 ∷ [])).threads
    ≡ 3
unfolding calls call initiate add_threads terminate threads_to_add
revived = refl

-- A queue of two tasks that goes down by one at the third read and by one at the sixth.
abbrev sizes : ℕ → ℕ
sizes j = if ltb j 3 then 2 else if ltb j 6 then 1 else 0

wait_drain-ends_example :
    (end : DrainState) × (wait_drain (10 * sizes 0 + 11) sizes (start_poll sizes) ≡ some end)
    × ((sizes end.read ≡ 0) ⊎ ((j : ℕ) → end.read < j + 20 → j < end.read → sizes j ≡ end.cur_size))
wait_drain-ends_example = wait_drain-ends sizes (λ j. ground arith)
