-- ===== src/Pool/Threads.antt =====
-- The threads and users of a pool: `addThreads`, `initiate` and `terminate`, each under `_tMutex`.
-- The wait for the queue inside `terminate` is in Drain; the wait for the workers ends when each has
-- left its loop, so nothing is left of it but the counter at 0. The numbers wrap at 32 bits.
use tazer.Base.{
  ℕ, ◌+◌, ◌-◌, ◌%◌, ◌<◌, ◌≤◌, ◌≡◌, Bool, true, false, not, ◌||◌, if◌then◌else◌, ◌==◌, ltb, List, [],
  ◌∷◌, All, length, arith, refl, Bool-cases, inl, inr, ◌∙◌,
}
use tazer.Pool.Queue.{u32}

-- `_maxThreads`, `_users`, `_currentThreads`, the size of `_threads`, and `_alive`.
pub record Pool : Type 0 where
  pub max_threads : ℕ
  pub users : ℕ
  pub current_threads : ℕ
  pub threads : ℕ
  pub alive : Bool

-- The constructors.
abbrev pub new_pool : ℕ → Pool
new_pool m = record { max_threads = m; users = 0; current_threads = 0; threads = 0; alive = true }

-- How many threads `addThreads` starts.
unfoldable pub threads_to_add : Pool → ℕ → ℕ
threads_to_add p n =
    let current = p.threads % u32 in
    if ltb p.max_threads ((n + current) % u32) then (p.max_threads + u32 - current) % u32 else n

-- `addThreads`: the pool and the number returned.
unfoldable pub add_threads : Pool → ℕ → Pool × ℕ
unfolding threads_to_add
add_threads p n =
    if p.alive
    then (
      record {
        max_threads = p.max_threads;
        users = (p.users + 1) % u32;
        current_threads = (p.current_threads + threads_to_add p n) % u32;
        threads = p.threads + threads_to_add p n;
        alive = true;
      },
      threads_to_add p n,
    )
    else (p, n)

-- `initiate`.
unfoldable pub initiate : Pool → Pool × ℕ
unfolding add_threads
initiate p = add_threads p p.max_threads

-- `terminate`: the pool, and whether it was shut down.
unfoldable pub terminate : Pool → Bool → Pool × Bool
terminate p force =
    let left = if p.users == 0 then 0 else p.users - 1 in
    if (left == 0) || force
    then (
      record {
        max_threads = p.max_threads;
        users = left;
        current_threads = 0;
        threads = 0;
        alive = not force;
      },
      true,
    )
    else (
      record {
        max_threads = p.max_threads;
        users = left;
        current_threads = p.current_threads;
        threads = p.threads;
        alive = p.alive;
      },
      false,
    )

pub data Call : Type 0 where
  threads_call : (n : ℕ) → Call
  initiate_call : Call
  terminate_call : (force : Bool) → Call

-- What one call makes of the pool.
unfoldable pub call : Pool → Call → Pool
unfolding add_threads initiate terminate
call p (threads_call n) = (add_threads p n).0
call p initiate_call = (initiate p).0
call p (terminate_call force) = (terminate p force).0

unfoldable pub calls : Pool → List Call → Pool
unfolding call
calls p [] = p
calls p (c ∷ cs) = calls (call p c) cs

-- The threads are counted, there are at most `max_threads` of them, and none of an unused or a dead
-- pool.
pub record IsPool (p : Pool) : Type 0 where
  pub counted : p.current_threads ≡ p.threads
  pub bounded : p.threads ≤ p.max_threads
  pub unused : p.users ≡ 0 → p.threads ≡ 0
  pub dead : p.alive ≡ false → p.threads ≡ 0

-- A request for threads that no wrap-around of 32 bits disturbs.
abbrev pub IsSmall : ℕ → Call → Type 0
IsSmall m (threads_call n) = n + m < u32
IsSmall m initiate_call = m + m < u32
IsSmall m (terminate_call force) = Unit

add_threads-IsPool :
    (p : Pool) (n : ℕ)
    → IsPool p
    → n + p.max_threads < u32
    → p.users + 1 < u32
    → IsPool (add_threads p n).0
      × ((add_threads p n).0.max_threads ≡ p.max_threads)
      × ((add_threads p n).0.users ≤ p.users + 1)
unfolding add_threads threads_to_add
add_threads-IsPool p n h small room = elim (Bool-cases p.alive) [
  | inl e ↦ rw (e) (
    record {
      counted = ground (arith, h.counted, h.bounded);
      bounded = ground (arith, h.counted, h.bounded);
      unused = λ z. absurd (omega (arith, z, room));
      dead = λ z. absurd (cc z);
    },
    refl,
    omega arith,
  )
  | inr e ↦ rw (e) (
    record { counted = h.counted; bounded = h.bounded; unused = h.unused; dead = λ z. h.dead e },
    refl,
    omega arith,
  )
]

terminate-IsPool :
    (p : Pool) (force : Bool)
    → IsPool p
    → IsPool (terminate p force).0
      × ((terminate p force).0.max_threads ≡ p.max_threads)
      × ((terminate p force).0.users ≤ p.users + 1)
unfolding terminate
terminate-IsPool p force h =
    let left = if p.users == 0 then 0 else p.users - 1 in
    elim (Bool-cases ((left == 0) || force)) [
      | inl e ↦ rw (e) (
        record { counted = refl; bounded = omega arith; unused = λ z. refl; dead = λ z. refl },
        refl,
        ground arith,
      )
      | inr e ↦ rw (e) (
        record {
          counted = h.counted;
          bounded = h.bounded;
          unused = λ z. absurd (ground (arith, e, z));
          dead = h.dead;
        },
        refl,
        ground arith,
      )
    ]

call-IsPool :
    (c : Call) (p : Pool)
    → IsPool p
    → IsSmall p.max_threads c
    → p.users + 1 < u32
    → IsPool (call p c)
      × ((call p c).max_threads ≡ p.max_threads)
      × ((call p c).users ≤ p.users + 1)
unfolding call initiate
call-IsPool (threads_call n) p h small room = add_threads-IsPool p n h small room
call-IsPool initiate_call p h small room = add_threads-IsPool p p.max_threads h small room
call-IsPool (terminate_call force) p h small room = terminate-IsPool p force h

calls-IsPool :
    (cs : List Call) (p : Pool)
    → IsPool p
    → All (IsSmall p.max_threads) cs
    → p.users + length cs < u32
    → IsPool (calls p cs) × ((calls p cs).max_threads ≡ p.max_threads)
unfolding calls
calls-IsPool [] p h small room = (h, refl)
calls-IsPool (c ∷ cs) p h small room =
    let (next, same, users) = call-IsPool c p h small.0 (omega arith) in
    let rest = calls-IsPool cs (call p c) next (rw (same) small.1) (omega (arith, users)) in
    (rest.0, rest.1 ∙ same)

-- After any calls of addThreads, initiate and terminate on a new pool, fewer than 2^32 of them and
-- without a number that wraps at 32 bits, the pool has at most the threads that it was made for, its
-- counter says how many, and it has none while its count of users is 0 or its flag `_alive` is false.
pub history-IsPool :
    (m : ℕ) (cs : List Call)
    → All (IsSmall m) cs
    → length cs < u32
    → IsPool (calls (new_pool m) cs) × ((calls (new_pool m) cs).max_threads ≡ m)
history-IsPool m cs small few = calls-IsPool cs (new_pool m) start small (omega (arith, few))
  where
    start : IsPool (new_pool m)
    start = record {
      counted = refl;
      bounded = omega arith;
      unused = λ z. refl;
      dead = λ z. absurd (cc z);
    }
