-- ===== src/Remote/Sizes.antt =====
-- The connections of a file lead to servers that agree on its size.
use native.Mathlib.Decide.{ℕ_discrete}
use tazer.Base.{
  ℕ, zero, suc, ◌+◌, ◌≡◌, ◌≢◌, not, ◌&&◌, if◌then◌else◌, ◌==◌, List, [], ◌∷◌, count, arith, refl,
  ◌∙◌, ap, ==_ne,
}
use tazer.Remote.Connections.{push_connection}
use tazer.Remote.Conserve.{count-push}
use tazer.Remote.Servers.{
  Servers, Server, new_servers, answered_size, open_file, push_sockets, open_task, open_tasks,
}

module _ (socket_retry : ℕ) where
  -- The size that a server gives.
  abbrev pub size_of : Server → ℕ
  size_of s = answered_size socket_retry s.attempt 0

  -- The size that the pool settles on: that of the first server that gives one.
  abbrev pub first_size : ℕ → List Server → ℕ
  first_size n [] = n
  first_size n (s ∷ ss) = first_size (if n == 0 then size_of s else n) ss

  -- How many sockets connection `c` has on servers that give the size `n`.
  abbrev pub sockets : ℕ → ℕ → List Server → ℕ
  sockets n c [] = 0
  sockets n c (s ∷ ss) =
      (if (size_of s == n) && not (n == 0)
        then (if s.connection == c then s.num_sockets else 0)
        else 0)
      + sockets n c ss

  count-push_sockets :
      (c d n : ℕ) (q : List ℕ)
      → count c (push_sockets q d n) ≡ (if d == c then n else 0) + count c q
  unfolding push_sockets
  count-push_sockets c d zero q = ground arith
  count-push_sockets c d (suc n) q =
      ground (arith, count-push_sockets c d n (push_connection q d), count-push c d q)

  -- One task settles the size where it is open, and adds the sockets of a server that agrees.
  open_task-sockets :
      (p : Servers) (s : Server) (c : ℕ)
      → (let n : ℕ = if p.file_size == 0 then size_of s else p.file_size in
          let q : Servers = open_task socket_retry p s in
          (q.file_size ≡ n) × (count c q.mq ≡ sockets n c (s ∷ []) + count c p.mq))
  unfolding open_task open_file
  open_task-sockets p s c = ground (arith, count-push_sockets c s.connection s.num_sockets p.mq)

  first_size-settled : (n : ℕ) (ss : List Server) → n ≢ 0 → first_size n ss ≡ n
  first_size-settled n [] h = refl
  first_size-settled n (s ∷ ss) h = rw (==_ne n 0 h) (first_size-settled n ss h)

  -- A size of 0 settles nothing, and its server has no sockets for any other.
  sockets-one :
      (n : ℕ) (s : Server) (ss : List Server) (c : ℕ)
      → sockets (if n == 0 then size_of s else n) c (s ∷ [])
        ≡ sockets (first_size n (s ∷ ss)) c (s ∷ [])
  sockets-one n s ss c = elim (ℕ_discrete (if n == 0 then size_of s else n) 0) [
    | yes z ↦ ground (arith, z)
    | no d ↦ rw (first_size-settled (if n == 0 then size_of s else n) ss d) refl
  ]

  open_task-valid :
      (p : Servers) (s : Server)
      → p.valid_server ≡ not (p.file_size == 0)
      → (open_task socket_retry p s).valid_server
        ≡ not ((open_task socket_retry p s).file_size == 0)
  unfolding open_task open_file
  open_task-valid p s h = ground (arith, h)

  open_tasks-sockets :
      (ss : List Server) (p : Servers)
      → p.valid_server ≡ not (p.file_size == 0)
      → (let q : Servers = open_tasks socket_retry p ss in
          let n : ℕ = first_size p.file_size ss in
          (q.file_size ≡ n)
          × (q.valid_server ≡ not (n == 0))
          × ((c : ℕ) → count c q.mq ≡ sockets n c ss + count c p.mq))
  unfolding open_tasks
  open_tasks-sockets [] p h = (refl, h, λ c. omega arith)
  open_tasks-sockets (s ∷ ss) p h =
      let r = open_tasks-sockets ss (open_task socket_retry p s) (open_task-valid p s h) in
      let e = (open_task-sockets p s 0).0 in
      (
        r.0 ∙ ap (λ n. first_size n ss) e,
        r.1 ∙ ap (λ n. not (first_size n ss == 0)) e,
        λ c. omega (
          arith,
          r.2 c,
          ap (λ n. sockets (first_size n ss) c ss) e,
          (open_task-sockets p s c).1,
          sockets-one p.file_size s ss c,
        ),
      )

  -- When the threads of addOpenFileTask have ended, each as one step, in whatever order: the size
  -- of the file is the first size other than 0 that a server gave, the mark for a valid server is
  -- set exactly if there is one, and each connection is in the pool once for each of its sockets on
  -- a server that gave that size, and not at all for others.
  pub open_tasks-sizes :
      (ss : List Server)
      → (let q : Servers = open_tasks socket_retry new_servers ss in
          let n : ℕ = first_size 0 ss in
          (q.file_size ≡ n)
          × (q.valid_server ≡ not (n == 0))
          × ((c : ℕ) → count c q.mq ≡ sockets n c ss))
  open_tasks-sizes ss =
      let r = open_tasks-sockets ss new_servers refl in (r.0, r.1, λ c. omega (arith, r.2 c))
