-- ===== src/Remote/Servers.antt =====
-- Opening a file on its servers: `openFileOnServer` and the threads of `addOpenFileTask`, of
-- ConnectionPool.cpp. The tasks are one step each, in the order in which they end; the size that a
-- server gives is an argument, 0 where no attempt was answered. The test of `_valid_server` before the
-- tasks are added, and the wait with its count `_servers_requested`, are left out.
use tazer.Base.{
  ℕ, zero, suc, ◌+◌, Bool, true, false, if◌then◌else◌, ◌==◌, List, [], ◌∷◌, Option, none, some,
}
use tazer.Remote.Connections.{push_connection}

-- `_fileSize`, `_valid_server` and `_mq`.
pub record Servers : Type 0 where
  pub file_size : ℕ
  pub valid_server : Bool
  pub mq : List ℕ

-- A `Connection`: its number, its sockets, and what each of the attempts to open the file gives:
-- none, or the size in the answer.
pub record Server : Type 0 where
  pub connection : ℕ
  pub num_sockets : ℕ
  pub attempt : ℕ → Option ℕ

-- The constructor.
abbrev pub new_servers : Servers
new_servers = record { file_size = 0; valid_server = false; mq = [] }

-- The loop of `openFileOnServer` from attempt `i` on: the size of the first answer, or 0.
unfoldable pub answered_size : ℕ → (ℕ → Option ℕ) → ℕ → ℕ
answered_size zero attempt i = 0
answered_size (suc left) attempt i =
    let rest = answered_size left attempt (i + 1) in or_rest (attempt i) rest
  where
    or_rest : Option ℕ → ℕ → ℕ
    or_rest none rest = rest
    or_rest (some n) rest = n

-- `openFileOnServer`: `_fileSize` after it, and what it returns.
unfoldable pub open_file : ℕ → Servers → Server → ℕ × Bool
unfolding answered_size
open_file socket_retry p server =
    let file_size = answered_size socket_retry server.attempt 0 in
    if file_size == 0
    then (p.file_size, false)
    else if p.file_size == 0
    then (file_size, true)
    else if p.file_size == file_size
    then (p.file_size, true)
    else (p.file_size, false)

-- `pushConnection` for each socket.
unfoldable pub push_sockets : List ℕ → ℕ → ℕ → List ℕ
push_sockets q c zero = q
push_sockets q c (suc n) = push_sockets (push_connection q c) c n

-- The thread of `addOpenFileTask`.
unfoldable pub open_task : ℕ → Servers → Server → Servers
unfolding open_file push_sockets
open_task socket_retry p server =
    let r = open_file socket_retry p server in
    if r.1
    then record {
      file_size = r.0;
      valid_server = true;
      mq = push_sockets p.mq server.connection server.num_sockets;
    }
    else record { file_size = r.0; valid_server = p.valid_server; mq = p.mq }

-- The threads that have ended, in their order.
unfoldable pub open_tasks : ℕ → Servers → List Server → Servers
unfolding open_task
open_tasks socket_retry p [] = p
open_tasks socket_retry p (s ∷ ss) = open_tasks socket_retry (open_task socket_retry p s) ss
