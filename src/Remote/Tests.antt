-- ===== src/Remote/Tests.antt =====
-- A server with one file and a pool of three connections, on which the theorems of this component
-- are applied.
use tazer.Base.{
  ℕ, ◌+◌, ◌≤◌, ◌≡◌, ◌≢◌, ◌↔◌, ◌⊎◌, not, true, false, if◌then◌else◌, ◌==◌, List, [], ◌∷◌, ◌++◌,
  length, take, drop, count, Option, none, some, refl,
}
use tazer.Message.Bytes.{Buffer}
use tazer.Message.Transfer.{Connection}
use tazer.Remote.Request.{NetworkSetup, RemoteFile}
use tazer.Remote.Server.{ServeFile, poll_request, wire}
use tazer.Remote.Read.{Served, read_remote, retry_block}
use tazer.Remote.Connections.{pop_connection}
use tazer.Remote.Conserve.{read_remote-returns}
use tazer.Remote.Servers.{Servers, Server, new_servers, open_tasks}
use tazer.Remote.Sizes.{first_size, sockets, open_tasks-sizes}

abbrev junk : Buffer
junk _ = 7

abbrev file_name : List ℕ
file_name = 97 ∷ 98 ∷ []

abbrev setup : NetworkSetup
setup = record {
  socket_retry = 2;
  network_block_size = 16;
  fresh = junk;
  lz4_decompress = λ b n m. none;
}

abbrev remote_file : RemoteFile
remote_file = record { name = file_name; file_size = 20; compress = false }

abbrev serve_file : ServeFile
serve_file = record {
  name = file_name;
  comp_level = 0;
  num_blks = 2;
  output = false;
  block = λ i. i ∷ 5 ∷ 6 ∷ [];
}

abbrev files : List ℕ → Option ServeFile
files name = some serve_file

abbrev respond : List ℕ → List ℕ
respond xs = poll_request wire junk files [] xs

-- The bytes under way to the client; what it sends is answered at once.
abbrev to_server : Connection (List ℕ)
to_server = record {
  send_msg = λ q xs. (q ++ respond xs, some (length xs));
  recv_msg = λ q n. (drop n q, record { bytes = take n q; failed = false });
  restart_socket = λ q. (q, true);
  close_socket = λ q. q;
}

-- Requests succeed over connection 2 only.
abbrev second_only : ℕ → ℕ → ℕ × Option ℕ
second_only s c = (s + 1, if c == 2 then some 40 else none)

abbrev three : List ℕ
three = 1 ∷ 3 ∷ 2 ∷ []

read_remote-returns_example :
    (((e : Served ℕ ℕ) × (read_remote second_only (λ q. 0) 0 three ≡ some e))
      ↔ ((2 ≤ length three) ⊎ ((c : ℕ) × (three ≡ c ∷ []) × ((second_only 0 c).1 ≢ none))))
    × ((e : Served ℕ ℕ) (a : ℕ)
        → read_remote second_only (λ q. 0) 0 three ≡ some e
        → count a e.pool ≡ count a three)
read_remote-returns_example = read_remote-returns second_only (λ q. 0) 0 three

-- The third request succeeds, and the connections come back in the order of their use.
read_run :
    read_remote second_only (λ q. 0) 0 three
    ≡ some (record { state = 3; pool = 1 ∷ 3 ∷ 2 ∷ []; answer = some 40 })
unfolding read_remote retry_block pop_connection
read_run = refl

-- A server that never answers, and two of which one answers at the second attempt, with another size.
abbrev servers : List Server
servers =
    record { connection = 1; num_sockets = 2; attempt = λ i. none }
    ∷ record { connection = 2; num_sockets = 3; attempt = λ i. some 20 }
    ∷ record { connection = 3; num_sockets = 1; attempt = λ i. if i == 0 then none else some 30 }
    ∷ []

open_tasks-sizes_example :
    (let q : Servers = open_tasks 2 new_servers servers in
      let n : ℕ = first_size 2 0 servers in
      (q.file_size ≡ n)
      × (q.valid_server ≡ not (n == 0))
      × ((c : ℕ) → count c q.mq ≡ sockets 2 n c servers))
open_tasks-sizes_example = open_tasks-sizes 2 servers
