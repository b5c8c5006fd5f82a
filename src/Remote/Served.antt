-- ===== src/Remote/Served.antt =====
-- A block that the network cache requests from a server that has it.
use tazer.Base.{ℕ, ◌≤◌, ◌<◌, ◌≡◌, false, if◌then◌else◌, List, [], ◌∷◌, ◌++◌, length, Option, some}
use tazer.Message.Bytes.{Buffer, put_bytes, get_bytes}
use tazer.Message.Layout.{u32}
use tazer.Message.Build.{build_request_blk}
use tazer.Message.RoundTrip.{IsName}
use tazer.Message.Pipe.{IsSource}
use tazer.Message.Transfer.{Connection, block_packet}
use tazer.Remote.Request.{NetworkSetup, RemoteFile, Answer, block_size_of}
use tazer.Remote.Server.{ServeFile, poll_request, wire}

-- The client's end of a connection whose other end answers each message that is sent.
pub record IsServed {S : Type 0} (conn : Connection S) (queue : S → List ℕ)
    (respond : List ℕ → List ℕ) : Type 0 where
  pub source : IsSource conn queue
  pub sends : (s : S) (xs : List ℕ) → (conn.send_msg s xs).1 ≡ some (length xs)
  pub answers : (s : S) (xs : List ℕ) → queue (conn.send_msg s xs).0 ≡ queue s ++ respond xs

-- The server has the block of the file, and it fits the client's buffer and the fields of its
-- message.
pub record HasBlock (u : NetworkSetup) (f : RemoteFile) (g : ServeFile) (blk : ℕ) : Type 0 where
  pub named : IsName f.name
  pub same : g.name ≡ f.name
  pub readable : g.output ≡ false
  pub inside : blk < g.num_blks
  pub number : blk < u32
  pub filled : 0 < length (g.block blk)
  pub fits : length (g.block blk) ≤ u.network_block_size
  pub small : length (g.block blk) < u32

-- What the client makes of the block's bytes.
abbrev pub answer_of : NetworkSetup → RemoteFile → ServeFile → ℕ → Answer
answer_of u f g blk =
    let bytes = put_bytes u.fresh 0 (g.block blk) in
    if f.compress
    then u.lz4_decompress bytes (length (g.block blk)) (block_size_of u f blk)
    else some bytes

module _ (u : NetworkSetup) (f : RemoteFile) (g : ServeFile) (blk : ℕ) (h : HasBlock u f g blk)
    (junk : Buffer) (files : List ℕ → Option ServeFile) (found : files f.name ≡ some g) where
  abbrev packet : Buffer
  packet = block_packet junk g.name g.comp_level blk (length (g.block blk))

  abbrev request : List ℕ
  request = let p = build_request_blk u.fresh f.name blk blk in get_bytes p.buff 0 p.size

  abbrev parts : List ℕ
  parts = get_bytes packet 0 32 ++ ((g.name ++ 0 ∷ []) ++ g.block blk)

  module _ {S : Type 0} (conn : Connection S) (queue : S → List ℕ) (s : S)
      (served : IsServed conn queue (poll_request wire junk files [])) (idle : queue s ≡ []) where
    abbrev asked : S
    asked = (conn.send_msg s request).0
