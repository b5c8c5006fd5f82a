-- ===== src/Remote/Server.antt =====
-- The server's answer to a request for blocks: `requestBlockFromFile` of src/server/Server.cpp and
-- `transferBlk` of src/server/ServeFile.cpp, over a connection.
use tazer.Base.{
  ℕ, zero, suc, ◌+◌, ◌-◌, Bool, true, false, not, ◌&&◌, if◌then◌else◌, ◌==◌, ltb, List, [], ◌++◌,
  length, Option, none, some,
}
use tazer.Message.Bytes.{Buffer, put_bytes}
use tazer.Message.Layout.{get_msg_type, type_code, req_blk_msg}
use tazer.Message.Parse.{parse_request_blk}
use tazer.Message.Transfer.{Connection, block_packet, server_send_close_new}

-- A `ServeFile`. `block` is the data of a block as the server's caches give it, compressed where the
-- file is.
pub record ServeFile : Type 0 where
  pub name : List ℕ
  pub comp_level : ℕ
  pub num_blks : ℕ
  pub output : Bool
  pub block : ℕ → List ℕ

module _ {S : Type 0} (conn : Connection S) (junk : Buffer) where
  -- `transferBlk`.
  unfoldable pub transfer_blk : ServeFile → S → ℕ → S × Bool
  transfer_blk f s blk =
      let bytes = f.block blk in
      let packet = block_packet junk f.name f.comp_level blk (length bytes) in
      if not f.output && ltb blk f.num_blks
      then server_send_close_new conn s packet f.name bytes
      else (s, false)

  -- The loop of `requestBlockFromFile` from block `i` on, with `n` blocks left. The `unsigned` counter
  -- of the code wraps only behind block 2^32 - 1, which a file of fewer than 2^32 blocks does not have:
  -- `transferBlk` fails there and ends the loop.
  unfoldable pub transfer_blks : ServeFile → S → ℕ → ℕ → S
  unfolding transfer_blk
  transfer_blks f s i zero = s
  transfer_blks f s i (suc n) =
      let r = transfer_blk f s i in
      let rest = transfer_blks f r.0 (i + 1) n in if r.1 then rest else r.0

  -- The two branches on what `getServeFile` finds.
  abbrev pub transfer_from : Option ServeFile → S → ℕ → ℕ → S
  transfer_from none s start end = s
  transfer_from (some f) s start end = transfer_blks f s start (end + 1 - start)

  -- `requestBlockFromFile`.
  unfoldable pub request_block_from_file : (List ℕ → Option ServeFile) → S → Buffer → ℕ → S
  unfolding transfer_blks parse_request_blk
  request_block_from_file files s buff received =
      let r = parse_request_blk buff received in transfer_from (files r.name) s r.start r.end

  -- The case REQ_BLK_MSG of `pollConnection`, for the bytes of one message.
  unfoldable pub poll_request : (List ℕ → Option ServeFile) → S → List ℕ → S
  unfolding request_block_from_file
  poll_request files s xs =
      let buff = put_bytes junk 0 xs in
      if get_msg_type buff == type_code req_blk_msg
      then request_block_from_file files s buff (length xs)
      else s

-- The server's end of a connection that takes all bytes that are sent.
abbrev pub wire : Connection (List ℕ)
wire = record {
  send_msg = λ q xs. (q ++ xs, some (length xs));
  recv_msg = λ q n. (q, record { bytes = []; failed = true });
  restart_socket = λ q. (q, true);
  close_socket = λ q. q;
}
