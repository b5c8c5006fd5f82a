-- ===== src/Message/Transfer.antt =====
-- The sends and receives of src/common/Message.cpp over a connection, and the block packet of
-- `ServeFile::sendData` in src/server/ServeFile.cpp.
use tazer.Base.{
  ℕ, zero, suc, ◌+◌, ◌%◌, Bool, true, false, not, ◌&&◌, List, [], ◌∷◌, ◌++◌, length, Option, none,
  some, if◌then◌else◌, ◌==◌, ltb,
}
use tazer.Message.Bytes.{Buffer, put32, get32, put_bytes, get_bytes}
use tazer.Message.Layout.{u32, MsgType, send_blk_msg, type_code, fill_msg_header, file_name_size}

-- What `recvMsg` put into the buffer, and whether it returned an error instead of the number of bytes.
pub record Chunk : Type 0 where
  pub bytes : List ℕ
  pub failed : Bool

-- The calls into a `Connection`. `send_msg` returns the number of bytes sent, or an error.
pub record Connection (S : Type 0) : Type 0 where
  pub send_msg : S → List ℕ → S × Option ℕ
  pub recv_msg : S → ℕ → S × Chunk
  pub restart_socket : S → S × Bool
  pub close_socket : S → S

abbrev pub is_sent : Option ℕ → ℕ → Bool
is_sent none size = false
is_sent (some n) size = size == n

-- The packet that `ServeFile::sendData` fills in; the struct is not initialised otherwise.
unfoldable pub block_packet : Buffer → List ℕ → ℕ → ℕ → ℕ → Buffer
unfolding fill_msg_header
block_packet fresh name comp_level blk msg_size =
    put32
      (put32
        (put32
          (fill_msg_header fresh send_blk_msg (file_name_size name)
            ((msg_size + 32 + length name + 1) % u32))
          20 comp_level)
        24 blk)
      28 msg_size

module _ {S : Type 0} (conn : Connection S) where
  -- `clientSendRetry` with `n` attempts left.
  unfoldable pub client_send_retry : ℕ → S → List ℕ → S × Bool
  client_send_retry zero s bytes = (s, false)
  client_send_retry (suc n) s bytes =
      let r = conn.send_msg s bytes in
      let rest = client_send_retry n (conn.restart_socket r.0).0 bytes in
      if is_sent r.1 (length bytes) then (r.0, true) else rest

  -- `serverSendClose`.
  unfoldable pub server_send_close : S → List ℕ → S × Bool
  server_send_close s bytes =
      let r = conn.send_msg s bytes in
      if is_sent r.1 (length bytes) then (r.0, true) else (conn.close_socket r.0, false)

  -- `serverSendCloseNew`: the struct, the name with its zero and the data, until a send fails.
  unfoldable pub server_send_close_new : S → Buffer → List ℕ → List ℕ → S × Bool
  unfolding server_send_close
  server_send_close_new s packet name bytes =
      let a = server_send_close s (get_bytes packet 0 32) in
      let b = server_send_close a.0 (name ++ 0 ∷ []) in
      let c = server_send_close b.0 bytes in if a.1 then if b.1 then c else b else a

  -- `for (i = 0; i < socketRetry; i++) if (restartSocket()) break;`.
  unfoldable pub restart : ℕ → S → S
  restart zero s = s
  restart (suc n) s =
      let r = conn.restart_socket s in let rest = restart n r.0 in if r.1 then r.0 else rest

  -- `clientRecRetryCount`: whether all bytes came, and those that did.
  unfoldable pub client_rec_retry_count : ℕ → S → ℕ → S × Bool × List ℕ
  unfolding restart
  client_rec_retry_count retry s size =
      let r = conn.recv_msg s size in
      if not r.1.failed && length r.1.bytes == size
      then (r.0, true, r.1.bytes)
      else (restart retry r.0, false, r.1.bytes)

-- What `recSendBlkMsg` returns and stores through its references; no data is `NULL`.
pub record SentBlock : Type 0 where
  pub file_name : List ℕ
  pub blk : ℕ
  pub data_size : ℕ
  pub bytes : Option Buffer

abbrev pub or_fresh : Buffer → Option Buffer → Buffer
or_fresh fresh none = fresh
or_fresh fresh (some b) = b

-- `*data` where the block did not come: a buffer of the caller's has the bytes that did.
abbrev pub left_bytes : Option Buffer → List ℕ → Option Buffer
left_bytes none xs = none
left_bytes (some b) xs = some (put_bytes b 0 xs)

-- `dataBufSize` after the buffer has been created where the caller had none.
abbrev pub buf_size : Option Buffer → ℕ → ℕ → ℕ
buf_size none size msg_size = if size == 0 then msg_size else size
buf_size (some b) size msg_size = size

-- `recSendBlkMsg`. `fresh` is what the uninitialised struct and buffer hold.
unfoldable pub rec_send_blk :
    {S : Type 0} → Connection S → ℕ → Buffer → S → Option Buffer → ℕ → S × SentBlock
unfolding client_rec_retry_count
rec_send_blk conn retry fresh s given data_buf_size =
    let head = client_rec_retry_count conn retry s 32 in
    let msg = put_bytes fresh 0 head.2 in
    let name = client_rec_retry_count conn retry head.0 (get32 msg 12) in
    let size = get32 msg 28 in
    let rest = client_rec_retry_count conn retry name.0 size in
    let nothing : SentBlock = record { file_name = []; blk = 0; data_size = 0; bytes = given } in
    if head.1
    then if name.1
      then if ltb (buf_size given data_buf_size size) size
        then (name.0, nothing)
        else if rest.1
        then (
          rest.0,
          record {
            file_name = name.2;
            blk = get32 msg 24;
            data_size = size;
            bytes = some (put_bytes (or_fresh fresh given) 0 rest.2);
          },
        )
        else (
          rest.0,
          record { file_name = []; blk = 0; data_size = 0; bytes = left_bytes given rest.2 },
        )
      else (name.0, nothing)
    else (head.0, nothing)

-- `recAckMsg` for an expected type.
unfoldable pub rec_ack : {S : Type 0} → Connection S → Buffer → S → MsgType → S × Bool
rec_ack conn fresh s type =
    let r = conn.recv_msg s 24 in
    (
      r.0,
      (not r.1.failed && length r.1.bytes == 24)
          && type_code type == get32 (put_bytes fresh 0 r.1.bytes) 20,
    )
