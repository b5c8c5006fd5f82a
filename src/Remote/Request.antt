-- ===== src/Remote/Request.antt =====
-- `requestBlk` of NetworkCache.cpp over the messages of a connection.
use tazer.Base.{
  ℕ, zero, suc, ◌+◌, ◌-◌, ◌*◌, ◌%◌, ltb, Bool, true, false, not, ◌&&◌, if◌then◌else◌, ◌==◌, List,
  [], ◌∷◌, Option, none, some,
}
use tazer.Message.Bytes.{Buffer, get_bytes}
use tazer.Message.Build.{build_request_blk}
use tazer.Bounded.Types.{u32, u64}
use tazer.Message.Transfer.{Connection, client_send_retry, SentBlock, rec_send_blk}

-- `Config::socketRetry`, `Config::networkBlockSize`, what uninitialised memory holds, and
-- `LZ4_decompress_safe` into a buffer of the given size, which may fail.
pub record NetworkSetup : Type 0 where
  pub socket_retry : ℕ
  pub network_block_size : ℕ
  pub fresh : Buffer
  pub lz4_decompress : Buffer → ℕ → ℕ → Option Buffer

-- What the cache knows of the file: its name, its size, and whether its blocks come compressed.
pub record RemoteFile : Type 0 where
  pub name : List ℕ
  pub file_size : ℕ
  pub compress : Bool

-- The data of the answered request; none is `NULL`.
abbrev pub Answer : Type 0
Answer = Option Buffer

-- `end - start` in 64 bits, passed on as the `uint32_t` size of the buffer of `decompress`.
abbrev pub block_size_of : NetworkSetup → RemoteFile → ℕ → ℕ
block_size_of u f blk =
    let start = blk * u.network_block_size % u64 in
    if ltb f.file_size start
    then (f.file_size + u64 - start) % u64 % u32
    else u.network_block_size % u64 % u32

abbrev pub is_nil : List ℕ → Bool
is_nil [] = true
is_nil (x ∷ xs) = false

-- `!fileName.empty() && dataSize && blk == i`.
abbrev pub is_block : SentBlock → ℕ → Bool
is_block b i = not (is_nil b.file_name) && (not (b.data_size == 0) && b.blk == i)

-- What becomes of a received block: nothing where it did not come, and otherwise its data, which
-- `decompress` may fail to make.
abbrev pub accept : NetworkSetup → RemoteFile → ℕ → SentBlock → Option Buffer → Option Answer
accept u f i b none = none
accept u f i b (some bytes) =
    if is_block b i
    then some (
        if f.compress then u.lz4_decompress bytes b.data_size (block_size_of u f i) else some bytes)
    else none

abbrev pub first_success {ℓ} :
    {S : Type ℓ} → S × Option Answer → S × Option Answer → S × Option Answer
first_success (s, none) rest = rest
first_success (s, some a) rest = (s, some a)

module _ {S : Type 0} (conn : Connection S) (u : NetworkSetup) (f : RemoteFile) where
  -- The receive behind a request that was sent, or not.
  unfoldable pub receive_block : ℕ → S × Bool → S × Option Answer
  unfolding rec_send_blk
  receive_block blk (s, false) = (s, none)
  receive_block blk (s, true) =
      let b = rec_send_blk conn u.socket_retry u.fresh s none u.network_block_size in
      (b.0, accept u f blk b.1 b.1.bytes)

  -- One round of the loop of `requestBlk`.
  unfoldable pub request_once : S → ℕ → S × Option Answer
  unfolding client_send_retry receive_block build_request_blk
  request_once s blk =
      let p = build_request_blk u.fresh f.name blk blk in
      receive_block blk (client_send_retry conn u.socket_retry s (get_bytes p.buff 0 p.size))

  -- The loop with `n` rounds left; none says that `success` stays false.
  unfoldable pub request_rounds : ℕ → S → ℕ → S × Option Answer
  unfolding request_once
  request_rounds zero s blk = (s, none)
  request_rounds (suc n) s blk =
      let r = request_once s blk in let rest = request_rounds n r.0 blk in first_success r rest

  -- `requestBlk`.
  unfoldable pub request_blk : S → ℕ → S × Option Answer
  unfolding request_rounds
  request_blk s blk = request_rounds u.socket_retry s blk
