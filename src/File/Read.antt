-- ===== src/File/Read.antt =====
-- `copyBlock` and `read` of src/client/InputFile.cpp and src/client/LocalFile.cpp. The cache chain is
-- an interface: a block is asked for, and its request is ready at once or awaited.
use tazer.Base.{
  ℕ, zero, suc, ◌+◌, ◌-◌, ◌*◌, ◌/◌, ◌%◌, Bool, true, if◌then◌else◌, ◌==◌, ◌&&◌, ltb, leb, memcpy,
  List, [], ◌∷◌, not,
}
use tazer.File.Types.{File, u32, u64, set_file_pos, set_eof}

abbrev pub Bytes : Type 0
Bytes = ℕ → ℕ

-- What `copyBlock` takes from one block: the place in the caller's buffer, the place in the block
-- and the number of bytes, all `uint32_t`.
pub record Piece : Type 0 where
  pub local_start : ℕ
  pub start_fp : ℕ
  pub local_size : ℕ

unfoldable pub piece : ℕ → ℕ → ℕ → ℕ → ℕ → ℕ → Piece
piece blk_size pos count blk start end =
    let within = pos % blk_size in
    let blk_one_size = (blk_size - within) % u32 in
    let local_start = ((blk + u32 - start - 1) % u32 * blk_size % u64 + blk_one_size) % u32 in
    let temp = (pos + count) % u64 % blk_size % u32 in
    if (blk == start) && ((blk + 1) % u32 == end)
    then record { local_start = 0; start_fp = within % u32; local_size = count % u32 }
    else if blk == start
    then record {
      local_start = 0;
      start_fp = within % u32;
      local_size = (blk_size % u32 + u32 - within % u32) % u32;
    }
    else if (blk + 1) % u32 == end
    then record {
      local_start = local_start;
      start_fp = 0;
      local_size = if temp == 0 then blk_size % u32 else temp;
    }
    else record { local_start = local_start; start_fp = 0; local_size = blk_size % u32 }

-- `copyBlock`.
unfoldable pub copy_block : File → ℕ → ℕ → ℕ → ℕ → Bytes → Bytes → ℕ → Bytes
unfolding piece
copy_block f index count start end buf blk_buf blk =
    let p = piece f.blk_size (f.file_pos index) count blk start end in
    memcpy buf p.local_start blk_buf p.start_fp p.local_size

-- What a request carries: `ready`, whether its originating cache is the network's, and `data`.
pub record Reply : Type 0 where
  pub ready : Bool
  pub network : Bool
  pub bytes : Bytes

-- The calls of `read` into the cache chain and the prefetcher, and the order in which an
-- `unordered_map` is walked.
pub record Requests (S : Type 0) : Type 0 where
  pub request_block : S → ℕ → S × Reply
  pub await : S → ℕ → S × Reply
  pub buffer_write : S → ℕ → S
  pub prefetch : S → ℕ → ℕ → S
  pub walk : List ℕ → List ℕ

-- The state of `read`: the caches, the caller's buffer and the two maps of pending reads.
pub record Reading (S : Type 0) : Type 0 where
  pub caches : S
  pub buf : Bytes
  pub net_reads : List ℕ
  pub local_reads : List ℕ

-- The count and the first and last block, after the clamps of `read`.
unfoldable pub clamp : File → ℕ → ℕ → ℕ
clamp f pos count = if ltb (f.file_size - pos) count then f.file_size - pos else count

unfoldable pub end_block : File → ℕ → ℕ → ℕ
end_block f pos count =
    let last = (pos + count) % u64 / f.blk_size % u32 in
    let e = if (pos + count) % u64 % f.blk_size == 0 then last else (last + 1) % u32 in
    if ltb f.num_blks e then f.num_blks else e

module _ {S : Type 0} (ops : Requests S) (f : File) (index count start end : ℕ) where
  -- One round of the request loop.
  unfoldable pub request_one : ℕ → Reading S → Reading S
  request_one blk l =
      let r = ops.request_block l.caches blk in
      if r.1.ready
      then record {
        caches = ops.buffer_write r.0 blk;
        buf = copy_block f index count start end l.buf r.1.bytes blk;
        net_reads = l.net_reads;
        local_reads = l.local_reads;
      }
      else if r.1.network
      then record {
        caches = r.0;
        buf = l.buf;
        net_reads = blk ∷ l.net_reads;
        local_reads = l.local_reads;
      }
      else record {
        caches = r.0;
        buf = l.buf;
        net_reads = l.net_reads;
        local_reads = blk ∷ l.local_reads;
      }

  -- `for (blk = startBlock; blk < endBlock; blk++)`: `n` rounds from a block on.
  unfoldable pub request_all : ℕ → ℕ → Reading S → Reading S
  unfolding request_one
  request_all zero blk l = l
  request_all (suc n) blk l = request_all n (suc blk) (request_one blk l)

  -- One pending read: a request that is not ready is passed over.
  unfoldable pub finish_one : ℕ → S × Bytes → S × Bytes
  finish_one blk l =
      let r = ops.await l.0 blk in
      if r.1.ready
      then (ops.buffer_write r.0 blk, copy_block f index count start end l.1 r.1.bytes blk)
      else (r.0, l.1)

  unfoldable pub finish_all : List ℕ → S × Bytes → S × Bytes
  unfolding finish_one
  finish_all [] l = l
  finish_all (blk ∷ blks) l = finish_all blks (finish_one blk l)

-- The result of `read`: the file, the caches, the caller's buffer and the bytes read.
pub record Result (S : Type 0) : Type 0 where
  pub self : File
  pub caches : S
  pub buf : Bytes
  pub amount : ℕ

-- `InputFile::read`.
unfoldable pub read : {S : Type 0} → Requests S → File → ℕ → ℕ → S → Bytes → Result S
unfolding request_all finish_all clamp end_block
read ops f index size s buf =
    let pos = f.file_pos index in
    let count = clamp f pos size in
    let start = pos / f.blk_size % u32 in
    let end = end_block f pos count in
    let l =
      request_all ops f index count start end (end - start) start
        (record { caches = s; buf = buf; net_reads = []; local_reads = [] }) in
    let s1 = ops.prefetch l.caches start end in
    let n = finish_all ops f index count start end (ops.walk l.net_reads) (s1, l.buf) in
    let r = finish_all ops f index count start end (ops.walk l.local_reads) n in
    if f.active && not (f.num_blks == 0)
    then if leb f.file_size pos
      then record { self = set_eof f index true; caches = s; buf = buf; amount = 0 }
      else record {
        self = set_file_pos f index ((pos + count) % u64);
        caches = r.0;
        buf = r.1;
        amount = count;
      }
    else record { self = f; caches = s; buf = buf; amount = 0 }
