-- ===== src/Chain/Prefetch.antt =====
-- `prefetch` of Cache.cpp: the blocks are requested in their order, then the pending ones awaited.
-- The levels below are an interface, and so is the order in which an `unordered_map` is walked.
use tazer.Base.{
  ℕ, ◌+◌, ◌-◌, ◌%◌, Bool, if◌then◌else◌, ◌==◌, List, [], ◌∷◌, Option, none, some, count,
}
use tazer.Prefetch.Delta.{u64}
use tazer.Bounded.Types.{u32}

-- What `prefetch` looks at in a request that it has just made: `ready`, and whether its originating
-- cache is the network's.
pub record Asked : Type 0 where
  pub ready : Bool
  pub network : Bool

-- `requestBlock` of a block with a priority, the two waits for a pending read, which tell whether
-- its request has data, and `bufferWrite`.
pub record Requests (S : Type 0) : Type 0 where
  pub request_block : S → ℕ → ℕ → S × Asked
  pub await : S → ℕ → S × Bool
  pub buffer_write : S → ℕ → S
  pub walk : List ℕ → List ℕ

-- The caches and the keys of the two maps of pending reads.
pub record Pending (S : Type 0) : Type 0 where
  pub caches : S
  pub net_reads : List ℕ
  pub local_reads : List ℕ

-- `insert` into a map leaves a key that it has.
unfoldable pub insert_read : List ℕ → ℕ → List ℕ
insert_read keys k = if count k keys == 0 then k ∷ keys else keys

module _ {S : Type 0} (ops : Requests S) where
  -- One round of the first loop. Block and priority are `uint32_t` from there on.
  unfoldable pub prefetch_one : ℕ → ℕ → Pending S → Pending S
  unfolding insert_read
  prefetch_one start blk l =
      let k = blk % u32 in
      let r = ops.request_block l.caches k ((1 + (blk + u64 - start) % u64) % u32) in
      if r.1.ready
      then record {
        caches = ops.buffer_write r.0 k;
        net_reads = l.net_reads;
        local_reads = l.local_reads;
      }
      else if r.1.network
      then record {
        caches = r.0;
        net_reads = insert_read l.net_reads k;
        local_reads = l.local_reads;
      }
      else record {
        caches = r.0;
        net_reads = l.net_reads;
        local_reads = insert_read l.local_reads k;
      }

  unfoldable pub prefetch_all : ℕ → List ℕ → Pending S → Pending S
  unfolding prefetch_one
  prefetch_all start [] l = l
  prefetch_all start (b ∷ bs) l = prefetch_all start bs (prefetch_one start b l)

  -- One pending read: a request without data is passed over.
  unfoldable pub finish_prefetch : ℕ → S → S
  finish_prefetch k s = let r = ops.await s k in if r.1 then ops.buffer_write r.0 k else r.0

  unfoldable pub finish_prefetches : List ℕ → S → S
  unfolding finish_prefetch
  finish_prefetches [] s = s
  finish_prefetches (k ∷ ks) s = finish_prefetches ks (finish_prefetch k s)

  -- `prefetch`; `blocks[0]` of no blocks is out of range.
  unfoldable pub prefetch : List ℕ → S → Option S
  unfolding prefetch_all finish_prefetches
  prefetch [] s = none
  prefetch (b ∷ bs) s =
      let l = prefetch_all b (b ∷ bs) (record { caches = s; net_reads = []; local_reads = [] }) in
      some (
        finish_prefetches (ops.walk l.local_reads)
          (finish_prefetches (ops.walk l.net_reads) l.caches))
