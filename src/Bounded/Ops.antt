-- ===== src/Bounded/Ops.antt =====
-- The operations of src/caches/bounded/NewBoundedCache.cpp. The part of a call that runs under the
-- writer lock of a bin is one step here; the next level is a record of operations with a state.
use tazer.Base.{
  ℕ, Bool, true, false, not, ◌&&◌, ◌||◌, List, [], ◌∷◌, ◌++◌, Option, none, some, if◌then◌else◌,
  ltb, leb, ◌==◌, update,
}
use tazer.Bounded.Types.{
  CacheType, blk_pre, blk_res, blk_avail, FileEntry, Cache, CacheRef, Request, Outcome, ok, exits,
  segv, ◌>>=◌, through_int,
}
use tazer.Bounded.Table.{
  is_empty, is_avail, is_evict, is_wr, file_at, touch_file, set_blk, block_set, set_block_data,
  get_block_data, inc_blk_cnt, dec_blk_cnt, of_count, increment, block_available,
}
use tazer.Bounded.Scan.{get_block, oldest_block}

-- A read that waits for a block which another request has reserved.
pub record Pending : Type 0 where
  pub waits_in : ℕ
  pub waits_for : ℕ

abbrev pub Reads : Type 0
Reads = ℕ → Option Pending

-- A cache level as another level sees it. It is given the process's memory and hands it back.
pub record Level (S : Type 0) : Type 0 where
  pub read_block : S → (ℕ → ℕ) → Request → Reads → ℕ → Outcome (S × (ℕ → ℕ) × Request × Reads)
  pub write_block : S → (ℕ → ℕ) → Request → Outcome (S × (ℕ → ℕ) × Bool)
  pub add_file : S → ℕ → List ℕ → ℕ → ℕ → S

abbrev pub this : Cache → CacheRef
this c = record { address = c.self; cache_type = c.type }

-- The branch of `writeBlock` for a request that this cache answered: one user less.
unfoldable pub release_block : Cache → Request → Outcome Cache
release_block c req = elim (get_block c req.blk_idx req.file_idx) [
  | none ↦ exits
  | some p ↦
      if req.reserved_map c.self == 0
      then ok c
      else if (c.blk_index p).active_cnt == 0
      then exits
      else ok (set_blk c p (dec_blk_cnt (c.blk_index p)))
]

-- The branch of `writeBlock` that stores the data of a request answered by another cache, at the
-- entry that `oldestBlock` gave.
unfoldable pub fill_entry : Cache → Request → ℕ → ℕ → Cache
fill_entry c req now p =
    let e = c.blk_index p in
    let active = of_count (req.reserved_map c.self) in
    let filled =
      block_set (set_block_data c req.data_ptr e.id req.size) p req.file_idx req.blk_idx blk_avail
        req.originating.cache_type e.prefetched active now in
    let refreshed =
      block_set c p req.file_idx req.blk_idx blk_avail req.originating.cache_type e.prefetched
        active now in
    if (not (is_wr e.status) && not (is_avail e.status)) || is_evict e.status
    then filled
    else if is_avail e.status
    then refreshed
    else c

-- The part of `writeBlock` under the bin's lock, with the value of `ret` after it.
unfoldable pub store_block : Cache → Request → ℕ → Cache × Bool
unfolding fill_entry
store_block c req now =
    let (d, found) = oldest_block c req.blk_idx req.file_idx in
    if leb req.size c.blk_size
    then elim found [ none ↦ (d, false) | some p ↦ (fill_entry d req now p, true) ]
    else (c, false)

-- `readBlock` on a hit: the block gets a user more and the request a pointer to its bytes.
unfoldable pub hit_entry : Cache → Request → Bool → ℕ → ℕ → Cache
hit_entry c req prefetch now p =
    let e = c.blk_index p in
    let mark = if prefetch then 1 else 0 in
    let kept = if ltb 0 e.prefetched then mark else e.prefetched in
    block_set (set_blk c p (record e { prefetched = kept })) p req.file_idx req.blk_idx blk_avail
      c.type kept increment now

unfoldable pub hit_request : Cache → Request → ℕ → Request
hit_request c req p =
    let e = c.blk_index p in
    record req {
      data_ptr = get_block_data c e.id;
      originating = this c;
      ready = true;
      index_map = update req.index_map c.self e.id;
      blk_index_map = update req.blk_index_map c.self e.block_index;
      file_index_map = update req.file_index_map c.self e.file_index;
      status_map = update req.status_map c.self e.status;
    }

-- `readBlock` on a miss in an entry that nobody has reserved yet.
unfoldable pub reserve_entry : Cache → Request → Bool → ℕ → ℕ → Cache
reserve_entry c req prefetch now p =
    block_set c p req.file_idx req.blk_idx (if prefetch then blk_pre else blk_res) c.type
      (if prefetch then 1 else 0) increment now

-- What `readBlock` does after the critical section.
pub data ReadStep : Type 0 where
  hit : ReadStep
  forward : ReadStep
  wait : ℕ → ReadStep

abbrev pub reserve_in : Cache → Request → Request
reserve_in c req = record req { reserved_map = update req.reserved_map c.self 1 }

unfoldable pub lookup_entry : Cache → Request → Bool → ℕ → ℕ → Cache × Request × ReadStep
unfolding hit_entry hit_request reserve_entry
lookup_entry c req prefetch now p =
    let e = c.blk_index p in
    let taken = hit_entry c req prefetch now p in
    if is_avail e.status
    then (taken, hit_request taken req p, hit)
    else if is_empty e.status || is_evict e.status
    then (reserve_entry c req prefetch now p, req, forward)
    else (set_blk c p (inc_blk_cnt e), req, wait e.id)

-- The part of `readBlock` under the bin's lock.
unfoldable pub lookup_block : Cache → Request → Bool → ℕ → Cache × Request × ReadStep
unfolding lookup_entry
lookup_block c req prefetch now =
    let (d, found) = oldest_block c req.blk_idx req.file_idx in
    elim found [
      | none ↦ (d, req, forward)
      | some p ↦ lookup_entry d (reserve_in c req) prefetch now p
    ]

abbrev pub sized : Cache → Request → Request
sized c req =
    if req.size == 0
    then record req { size = through_int (file_at c req.file_idx).block_size }
    else req

-- The state that a poll of the waiting read sees: the entry, and whether the time is not up.
pub record Poll : Type 0 where
  pub seen : Cache
  pub in_time : Bool

-- The loop of the deferred read: the originating cache, or none when the time is up.
unfoldable pub await_block : List Poll → ℕ → Option CacheType
await_block [] id = none
await_block (p ∷ ps) id =
    let rest = await_block ps id in
    if p.in_time then elim (block_available p.seen id) [ some t ↦ some t | none ↦ rest ] else none

abbrev emplace_file : Cache → ℕ → FileEntry → Option FileEntry → Cache
emplace_file c index entry none = record c { file_map = update c.file_map index (some entry) }
emplace_file c index entry (some old) = c

-- The part of `addFile` in this cache; `xxh32` is the hash of the bytes with seed 0.
unfoldable pub register_file : (List ℕ → ℕ) → Cache → ℕ → List ℕ → ℕ → ℕ → Cache
register_file xxh32 c index name block_size file_size =
    emplace_file c index
      (record {
        name = name;
        block_size = block_size;
        file_size = file_size;
        hash = xxh32 (c.cache_name ++ name);
      })
      (c.file_map index)

module _ {S : Type 0} (next : Level S) where
  unfoldable pub forward_read :
      Cache → S → Request → Reads → ℕ → Outcome (Cache × S × Request × Reads)
  forward_read c s req reads priority = do
    (s', memory, req', reads') ← next.read_block s c.memory req reads priority
    ok (record c { memory = memory }, s', req', reads')

  unfoldable pub finish_read :
      S → Reads → ℕ → Cache × Request × ReadStep → Outcome (Cache × S × Request × Reads)
  unfolding forward_read
  finish_read s reads priority (c, req, hit) = ok (c, s, req, reads)
  finish_read s reads priority (c, req, forward) = forward_read c s req reads priority
  finish_read s reads priority (c, req, wait id) =
      ok (c, s, req, update reads req.blk_idx (some (record { waits_in = c.self; waits_for = id })))

  -- `readBlock`.
  unfoldable pub read_block :
      Cache → S → Request → Reads → ℕ → ℕ → Outcome (Cache × S × Request × Reads)
  unfolding finish_read lookup_block
  read_block c s req reads priority now =
      let d = touch_file c req.file_idx in
      let r = sized d req in
      if leb r.size d.blk_size
      then finish_read s reads priority (lookup_block d r (not (priority == 0)) now)
      else segv

  unfoldable pub forward_write : Cache → S → Request → Bool → Outcome (Cache × S × Bool)
  forward_write c s req ret = do
    (s', memory, written) ← next.write_block s c.memory req
    ok (record c { memory = memory }, s', ret && written)

  -- `writeBlock` on a cache that has a next level.
  unfoldable pub write_block : Cache → S → Request → ℕ → Outcome (Cache × S × Bool)
  unfolding forward_write store_block release_block
  write_block c s req now =
      let mine = req.originating.address == c.self in
      let d = touch_file c req.file_idx in
      let released = release_block d req in
      let (stored, ret) = store_block d req now in
      let next_write = forward_write stored s req ret in
      if not (req.reserved_map c.self == 0) || not c.terminating
      then if mine then (released >>= λ e. ok (e, s, true)) else next_write
      else forward_write c s req mine

  -- `addFile`; `xxh32` is the hash of the bytes with seed 0.
  unfoldable pub add_file : (List ℕ → ℕ) → Cache → S → ℕ → List ℕ → ℕ → ℕ → Cache × S
  unfolding register_file
  add_file xxh32 c s index name block_size file_size = (
    register_file xxh32 c index name block_size file_size,
    next.add_file s index name block_size file_size,
  )
