-- ===== src/Bounded/Table.antt =====
-- src/caches/bounded/NewMemoryCache.cpp and the constructor and index functions of
-- src/caches/bounded/NewBoundedCache.cpp: the block table, the user counts and the stored bytes.
use tazer.Base.{
  ℕ, suc, zero, ◌+◌, ◌-◌, ◌*◌, ◌/◌, ◌%◌, ◌^◌, Bool, true, false, not, ◌&&◌, ◌||◌, List, Option,
  none, some, if◌then◌else◌, ltb, ◌==◌, update, memcpy, [],
}
use tazer.Bounded.Types.{
  CacheType, empty, Status, blk_empty, blk_wr, blk_avail, blk_evict, BlockEntry, FileEntry, Shape,
  Cache, u32, u64,
}

abbrev pub is_empty : Status → Bool
is_empty blk_empty = true
is_empty _ = false

abbrev pub is_avail : Status → Bool
is_avail blk_avail = true
is_avail _ = false

abbrev pub is_evict : Status → Bool
is_evict blk_evict = true
is_evict _ = false

abbrev pub is_wr : Status → Bool
is_wr blk_wr = true
is_wr _ = false

-- `BlockEntry::init` and `MemBlockEntry::init`.
unfoldable pub init_entry : ℕ → BlockEntry
init_entry i = record {
  id = i;
  file_index = 0;
  block_index = 0;
  time_stamp = 0;
  status = blk_empty;
  prefetched = 0;
  orig_cache = empty;
  active_cnt = 0;
}

-- The constructor's geometry: `_numBlocks` is a `uint32_t`, and an associativity that is zero or
-- too large means fully associative.
unfoldable pub make_shape : ℕ → List ℕ → CacheType → ℕ → ℕ → ℕ → Bool → ℕ → Shape
make_shape self name type cache_size block_size assoc prefetch_evict blocks = record {
  self = self;
  cache_name = name;
  type = type;
  cache_size = cache_size;
  blk_size = block_size;
  associativity = ways;
  num_blocks = num;
  num_bins = num / ways;
  prefetch_evict = prefetch_evict;
  blocks = blocks;
}
  where
    num : ℕ
    num = cache_size / block_size % u32

    ways : ℕ
    ways = if assoc == 0 || ltb num assoc then num else assoc

-- `NewMemoryCache::NewMemoryCache`: the table is initialised and the block bytes are cleared.
unfoldable pub make_cache : Shape → (ℕ → ℕ) → Cache
unfolding init_entry
make_cache shape memory = record {
  shape = shape;
  terminating = false;
  collisions = 0;
  prefetch_collisions = 0;
  file_map = λ _. none;
  blk_index = init_entry;
  memory = memcpy memory shape.blocks (λ _. 0) 0 shape.cache_size;
}

abbrev pub default_file : FileEntry
default_file = record { name = []; block_size = 0; file_size = 0; hash = 0 }

-- The value of `_fileMap[fileIndex]`, which is a default entry where there was none.
abbrev pub file_or_default : Option FileEntry → FileEntry
file_or_default none = default_file
file_or_default (some f) = f

abbrev pub file_at : Cache → ℕ → FileEntry
file_at c file = file_or_default (c.file_map file)

-- `_fileMap[fileIndex]` also inserts that entry.
unfoldable pub touch_file : Cache → ℕ → Cache
touch_file c file = record c { file_map = update c.file_map file (some (file_at c file)) }

-- `getBinIndex`; `temp` is a `uint64_t`.
unfoldable pub get_bin_index : Cache → ℕ → ℕ → ℕ
get_bin_index c index file = ((file_at c file).hash + index) % u64 % c.num_bins

-- `readBin`: the pointers of a bin are the `_associativity` table indices from this one on.
abbrev pub bin_start : Cache → ℕ → ℕ
bin_start c bin = bin * c.associativity

-- `sameBlk` with the entry of `getCompareBlkEntry`.
abbrev pub same_blk : BlockEntry → ℕ → ℕ → Bool
same_blk e index file = e.file_index == file && e.block_index == index

abbrev pub any_users : BlockEntry → Bool
any_users e = not (e.active_cnt == 0)

abbrev pub inc_blk_cnt : BlockEntry → BlockEntry
inc_blk_cnt e = record e { active_cnt = (e.active_cnt + 1) % u32 }

abbrev pub dec_blk_cnt : BlockEntry → BlockEntry
dec_blk_cnt e = record e { active_cnt = (e.active_cnt + u32 - 1) % u32 }

-- The sign of `activeUpdate`.
pub data ActiveUpdate : Type 0 where
  no_change increment decrement : ActiveUpdate

abbrev pub of_count : ℕ → ActiveUpdate
of_count n = if n == 0 then no_change else increment

abbrev pub count_users : ActiveUpdate → BlockEntry → BlockEntry
count_users no_change e = e
count_users increment e = inc_blk_cnt e
count_users decrement e = dec_blk_cnt e

-- `blockSet` on the entry itself. The time is stored in a `uint32_t`; `prefetched` is passed as an
-- `int32_t`, so a bit pattern from 2 ^ 31 on leaves the member alone.
unfoldable pub set_entry :
    BlockEntry → ℕ → ℕ → Status → CacheType → ℕ → ActiveUpdate → ℕ → BlockEntry
set_entry e file index status type prefetched active now = count_users active (record e {
  file_index = file;
  block_index = index;
  time_stamp = now % u32;
  prefetched = if ltb prefetched (2 ^ 31) then prefetched else e.prefetched;
  orig_cache = type;
  status = status;
})

abbrev pub set_blk : Cache → ℕ → BlockEntry → Cache
set_blk c ptr e = record c { blk_index = update c.blk_index ptr e }

-- `blockSet`.
unfoldable pub block_set : Cache → ℕ → ℕ → ℕ → Status → CacheType → ℕ → ActiveUpdate → ℕ → Cache
unfolding set_entry
block_set c ptr file index status type prefetched active now =
    set_blk c ptr (set_entry (c.blk_index ptr) file index status type prefetched active now)

-- `getBlockData`: a pointer into `_blocks`.
abbrev pub get_block_data : Cache → ℕ → ℕ
get_block_data c id = c.blocks + id * c.blk_size

-- `setBlockData`.
unfoldable pub set_block_data : Cache → ℕ → ℕ → ℕ → Cache
set_block_data c src id size = record c {
  memory = memcpy c.memory (get_block_data c id) c.memory src size;
}

-- `blockAvailable` with a place for the originating cache.
unfoldable pub block_available : Cache → ℕ → Option CacheType
block_available c ptr =
    let e = c.blk_index ptr in if is_avail e.status then some e.orig_cache else none

-- The empty blocks that the destructor of the memory cache counts.
unfoldable pub num_empty : (ℕ → BlockEntry) → ℕ → ℕ
num_empty table zero = 0
num_empty table (suc n) = num_empty table n + (if is_empty (table n).status then 1 else 0)
