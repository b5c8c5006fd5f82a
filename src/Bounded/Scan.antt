-- ===== src/Bounded/Scan.antt =====
-- The two searches of a bin in src/caches/bounded/NewBoundedCache.cpp: `getBlock` and `oldestBlock`.
pub mod Best
pub mod Victim
pub mod Pick
use tazer.Base.{
  ℕ, suc, zero, ◌+◌, ◌-◌, ◌^◌, Bool, true, false, not, ◌&&◌, Option, none, some, if◌then◌else◌, ltb,
  ◌==◌,
}
use tazer.Bounded.Types.{blk_evict, BlockEntry, Cache}
use tazer.Bounded.Table.{is_empty, is_avail, same_blk, any_users, get_bin_index, bin_start, set_blk}

-- The loop of `getBlock` over `n` entries from `ptr` on.
unfoldable pub find_avail : (ℕ → BlockEntry) → ℕ → ℕ → ℕ → ℕ → Option ℕ
find_avail table index file zero ptr = none
find_avail table index file (suc n) ptr =
    let rest = find_avail table index file n (suc ptr) in
    if same_blk (table ptr) index file && is_avail (table ptr).status then some ptr else rest

unfoldable pub get_block : Cache → ℕ → ℕ → Option ℕ
get_block c index file =
    find_avail c.blk_index index file c.associativity (bin_start c (get_bin_index c index file))

-- The best victims so far, ordinary and prefetched; a time starts at the largest `uint32_t`.
pub record Victims : Type 0 where
  pub min_time : ℕ
  pub min_entry : Option ℕ
  pub min_prefetch_time : ℕ
  pub min_prefetch_entry : Option ℕ

abbrev pub max_time : ℕ
max_time = 2 ^ 32 - 1

abbrev pub no_victims : Victims
no_victims = record {
  min_time = max_time;
  min_entry = none;
  min_prefetch_time = max_time;
  min_prefetch_entry = none;
}

unfoldable pub consider_time : ℕ → BlockEntry → Victims → Victims
consider_time ptr e v =
    if ltb e.time_stamp v.min_time && not (any_users e)
    then record v { min_time = e.time_stamp; min_entry = some ptr }
    else v

unfoldable pub consider_prefetched : Bool → ℕ → BlockEntry → Victims → Victims
consider_prefetched prefetch_evict ptr e v =
    if (prefetch_evict && not (e.prefetched == 0) && ltb e.time_stamp v.min_prefetch_time)
      && not (any_users e)
    then record v { min_prefetch_time = e.time_stamp; min_prefetch_entry = some ptr }
    else v

-- The body of the loop for an available block.
unfoldable pub consider : Bool → ℕ → BlockEntry → Victims → Victims
unfolding consider_time consider_prefetched
consider prefetch_evict ptr e v = consider_prefetched prefetch_evict ptr e (consider_time ptr e v)

-- How the loop ends: at a slot that it returns at once, or with the victims.
pub data Scan : Type 0 where
  slot : ℕ → Scan
  victims : Victims → Scan

unfoldable pub scan_bin : Bool → (ℕ → BlockEntry) → ℕ → ℕ → ℕ → ℕ → Victims → Scan
scan_bin prefetch_evict table index file zero ptr v = victims v
scan_bin prefetch_evict table index file (suc n) ptr v =
    let e = table ptr in
    let rest =
      scan_bin prefetch_evict table index file n (suc ptr)
        (if is_avail e.status then consider prefetch_evict ptr e v else v) in
    if same_blk e index file then slot ptr else if is_empty e.status then slot ptr else rest

abbrev pub is_time : ℕ → Bool
is_time t = not (t == max_time)

abbrev pub if_timed : ℕ → Bool → Option ℕ → Option (ℕ × Bool) → Option (ℕ × Bool)
if_timed t flag none other = other
if_timed t flag (some p) other = if is_time t then some (p, flag) else other

-- The victim that is evicted, with the flag of a prefetched one.
unfoldable pub choose : Bool → Victims → Option (ℕ × Bool)
choose prefetch_evict v =
    let ordinary = if_timed v.min_time false v.min_entry none in
    if prefetch_evict
    then if_timed v.min_prefetch_time true v.min_prefetch_entry ordinary
    else ordinary

abbrev pub evict : Cache → ℕ → Cache
evict c ptr = set_blk c ptr (record (c.blk_index ptr) { status = blk_evict })

unfoldable pub take_victim : Cache → Option (ℕ × Bool) → Cache × Option ℕ
take_victim c none = (c, none)
take_victim c (some (p, true)) =
    (evict (record c { prefetch_collisions = c.prefetch_collisions + 1 }) p, some p)
take_victim c (some (p, false)) = (evict (record c { collisions = c.collisions + 1 }) p, some p)

unfoldable pub end_scan : Cache → Scan → Cache × Option ℕ
unfolding take_victim choose
end_scan c (slot p) = (c, some p)
end_scan c (victims v) = take_victim c (choose c.prefetch_evict v)

-- `oldestBlock`: the entry to use for a block, if the bin has one.
unfoldable pub oldest_block : Cache → ℕ → ℕ → Cache × Option ℕ
unfolding end_scan
oldest_block c index file = end_scan c (
    scan_bin c.prefetch_evict c.blk_index index file c.associativity
      (bin_start c (get_bin_index c index file)) no_victims)
