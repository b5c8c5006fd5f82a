-- ===== src/Bounded/Tests.antt =====
-- A small memory cache and requests for it, on which the theorems of this component are applied.
use tazer.Base.{
  ℕ, ◌+◌, ◌*◌, ◌≢◌, ◌≤◌, ◌<◌, ◌≡◌, true, false, Option, none, some, List, [], ◌∷◌, refl, arith, inl,
  inr,
}
use tazer.Bounded.Types.{
  empty, private_memory, network, base, CacheRef, blk_empty, Shape, Cache, Request, ok, u32,
}
use tazer.Bounded.Table.{
  make_shape, make_cache, touch_file, init_entry, get_bin_index, get_block_data, is_evict,
  block_set, set_entry, set_block_data,
}
use tazer.Bounded.Scan.{oldest_block, scan_bin, end_scan, take_victim, choose, consider, max_time}
use tazer.Bounded.Scan.Best.{IsIdle}
use tazer.Bounded.Scan.Pick.{home, evicted-least}
use tazer.Bounded.Ops.{
  lookup_block, lookup_entry, reserve_entry, Level, read_block, write_block, forward_write, Reads,
  store_block, fill_entry,
}
use tazer.Bounded.Invariant.Defs.{IsWellFormed, InBin}
use tazer.Bounded.Invariant.Ops.{store_block-IsWellFormed}
use tazer.Bounded.Invariant.Files.{make_cache-IsWellFormed, touch_file-known}
use tazer.Bounded.Invariant.Calls.{
  Leaves, Call, call_add, call_read, call_write, run, touched-IsWellFormed, history-IsWellFormed,
}
use tazer.Bounded.Lookup.{Has}
use tazer.Bounded.Whole.{Spares, read_block-Stays, write_block-Stays, write_block-outside}
use tazer.Bounded.Again.{write-read_block}
use tazer.Bounded.Stays.{IsHeld, Stays}
use tazer.Bounded.Geometry.{IsTiled, make_shape-IsTiled}
use tazer.Bounded.Calls.{oldest_block-finds}
use tazer.Chain.Request.{request_block, buffer_write}
use tazer.Chain.Balance.{request_block-buffer_write}

abbrev base_cache : CacheRef
base_cache = record { address = 1; cache_type = base }

abbrev counting : ℕ → ℕ
counting a = a

-- Four blocks of 16 bytes at address 1000, in two bins of two.
abbrev small_shape : Shape
small_shape = make_shape 100 [] private_memory 64 16 2 false 1000

abbrev fresh_cache : Cache
fresh_cache = touch_file (make_cache small_shape counting) 7

fresh-IsWellFormed : IsWellFormed fresh_cache
fresh-IsWellFormed =
    touched-IsWellFormed (make_cache small_shape counting) 7
      (make_cache-IsWellFormed small_shape counting)

-- 16 bytes at address 5 for a block of file 7, answered by the network cache; `users` is the
-- reservation of the requester.
abbrev answered : ℕ → ℕ → Request
answered blk users = record {
  data_ptr = 5;
  originating = record { address = 200; cache_type = network };
  blk_idx = blk;
  file_idx = 7;
  size = 16;
  ready = true;
  waiting_cache = empty;
  reserved_map = λ _. users;
  index_map = λ _. 0;
  blk_index_map = λ _. 0;
  file_index_map = λ _. 0;
  status_map = λ _. blk_empty;
}

abbrev no_reads : Reads
no_reads _ = none

-- A next level that answers nothing.
abbrev nothing_below : Level Unit
nothing_below = record {
  read_block = λ s memory req reads priority. ok (s, memory, req, reads);
  write_block = λ s memory req. ok (s, memory, true);
  add_file = λ s index name block_size file_size. s;
}

nothing_below-Spares : (a : ℕ) → Spares nothing_below a
nothing_below-Spares a = record { read = λ s m req reads priority. refl; write = λ s m req. refl }

abbrev history : List Call
history =
    call_add (λ _. 3) 7 [] 16 64
    ∷ call_read (answered 3 0) no_reads 0 4
    ∷ call_write (answered 3 1) 6
    ∷ []

history-IsWellFormed_example :
    Leaves (λ r. IsWellFormed r.0) (run nothing_below history (make_cache small_shape counting) tt)
history-IsWellFormed_example = history-IsWellFormed nothing_below small_shape counting tt history

absent : (q : ℕ) → ¬ Has (touch_file fresh_cache 7) 3 7 q
unfolding touch_file make_cache init_entry
absent q h = absurd (let e : false ≡ true = h.avail in cc e)

-- The cache with the block stored, and with users or without.
abbrev with_block : ℕ → Cache
with_block users = (store_block fresh_cache (answered 3 users) 5).0

with_block-IsWellFormed : (users : ℕ) → IsWellFormed (with_block users)
with_block-IsWellFormed users =
    store_block-IsWellFormed fresh_cache (answered 3 users) fresh-IsWellFormed
      (touch_file-known (make_cache small_shape counting) 7) 5

other_address : ◌≢◌ {A = ℕ} 200 100
other_address e = absurd (omega (arith, e))

foreign_fresh : ◌≢◌ {A = ℕ} 200 fresh_cache.self
unfolding touch_file make_cache make_shape
foreign_fresh = other_address

foreign_stored : ◌≢◌ {A = ℕ} 200 (with_block 1).self
unfolding store_block touch_file make_cache make_shape oldest_block scan_bin block_set
    set_block_data
foreign_stored = other_address

first-Has : Has (with_block 1) 3 7 2
unfolding store_block fill_entry oldest_block scan_bin end_scan take_victim choose consider
    touch_file make_cache init_entry make_shape get_bin_index block_set set_entry set_block_data
first-Has = record { inside = (omega arith, omega arith); holds = (refl, refl); avail = refl }

fresh_fits : 16 ≤ fresh_cache.blk_size
unfolding touch_file make_cache make_shape
fresh_fits = let h : 16 ≤ 16 = omega arith in h

sixteen_fits : 16 ≤ (with_block 1).blk_size
unfolding store_block fill_entry oldest_block scan_bin end_scan take_victim choose consider
    touch_file make_cache init_entry make_shape get_bin_index block_set set_entry set_block_data
sixteen_fits = let h : 16 ≤ 16 = omega arith in h

first-IsHeld : IsHeld (with_block 1) 2
unfolding store_block fill_entry oldest_block scan_bin end_scan take_victim choose consider
    touch_file make_cache init_entry make_shape get_bin_index block_set set_entry set_block_data
first-IsHeld = record {
  avail = refl;
  users = let h : 0 < 1 = omega arith in h;
  room = let h : 1 + 1 < u32 = omega arith in h;
}

first_address : get_block_data (with_block 1) 2 ≢ 0
unfolding store_block fill_entry oldest_block scan_bin end_scan take_victim choose consider
    touch_file make_cache init_entry make_shape get_bin_index block_set set_entry set_block_data
first_address = λ q. absurd (let z : 1000 + 2 * 16 ≡ 0 = q in omega (arith, z))

request_block-buffer_write_example :
    (e : Cache) × (r : Request) × (request_block nothing_below
        (with_block 1)
        tt
        base_cache
        3
        16
        7
        no_reads
        0
        8
      ≡ ok (e, tt, r, no_reads))
    × (r.ready ≡ true)
    × (r.data_ptr ≡ get_block_data (with_block 1) 2)
    × (e.memory ≡ (with_block 1).memory)
    × (f : Cache) × (buffer_write nothing_below false e tt r 9
        ≡ ok (record { cache = f; below = tt; result = true; handed = [] }))
    × ((f.blk_index 2).active_cnt ≡ ((with_block 1).blk_index 2).active_cnt)
request_block-buffer_write_example =
    request_block-buffer_write nothing_below (with_block 1) tt base_cache 3 16 7 no_reads 0 8 9 2
      (with_block-IsWellFormed 1) first-Has (let h : 0 < 16 = omega arith in h) sixteen_fits
      first-IsHeld.room first_address

read_block-Stays_example :
    Leaves
      (λ r. Stays (with_block 1) r.0 2)
      (read_block nothing_below (with_block 1) tt (answered 5 0) no_reads 1 9)
read_block-Stays_example =
    read_block-Stays nothing_below (with_block 1) 2 (λ i lt. nothing_below-Spares _)
      (with_block-IsWellFormed 1) first-IsHeld tt (answered 5 0) no_reads 1 9

write_block-Stays_example :
    Leaves
      (λ r. Stays (with_block 1) r.0 2)
      (write_block nothing_below (with_block 1) tt (answered 5 1) 9)
write_block-Stays_example =
    write_block-Stays nothing_below (with_block 1) 2 (λ i lt. nothing_below-Spares _)
      (with_block-IsWellFormed 1) first-IsHeld tt (answered 5 1) 9 foreign_stored

make_shape-IsTiled_example : IsTiled (make_shape 100 [] private_memory 70 16 3 false 1000)
make_shape-IsTiled_example =
    make_shape-IsTiled 100 [] private_memory 70 16 3 false 1000 (omega arith) (omega arith)
      (omega arith)

with_block-IsTiled : IsTiled (with_block 1).shape
unfolding store_block fill_entry oldest_block scan_bin end_scan take_victim choose consider
    touch_file make_cache init_entry make_shape get_bin_index block_set set_entry set_block_data
with_block-IsTiled =
    make_shape-IsTiled 100 [] private_memory 64 16 2 false 1000 (omega arith) (omega arith)
      (omega arith)

below_blocks : 20 < (with_block 1).blocks
unfolding store_block fill_entry oldest_block scan_bin end_scan take_victim choose consider
    touch_file make_cache init_entry make_shape get_bin_index block_set set_entry set_block_data
below_blocks = let h : 20 < 1000 = omega arith in h

write_block-outside_example :
    Leaves
      (λ r. r.0.memory 20 ≡ (with_block 1).memory 20)
      (write_block nothing_below (with_block 1) tt (answered 5 1) 9)
write_block-outside_example =
    write_block-outside nothing_below (with_block 1) 20 (with_block-IsWellFormed 1)
      with_block-IsTiled (inl below_blocks) (nothing_below-Spares 20) tt (answered 5 1) 9

fresh-IsTiled : IsTiled fresh_cache.shape
unfolding touch_file make_cache
fresh-IsTiled =
    make_shape-IsTiled 100 [] private_memory 64 16 2 false 1000 (omega arith) (omega arith)
      (omega arith)

abbrev stored_first : Cache
stored_first = (store_block (touch_file fresh_cache 7) (answered 3 1) 5).0

write_returns :
    write_block nothing_below fresh_cache tt (answered 3 1) 5 ≡ ok (stored_first, tt, true)
unfolding write_block forward_write store_block fill_entry oldest_block scan_bin end_scan
    take_victim choose consider touch_file make_cache init_entry make_shape get_bin_index
write_returns = refl

write-read_block_example :
    (e : Cache) × (r : Request) × (read_block nothing_below stored_first tt
        (answered 3 0)
        no_reads
        0
        8
      ≡ ok (e, tt, r, no_reads))
    × (r.ready ≡ true)
    × ((i : ℕ) → i < 16 → e.memory (r.data_ptr + i) ≡ fresh_cache.memory (5 + i))
write-read_block_example =
    write-read_block nothing_below fresh_cache tt (answered 3 1) 5 fresh-IsWellFormed fresh-IsTiled
      (λ a lo hi. nothing_below-Spares a) foreign_fresh absent stored_first tt (answered 3 0)
      no_reads 0 8 write_returns refl refl (let h : 0 < 16 = omega arith in h) fresh_fits

-- A miss and the write of the network cache's answer count one user each.
missed : Cache
missed = (lookup_block fresh_cache (answered 3 0) false 4).0

counted_twice : ((store_block missed (answered 3 1) 5).0.blk_index 2).active_cnt ≡ 2
unfolding missed lookup_block lookup_entry reserve_entry set_entry block_set set_block_data
    store_block fill_entry oldest_block scan_bin end_scan take_victim choose consider touch_file
    make_cache init_entry make_shape get_bin_index
counted_twice = refl

-- A full bin of two idle entries: block 3 of time 5 and block 1 of time 9.
abbrev full_bin : Cache
full_bin = (store_block (with_block 0) (answered 1 0) 9).0

abbrev third : Cache × Option ℕ
third = oldest_block full_bin 5 7

third_taken : third ≡ (third.0, some 2)
unfolding store_block fill_entry oldest_block scan_bin end_scan take_victim choose consider
    touch_file make_cache init_entry make_shape get_bin_index block_set set_entry set_block_data
third_taken = refl

second-IsIdle :
    (home full_bin 5 7 ≤ 3)
    × (3 < home full_bin 5 7 + full_bin.associativity)
    × IsIdle full_bin.blk_index 3
unfolding store_block fill_entry oldest_block scan_bin end_scan take_victim choose consider
    touch_file make_cache init_entry make_shape get_bin_index block_set set_entry set_block_data
second-IsIdle =
    (let h : 2 ≤ 3 = omega arith in h, let h : 3 < 2 + 2 = omega arith in h, (refl, refl))

third_marks :
    (full_bin.prefetch_evict ≡ false)
    × (is_evict (full_bin.blk_index 2).status ≡ false)
    × (is_evict (third.0.blk_index 2).status ≡ true)
unfolding store_block fill_entry oldest_block scan_bin end_scan take_victim choose consider
    touch_file make_cache init_entry make_shape get_bin_index block_set set_entry set_block_data
third_marks = (refl, refl, refl)

evicted-least_example : (full_bin.blk_index 2).time_stamp ≤ (full_bin.blk_index 3).time_stamp
evicted-least_example =
    evicted-least full_bin 5 7 third.0 2 third_marks.0 third_taken third_marks.1 third_marks.2 3
      second-IsIdle.0 second-IsIdle.1 second-IsIdle.2

second_place : InBin full_bin (get_bin_index full_bin 5 7) 3
unfolding store_block fill_entry oldest_block scan_bin end_scan take_victim choose consider
    touch_file make_cache init_entry make_shape get_bin_index block_set set_entry set_block_data
second_place = (let h : 2 ≤ 3 = omega arith in h, let h : 3 < 2 + 2 = omega arith in h)

second_young : (full_bin.blk_index 3).time_stamp < max_time
unfolding store_block fill_entry oldest_block scan_bin end_scan take_victim choose consider
    touch_file make_cache init_entry make_shape get_bin_index block_set set_entry set_block_data
second_young = let h : 9 < max_time = omega arith in h

oldest_block-finds_example : (p : ℕ) × ((oldest_block full_bin 5 7).1 ≡ some p)
oldest_block-finds_example =
    oldest_block-finds full_bin 5 7 3 second_place (inr (inr (second-IsIdle.2, second_young)))
