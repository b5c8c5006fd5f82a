-- ===== src/Bounded/Types.antt =====
-- The data of inc/tazer/caches/bounded/NewBoundedCache.h and NewMemoryCache.h, with the request of
-- inc/tazer/Request.h. Memory is an array of bytes indexed by address, so a pointer is a number;
-- the trace and timing members, which no decision reads, are left out.
use tazer.Base.{ℕ, ◌+◌, ◌-◌, ◌%◌, ◌^◌, Bool, List, Option, if◌then◌else◌, ltb}

pub data CacheType : Type 0 where
  empty base private_memory shared_memory burst_buffer node_file : CacheType
  bounded_global_file global_file_lock global_fcntl network local url_cache : CacheType

-- The `BLK_` constants.
pub data Status : Type 0 where
  blk_empty blk_pre blk_res blk_wr blk_avail blk_evict : Status

-- A `MemBlockEntry`: a `BlockEntry` and the count of its users.
pub record BlockEntry : Type 0 where
  pub id : ℕ
  pub file_index : ℕ
  pub block_index : ℕ
  pub time_stamp : ℕ
  pub status : Status
  pub prefetched : ℕ
  pub orig_cache : CacheType
  pub active_cnt : ℕ

pub record FileEntry : Type 0 where
  pub name : List ℕ
  pub block_size : ℕ
  pub file_size : ℕ
  pub hash : ℕ

-- What the constructor fixes.
pub record Shape : Type 0 where
  pub self : ℕ
  pub cache_name : List ℕ
  pub type : CacheType
  pub cache_size : ℕ
  pub blk_size : ℕ
  pub associativity : ℕ
  pub num_blocks : ℕ
  pub num_bins : ℕ
  pub prefetch_evict : Bool
  pub blocks : ℕ

pub record Cache : Type 0 where
  pub shape : Shape
  pub open shape use *
  pub terminating : Bool
  pub collisions : ℕ
  pub prefetch_collisions : ℕ
  pub file_map : ℕ → Option FileEntry
  pub blk_index : ℕ → BlockEntry
  pub memory : ℕ → ℕ

-- A `Cache *`: the address, and the type that the object at it reports.
pub record CacheRef : Type 0 where
  pub address : ℕ
  pub cache_type : CacheType

pub record Request : Type 0 where
  pub data_ptr : ℕ
  pub originating : CacheRef
  pub blk_idx : ℕ
  pub file_idx : ℕ
  pub size : ℕ
  pub ready : Bool
  pub waiting_cache : CacheType
  pub reserved_map : ℕ → ℕ
  pub index_map : ℕ → ℕ
  pub blk_index_map : ℕ → ℕ
  pub file_index_map : ℕ → ℕ
  pub status_map : ℕ → Status

-- How a call ends: it returns, leaves the process by `exit(0)`, or raises `SIGSEGV`.
pub data Outcome {ℓ} (A : Type ℓ) : Type ℓ where
  ok : A → Outcome A
  exits : Outcome A
  segv : Outcome A

infixl 5 ◌>>=◌
abbrev pub ◌>>=◌ {ℓ κ} : {A : Type ℓ} {B : Type κ} → Outcome A → (A → Outcome B) → Outcome B
ok a >>= f = f a
exits >>= f = exits
segv >>= f = segv

abbrev pub u32 : ℕ
u32 = 2 ^ 32

abbrev pub u64 : ℕ
u64 = 2 ^ 64

-- A `uint64_t` stored in an `int`, and read back as a `uint64_t`.
pub through_int : ℕ → ℕ
through_int n = let m = n % u32 in if ltb m (2 ^ 31) then m else m + (u64 - u32)
