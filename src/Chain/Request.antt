-- ===== src/Chain/Request.antt =====
-- `requestBlock` and `bufferWrite` of Cache.cpp, for a base cache whose next level is a
-- NewBoundedCache with levels below it.
use tazer.Base.{ℕ, Bool, true, false, if◌then◌else◌, ◌==◌, List, [], ◌∷◌}
use tazer.Bounded.Types.{empty, blk_empty, CacheRef, Cache, Request, Outcome, ok, segv, ◌>>=◌}
use tazer.Bounded.Ops.{Level, Reads, read_block, write_block}

-- The constructor of `Request`, with the reservations that `requestBlock` sets to 0 for every level.
abbrev pub new_request : CacheRef → ℕ → ℕ → ℕ → Request
new_request base index file size = record {
  data_ptr = 0;
  originating = base;
  blk_idx = index;
  file_idx = file;
  size = size;
  ready = false;
  waiting_cache = empty;
  reserved_map = λ _. 0;
  index_map = λ _. 0;
  blk_index_map = λ _. 0;
  file_index_map = λ _. 0;
  status_map = λ _. blk_empty;
}

-- What `bufferWrite` leaves: the levels, what it returns, and the requests whose `writeBlock` it has
-- handed to the write pool.
pub record Written (S : Type 0) : Type 0 where
  pub cache : Cache
  pub below : S
  pub result : Bool
  pub handed : List Request

module _ {S : Type 0} (next : Level S) where
  -- `requestBlock`.
  unfoldable pub request_block :
      Cache → S → CacheRef → ℕ → ℕ → ℕ → Reads → ℕ → ℕ → Outcome (Cache × S × Request × Reads)
  unfolding read_block
  request_block c s base index size file reads priority now =
      read_block next c s (new_request base index file size) reads priority now

  -- `bufferWrite`, with `Config::bufferFileCacheWrites`. The base cache's own `writeBlock` is that of
  -- its next level.
  unfoldable pub buffer_write : Bool → Cache → S → Request → ℕ → Outcome (Written S)
  unfolding write_block
  buffer_write buffered c s req now =
      if buffered
      then ok (record { cache = c; below = s; result = false; handed = req ∷ [] })
      else if req.data_ptr == 0
      then segv
      else do
        (c', s', written) ← write_block next c s req now
        ok (record { cache = c'; below = s'; result = true; handed = [] })
