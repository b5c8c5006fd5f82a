-- ===== src/Chain/Balance.antt =====
-- A block that the first level has, requested through the base cache and given back.
use tazer.Base.{
  ℕ, ◌+◌, ◌%◌, ◌≤◌, ◌<◌, ◌≡◌, ◌≢◌, true, false, not, ◌==◌, [], arith, refl, ◌∙◌, ap, ==_ne, ==_refl,
  le→leb, update_self,
}
use tazer.Bounded.Types.{Cache, CacheRef, Request, ok, u32}
use tazer.Bounded.Table.{get_block_data, touch_file, set_blk, dec_blk_cnt}
use tazer.Bounded.Ops.{Level, Reads, ReadStep, lookup_block, read_block, release_block, write_block}
use tazer.Bounded.Invariant.Defs.{IsWellFormed}
use tazer.Bounded.Invariant.Ops.{lookup_block-IsWellFormed}
use tazer.Bounded.Invariant.Calls.{touched-IsWellFormed}
use tazer.Bounded.Invariant.Files.{touch_file-known}
use tazer.Bounded.Lookup.{Has, IsHit, lookup_block-Has}
use tazer.Bounded.Balance.{release_block-Has, hit-Has}
use tazer.Bounded.Calls.{touched-Has, sized-pos, finish_read-hit}
use tazer.Chain.Request.{new_request, request_block, buffer_write}

write_block-own :
    {S : Type 0} (next : Level S) (c : Cache) (s : S) (req : Request) (now : ℕ) (d : Cache)
    → req.originating.address ≡ c.self
    → req.reserved_map c.self ≢ 0
    → release_block (touch_file c req.file_idx) req ≡ ok d
    → write_block next c s req now ≡ ok (d, s, true)
unfolding write_block
write_block-own next c s req now d own held e =
    rw (own, ==_refl c.self, ==_ne (req.reserved_map c.self) 0 held, e) refl

module _ {S : Type 0} (next : Level S) (c : Cache) (s : S) (base : CacheRef) (index size file : ℕ)
    (reads : Reads) (priority now later p : ℕ) (wf : IsWellFormed c) (h : Has c index file p)
    (pos : 0 < size) (fits : size ≤ c.blk_size) (room : (c.blk_index p).active_cnt + 1 < u32) where
  abbrev req : Request
  req = new_request base index file size

  abbrev d : Cache
  d = touch_file c file

  abbrev found : Cache × Request × ReadStep
  found = lookup_block d req (not (priority == 0)) now

  d-IsWellFormed : IsWellFormed d
  d-IsWellFormed = touched-IsWellFormed c file wf

  d-Has : Has d index file p
  d-Has = touched-Has c index file p wf h

  is_hit : IsHit d req p found
  is_hit = lookup_block-Has d req (not (priority == 0)) now p d-IsWellFormed d-Has

  requested :
      request_block next c s base index size file reads priority now
      ≡ ok (found.0, s, found.1, reads)
  unfolding request_block touch_file
  requested =
      rw (sized-pos d req pos, le→leb size d.blk_size fits, read_block) refl
      ∙ finish_read-hit next s reads priority found is_hit.step

  k :
      Has found.0 index file p
      × (found.0.shape ≡ d.shape)
      × ((found.0.blk_index p).active_cnt ≡ ((d.blk_index p).active_cnt + 1) % u32)
  k = hit-Has d req (not (priority == 0)) now p d-IsWellFormed d-Has

  found-IsWellFormed : IsWellFormed found.0
  found-IsWellFormed =
      lookup_block-IsWellFormed d req d-IsWellFormed (touch_file-known c file) (not (priority == 0))
        now

  abbrev e : Cache
  e = touch_file found.0 found.1.file_idx

  e-Has : Has e found.1.blk_idx found.1.file_idx p
  e-Has =
      touched-Has found.0 _ _ p found-IsWellFormed (rw (is_hit.same_index, is_hit.same_file) k.0)

  users : (e.blk_index p).active_cnt ≡ (c.blk_index p).active_cnt + 1
  unfolding touch_file
  users = omega (arith, k.2, room)

  reserved : found.1.reserved_map found.0.self ≡ 1
  reserved = rw (k.1) is_hit.reserved

  released : release_block e found.1 ≡ ok (set_blk e p (dec_blk_cnt (e.blk_index p)))
  unfolding touch_file
  released =
      release_block-Has e found.1 p (touched-IsWellFormed found.0 _ found-IsWellFormed) e-Has
        (rw reserved (λ q. absurd (omega arith))) (omega (arith, users))

  written :
      write_block next found.0 s found.1 later
      ≡ ok (set_blk e p (dec_blk_cnt (e.blk_index p)), s, true)
  written =
      write_block-own next found.0 s found.1 later (set_blk e p (dec_blk_cnt (e.blk_index p)))
        (rw k.1 is_hit.origin) (rw reserved (λ q. absurd (omega arith))) released

  -- In a well-formed cache that has the block, for a size that fits and at an address other than 0:
  -- `requestBlock` returns a ready request with the address of the block's bytes and leaves the
  -- memory, the next level and the pending reads alone, and `bufferWrite` of that request, without
  -- buffering, returns true, leaves the next level alone, hands nothing to the write pool and leaves
  -- the block's entry with as many users as before both (fewer than the counter can hold, less one).
  pub request_block-buffer_write :
      get_block_data c p ≢ 0
      → (e : Cache) × (r : Request) × (request_block next c s base index size file reads priority
            now
          ≡ ok (e, s, r, reads))
        × (r.ready ≡ true)
        × (r.data_ptr ≡ get_block_data c p)
        × (e.memory ≡ c.memory)
        × (f : Cache) × (buffer_write next false e s r later
            ≡ ok (record { cache = f; below = s; result = true; handed = [] }))
        × ((f.blk_index p).active_cnt ≡ (c.blk_index p).active_cnt)
  unfolding buffer_write touch_file
  request_block-buffer_write nonzero = (
    found.0,
    found.1,
    requested,
    is_hit.is_ready,
    is_hit.address,
    is_hit.bytes,
    set_blk e p (dec_blk_cnt (e.blk_index p)),
    rw (is_hit.address, ==_ne (get_block_data d p) 0 nonzero, written) refl,
    ap (λ b. b.active_cnt) (update_self e.blk_index p _) ∙ omega (arith, users),
  )
