-- ===== src/Bounded/Calls.antt =====
-- Whole calls of the block cache: a read of a block that it has, and when a slot is found.
use tazer.Base.{
  ℕ, ◌≤◌, ◌<◌, ◌≡◌, true, not, Option, some, arith, ◌==◌, refl, sym, ◌∙◌, inl, inr, ◌⊎◌, ==_ne,
  le→leb,
}
use tazer.Bounded.Types.{Cache, Request, ok}
use tazer.Bounded.Table.{is_empty, same_blk, get_bin_index, get_block_data, touch_file}
use tazer.Bounded.Scan.{max_time, oldest_block}
use tazer.Bounded.Scan.Best.{IsIdle}
use tazer.Bounded.Ops.{
  Level, Reads, ReadStep, hit, forward, wait, lookup_block, finish_read, read_block, sized,
}
use tazer.Bounded.Invariant.Defs.{InBin, IsWellFormed}
use tazer.Bounded.Invariant.Ops.{Oldest, nothing, entry, oldest_block-Oldest}
use tazer.Bounded.Invariant.Files.{touch_file-Extends, Extends-IsWellFormed, bin_index-file}
use tazer.Bounded.Lookup.{Has, Has-IsUsed, IsHit, lookup_block-Has}

pub touched-Has :
    (c : Cache) (index file p : ℕ)
    → IsWellFormed c
    → Has c index file p
    → Has (touch_file c file) index file p
unfolding touch_file get_bin_index
touched-Has c index file p wf h = record {
  inside = rw (bin_index-file c (touch_file c file) index file refl same) h.inside;
  holds = h.holds;
  avail = h.avail;
}
  where
    same : (touch_file c file).file_map file ≡ c.file_map file
    same =
        (touch_file-Extends c file).files file
          (rw (← h.holds.1) (wf.known p (Has-IsUsed c index file p h)))

pub sized-pos : (c : Cache) (req : Request) → 0 < req.size → sized c req ≡ req
sized-pos c req h = rw (==_ne req.size 0 (λ e. omega arith)) refl

pub finish_read-hit :
    {S : Type 0} (next : Level S) (s : S) (reads : Reads) (priority : ℕ)
    (r : Cache × Request × ReadStep)
    → r.2 ≡ hit
    → finish_read next s reads priority r ≡ ok (r.0, s, r.1, reads)
unfolding finish_read
finish_read-hit next s reads priority (c, req, hit) e = refl
finish_read-hit next s reads priority (c, req, forward) e = absurd (cc e)
finish_read-hit next s reads priority (c, req, wait id) e = absurd (cc e)

module _ {S : Type 0} (next : Level S) (c : Cache) (s : S) (req : Request) (reads : Reads)
    (priority now p : ℕ) where
  -- In a well-formed cache that has the block of a request whose size fits, `readBlock` returns,
  -- leaves the next level, the pending reads and the memory alone, and answers the request with
  -- the address of the block's bytes.
  pub read_block-Has :
      IsWellFormed c
      → Has c req.blk_idx req.file_idx p
      → 0 < req.size
      → req.size ≤ c.blk_size
      → (d : Cache) × (r : Request) × (read_block next c s req reads priority now
          ≡ ok (d, s, r, reads))
        × (d.memory ≡ c.memory)
        × (r.ready ≡ true)
        × (r.data_ptr ≡ get_block_data c p)
        × (r.originating.address ≡ c.self)
  unfolding read_block touch_file
  read_block-Has wf h pos fits = (
    r.0,
    r.1,
    enters ∙ finish_read-hit next s reads priority r i.step,
    i.bytes,
    i.is_ready,
    i.address,
    i.origin,
  )
    where
      d : Cache
      d = touch_file c req.file_idx

      r : Cache × Request × ReadStep
      r = lookup_block d req (not (priority == 0)) now

      i : IsHit d req p r
      i =
          lookup_block-Has d req (not (priority == 0)) now p
            (Extends-IsWellFormed c d wf (touch_file-Extends c req.file_idx))
            (touched-Has c _ _ p wf h)

      enters : read_block next c s req reads priority now ≡ finish_read next s reads priority r
      enters = rw (sized-pos d req pos, le→leb _ _ fits, read_block) refl

-- `oldestBlock` finds a slot in every bin that has the block, an empty entry, or an idle entry with
-- a time below the largest one.
pub oldest_block-finds :
    (c : Cache) (index file j : ℕ)
    → InBin c (get_bin_index c index file) j
    → (same_blk (c.blk_index j) index file ≡ true)
      ⊎ (is_empty (c.blk_index j).status ≡ true)
      ⊎ (IsIdle c.blk_index j × ((c.blk_index j).time_stamp < max_time))
    → (p : ℕ) × ((oldest_block c index file).1 ≡ some p)
oldest_block-finds c index file j inside h = ends (oldest_block-Oldest c index file)
  where
    ends : {d : Cache} {o : Option ℕ} → Oldest c index file d o → (p : ℕ) × (o ≡ some p)
    ends (entry p picked) = (p, refl)
    ends (nothing full) = absurd (elim h [
      | inl same ↦ cc (sym same ∙ (full.others j inside.0 inside.1).0)
      | inr (inl free) ↦ cc (sym free ∙ (full.others j inside.0 inside.1).1)
      | inr (inr (idle, young)) ↦ omega (arith, full.busy j inside.0 inside.1 idle, young)
    ])
