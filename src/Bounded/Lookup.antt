-- ===== src/Bounded/Lookup.antt =====
-- A block that the cache holds is found: `oldestBlock`, and so `readBlock`, returns its entry.
use mathlib.Core.Bool.{false≢true}
use tazer.Base.{
  ℕ, ◌≤◌, ◌≡◌, Bool, true, Option, some, arith, refl, sym, ◌∙◌, inl, inr, ap, ==_refl, dec_lt,
}
use tazer.Bounded.Types.{Cache, Request}
use tazer.Bounded.Table.{is_avail, same_blk, get_bin_index, get_block_data, block_set}
use tazer.Bounded.Scan.{oldest_block}
use tazer.Bounded.Scan.Best.{IsSlot}
use tazer.Bounded.Scan.Pick.{home, kept, evicted}
use tazer.Bounded.Ops.{ReadStep, hit, lookup_block, lookup_entry, reserve_in}
use tazer.Bounded.Invariant.Defs.{InBin, IsUsed, IsWellFormed}
use tazer.Bounded.Invariant.Write.{Holds}
use tazer.Bounded.Invariant.Ops.{Oldest, nothing, entry, oldest_block-Oldest}

-- The cache has the bytes of a block in the entry `p`.
pub record Has (c : Cache) (index file p : ℕ) : Type 0 where
  pub inside : InBin c (get_bin_index c index file) p
  pub holds : Holds (c.blk_index p) index file
  pub avail : is_avail (c.blk_index p).status ≡ true

pub Has-IsUsed : (c : Cache) (index file p : ℕ) → Has c index file p → IsUsed c p
Has-IsUsed c index file p h = ground (arith, h.avail)

pub Has-same :
    (c : Cache) (index file p : ℕ) → Has c index file p → same_blk (c.blk_index p) index file ≡ true
Has-same c index file p h = ground (arith, h.holds)

module _ (c : Cache) (index file p : ℕ) (wf : IsWellFormed c) (h : Has c index file p) where
  slot-eq : (q : ℕ) → IsSlot c.blk_index index file (home c index file) c.associativity q → q ≡ p
  slot-eq q s = elim (dec_lt p q) [
    | yes lt ↦ absurd (false≢true (sym (s.before p h.inside.0 lt).0 ∙ Has-same c index file p h))
    | no ge ↦ elim s.fits [
      | inl same ↦
          wf.unique q p _ (s.lower, s.upper) h.inside (used (omega arith))
            (Has-IsUsed c index file p h) (keys same)
      | inr free ↦ absurd (false≢true (sym (used (omega arith)) ∙ free))
    ]
  ]
    where
      used : q ≤ p → IsUsed c q
      used le = wf.packed q p _ (s.lower, s.upper) h.inside le (Has-IsUsed c index file p h)

      keys :
          same_blk (c.blk_index q) index file ≡ true
          → ((c.blk_index q).file_index ≡ (c.blk_index p).file_index)
            × ((c.blk_index q).block_index ≡ (c.blk_index p).block_index)
      keys same = ground (arith, h.holds)

  Oldest-Has : {d : Cache} {o : Option ℕ} → Oldest c index file d o → (d ≡ c) × (o ≡ some p)
  Oldest-Has (nothing full) =
      absurd (false≢true (sym (full.others p h.inside.0 h.inside.1).0 ∙ Has-same c index file p h))
  Oldest-Has (entry q (kept e s)) = (e, ap some (slot-eq q s))
  Oldest-Has (entry q (evicted lo hi idle others t same)) =
      absurd (false≢true (sym (others p h.inside.0 h.inside.1).0 ∙ Has-same c index file p h))

  -- `oldestBlock` returns the entry that has the block, and evicts nothing.
  pub oldest_block-Has : oldest_block c index file ≡ (c, some p)
  oldest_block-Has = let r = Oldest-Has (oldest_block-Oldest c index file) in λ i. (r.0 i, r.1 i)

-- What a hit tells the request.
pub record IsHit (c : Cache) (req : Request) (p : ℕ) (r : Cache × Request × ReadStep) : Type 0 where
  pub step : r.2 ≡ hit
  pub is_ready : r.1.ready ≡ true
  pub address : r.1.data_ptr ≡ get_block_data c p
  pub origin : r.1.originating.address ≡ c.self
  pub reserved : r.1.reserved_map c.self ≡ 1
  pub same_index : r.1.blk_idx ≡ req.blk_idx
  pub same_file : r.1.file_idx ≡ req.file_idx
  pub bytes : r.0.memory ≡ c.memory

lookup_entry-IsHit :
    (c : Cache) (req : Request) (prefetch : Bool) (now p : ℕ)
    → (c.blk_index p).id ≡ p
    → is_avail (c.blk_index p).status ≡ true
    → IsHit c req p (lookup_entry c (reserve_in c req) prefetch now p)
unfolding lookup_entry block_set
lookup_entry-IsHit c req prefetch now p number avail =
    rw (avail, lookup_entry)
      (record {
        step = refl;
        is_ready = refl;
        address = ground (arith, ==_refl p);
        origin = refl;
        reserved = ground (arith, ==_refl c.self);
        same_index = refl;
        same_file = refl;
        bytes = refl;
      })

-- The critical section of `readBlock` on a block that the cache has: a hit, which hands out the
-- address of the stored bytes.
pub lookup_block-Has :
    (c : Cache) (req : Request) (prefetch : Bool) (now p : ℕ)
    → IsWellFormed c
    → Has c req.blk_idx req.file_idx p
    → IsHit c req p (lookup_block c req prefetch now)
unfolding lookup_block
lookup_block-Has c req prefetch now p wf h =
    let e = oldest_block-Has c req.blk_idx req.file_idx p wf h in
    rw (ap (λ r. r.1) e, ap (λ r. r.0) e, lookup_block)
      (lookup_entry-IsHit c req prefetch now p (wf.numbered p) h.avail)
