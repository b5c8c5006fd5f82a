-- ===== src/Bounded/Balance.antt =====
-- Every user that a hit adds can be taken off again: the originating `writeBlock` finds the block,
-- does not leave the process, and restores the count.
use mathlib.Core.Bool.{false≢true}
use tazer.Base.{
  ℕ, suc, zero, ◌+◌, ◌≤◌, ◌<◌, ◌≡◌, ◌≢◌, ◌%◌, Bool, true, false, ◌&&◌, none, some, arith, refl,
  subst, sym, ◌∙◌, inl, inr, Bool-cases, ap, ==_refl, ==_ne, dec_lt, Option-cases, update_self,
}
use tazer.Bounded.Types.{Cache, BlockEntry, Request, ok, u32}
use tazer.Bounded.Table.{is_avail, same_blk, set_blk, dec_blk_cnt, block_set}
use tazer.Bounded.Scan.{find_avail, get_block}
use tazer.Bounded.Scan.Pick.{home}
use tazer.Bounded.Ops.{release_block, lookup_block, lookup_entry, reserve_in, ReadStep}
use tazer.Bounded.Invariant.Defs.{IsWellFormed}
use tazer.Bounded.Invariant.Ops.{
  Keeps, lookup_entry-Keeps, lookup_entry-IsWritten, lookup_block-IsWellFormed,
}
use tazer.Bounded.Invariant.Release.{IsFound, get_block-IsFound}
use tazer.Bounded.Lookup.{Has, Has-IsUsed, Has-same, IsHit, lookup_block-Has, oldest_block-Has}
use tazer.Bounded.Store.{Keeps-InBin}

find_avail-none :
    (table : ℕ → BlockEntry) (index file n first j : ℕ)
    → find_avail table index file n first ≡ none
    → first ≤ j
    → j < first + n
    → (same_blk (table j) index file && is_avail (table j).status) ≡ false
unfolding find_avail
find_avail-none table index file zero first j e lo hi = absurd (omega arith)
find_avail-none table index file (suc n) first j e lo hi =
    elim (Bool-cases (same_blk (table first) index file && is_avail (table first).status)) [
      | inl h ↦ absurd (let x : some first ≡ none = rw h at e in cc x)
      | inr h ↦ elim (dec_lt first j) [
        | yes lt ↦ find_avail-none table index file n (suc first) j (rw h at e) lt (omega arith)
        | no ge ↦
            let k : first ≡ j = omega arith in
            subst (λ x. (same_blk (table x) index file && is_avail (table x).status) ≡ false) k h
      ]
    ]

module _ (c : Cache) (index file p : ℕ) (wf : IsWellFormed c) (h : Has c index file p) where
  found-eq : (q : ℕ) → IsFound c.blk_index index file (home c index file) c.associativity q → q ≡ p
  found-eq q f =
      wf.unique q p _ (f.lower, f.upper) h.inside (ground (arith, f.avail))
        (Has-IsUsed c index file p h) (ground (arith, f.same, h.holds))

  -- `getBlock` returns the entry that has the block.
  get_block-Has : get_block c index file ≡ some p
  unfolding get_block
  get_block-Has = elim (Option-cases (get_block c index file)) [
    | inr (q, e) ↦ e ∙ ap some (found-eq q (get_block-IsFound c index file q e))
    | inl e ↦ absurd (
        false≢true (
          sym (find_avail-none c.blk_index index file c.associativity _ p e h.inside.0 h.inside.1)
          ∙ present))
  ]
    where
      present : (same_blk (c.blk_index p) index file && is_avail (c.blk_index p).status) ≡ true
      present = rw (Has-same c index file p h, h.avail) refl

-- A cache that has the block with a user, and a request with a reservation: the release returns.
pub release_block-Has :
    (c : Cache) (req : Request) (p : ℕ)
    → IsWellFormed c
    → Has c req.blk_idx req.file_idx p
    → req.reserved_map c.self ≢ 0
    → 0 < (c.blk_index p).active_cnt
    → release_block c req ≡ ok (set_blk c p (dec_blk_cnt (c.blk_index p)))
unfolding release_block
release_block-Has c req p wf h reserved users =
    rw
      (
        get_block-Has c _ _ p wf h,
        release_block,
        ==_ne _ 0 reserved,
        ==_ne (c.blk_index p).active_cnt 0 (λ e. omega arith),
      )
      refl

counted :
    (c : Cache) (req : Request) (prefetch : Bool) (now p : ℕ)
    → is_avail (c.blk_index p).status ≡ true
    → (is_avail ((lookup_entry c req prefetch now p).0.blk_index p).status ≡ true)
      × (((lookup_entry c req prefetch now p).0.blk_index p).active_cnt
          ≡ ((c.blk_index p).active_cnt + 1) % u32)
unfolding lookup_entry block_set
counted c req prefetch now p avail = ground (arith, ==_refl p)

pub hit-Has :
    (c : Cache) (req : Request) (prefetch : Bool) (now p : ℕ)
    → IsWellFormed c
    → Has c req.blk_idx req.file_idx p
    → let d = (lookup_block c req prefetch now).0 in
      Has d req.blk_idx req.file_idx p
      × (d.shape ≡ c.shape)
      × ((d.blk_index p).active_cnt ≡ ((c.blk_index p).active_cnt + 1) % u32)
unfolding lookup_block
hit-Has c req prefetch now p wf h =
    let e = oldest_block-Has c req.blk_idx req.file_idx p wf h in
    rw (ap (λ r. r.1) e, ap (λ r. r.0) e, lookup_block)
      (
        record {
          inside = Keeps-InBin c _ _ _ p p k h.inside;
          holds =
              (lookup_entry-IsWritten c (reserve_in c req) prefetch now p (inl h.holds)
                (wf.quiet p)).holds;
          avail = (counted c (reserve_in c req) prefetch now p h.avail).0;
        },
        k.shape,
        (counted c (reserve_in c req) prefetch now p h.avail).1,
      )
  where
    k : Keeps c (lookup_entry c (reserve_in c req) prefetch now p).0 p
    k = lookup_entry-Keeps c (reserve_in c req) prefetch now p

-- In a well-formed cache that has the block, a read is a hit, and handing the answered request to
-- `writeBlock` then returns and leaves the entry with as many users as before the read (fewer than
-- the counter can hold, less one).
hit-release :
    (c : Cache) (req : Request) (prefetch : Bool) (now p : ℕ)
    → IsWellFormed c
    → Has c req.blk_idx req.file_idx p
    → (c.blk_index p).active_cnt + 1 < u32
    → let r = lookup_block c req prefetch now in
      (d : Cache) × (release_block r.0 r.1 ≡ ok d)
      × ((d.blk_index p).active_cnt ≡ (c.blk_index p).active_cnt)
hit-release c req prefetch now p wf h room = (
  set_blk r.0 p (dec_blk_cnt (r.0.blk_index p)),
  release_block-Has r.0 r.1 p
      (lookup_block-IsWellFormed c req wf (rw (← h.holds.1) (wf.known p (Has-IsUsed c _ _ p h)))
        prefetch now)
      (rw (hit.same_index, hit.same_file) k.0) (rw (k.1, hit.reserved) (λ e. absurd (omega arith)))
      (omega (arith, k.2)),
  ap (λ e. e.active_cnt) (update_self r.0.blk_index p _) ∙ omega (arith, k.2),
)
  where
    r : Cache × Request × ReadStep
    r = lookup_block c req prefetch now

    k :
        Has r.0 req.blk_idx req.file_idx p
        × (r.0.shape ≡ c.shape)
        × ((r.0.blk_index p).active_cnt ≡ ((c.blk_index p).active_cnt + 1) % u32)
    k = hit-Has c req prefetch now p wf h

    hit : IsHit c req p r
    hit = lookup_block-Has c req prefetch now p wf h
