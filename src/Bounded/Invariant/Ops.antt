-- ===== src/Bounded/Invariant/Ops.antt =====
-- The critical sections of `readBlock` and `writeBlock` write one entry at most, and the table
-- stays well formed.
use tazer.Base.{
  ℕ, ◌≡◌, ◌≢◌, Bool, true, false, Option, none, some, arith, ◌==◌, refl, subst, sym, ◌∙◌, inl, inr,
  ◌⊎◌, Bool-cases, ap, ==_iff, update-ne, update_self, leb, ==_refl,
}
use tazer.Bounded.Types.{Cache, BlockEntry, Request}
use tazer.Bounded.Table.{is_empty, is_evict, is_wr, block_set, set_block_data}
use tazer.Bounded.Scan.{oldest_block}
use tazer.Bounded.Scan.Pick.{Picked, kept, evicted, IsFull, oldest_block-Picked, oldest_block-none}
use tazer.Bounded.Ops.{
  ReadStep, forward, lookup_entry, lookup_block, reserve_in, fill_entry, store_block,
}
use tazer.Bounded.Invariant.Defs.{IsWellFormed}
use tazer.Bounded.Invariant.Write.{Writes, Holds, Picked-IsFree, Writes-IsWellFormed}

-- `d` is `c` but for the entry `p` and the bytes.
pub record Keeps (c d : Cache) (p : ℕ) : Type 0 where
  pub shape : d.shape ≡ c.shape
  pub files : d.file_map ≡ c.file_map
  pub id : (d.blk_index p).id ≡ (c.blk_index p).id
  pub table : (j : ℕ) → p ≢ j → d.blk_index j ≡ c.blk_index j

pub Keeps-Writes : (c d : Cache) (p : ℕ) → Keeps c d p → Writes c d p (d.blk_index p)
Keeps-Writes c d p k = record {
  shape = k.shape;
  files = k.files;
  table = λ j. elim (Bool-cases (p == j)) [
    | inl h ↦ rw (h, (==_iff p j).0 h) refl
    | inr h ↦ rw h (k.table j (λ x. cc (sym h ∙ (==_iff p j).1 x)))
  ];
}

pub Keeps-trans : (c d e : Cache) (p : ℕ) → Keeps c d p → Keeps d e p → Keeps c e p
Keeps-trans c d e p k l = record {
  shape = l.shape ∙ k.shape;
  files = l.files ∙ k.files;
  id = l.id ∙ k.id;
  table = λ j ne. l.table j ne ∙ k.table j ne;
}

pub Picked-Keeps : (c d : Cache) (index file p : ℕ) → Picked c index file d p → Keeps c d p
Picked-Keeps c d index file p (kept e s) =
    rw e (record { shape = refl; files = refl; id = refl; table = λ j ne. refl })
Picked-Keeps c d index file p (evicted lo hi idle others t same) = record {
  shape = same.shape;
  files = same.files;
  id = ap (λ f. (f p).id) t ∙ ap (λ e. e.id) (update_self c.blk_index p _);
  table = λ j ne. ap (λ f. f j) t ∙ update-ne c.blk_index p _ j ne;
}

pub lookup_entry-Keeps :
    (d : Cache) (req : Request) (prefetch : Bool) (now p : ℕ)
    → Keeps d (lookup_entry d req prefetch now p).0 p
unfolding lookup_entry block_set
lookup_entry-Keeps d req prefetch now p = record {
  shape = ground arith;
  files = ground arith;
  id = ground (arith, ==_refl p);
  table = λ j ne. ground arith;
}

pub fill_entry-Keeps : (d : Cache) (req : Request) (now p : ℕ) → Keeps d (fill_entry d req now p) p
unfolding fill_entry block_set set_block_data
fill_entry-Keeps d req now p = record {
  shape = ground arith;
  files = ground arith;
  id = ground (arith, ==_refl p);
  table = λ j ne. ground arith;
}

-- The entry that `oldestBlock` hands out holds the block, is empty, or has just been evicted.
abbrev pub Offered : BlockEntry → ℕ → ℕ → Type 0
Offered e index file = Holds e index file ⊎ (is_empty e.status ≡ true) ⊎ (is_evict e.status ≡ true)

pub Picked-Offered :
    (c d : Cache) (index file p : ℕ) → Picked c index file d p → Offered (d.blk_index p) index file
Picked-Offered c d index file p (kept e s) = rw e (ground (arith, s.fits))
Picked-Offered c d index file p (evicted lo hi idle others t same) =
    inr (inr (rw (ap (λ f. f p) t ∙ update_self c.blk_index p _) refl))

pub Picked-quiet :
    (c d : Cache) (index file p : ℕ)
    → IsWellFormed c
    → Picked c index file d p
    → is_wr (d.blk_index p).status ≡ false
Picked-quiet c d index file p wf (kept e s) = rw e (wf.quiet p)
Picked-quiet c d index file p wf (evicted lo hi idle others t same) =
    rw (ap (λ f. f p) t ∙ update_self c.blk_index p _) refl

-- What an operation writes: an entry for the block, in use and settled.
pub record IsWritten (e : BlockEntry) (index file : ℕ) : Type 0 where
  pub holds : Holds e index file
  pub used : is_empty e.status ≡ false
  pub settled : is_evict e.status ≡ false
  pub quiet : is_wr e.status ≡ false

pub lookup_entry-IsWritten :
    (d : Cache) (req : Request) (prefetch : Bool) (now p : ℕ)
    → Offered (d.blk_index p) req.blk_idx req.file_idx
    → is_wr (d.blk_index p).status ≡ false
    → IsWritten ((lookup_entry d req prefetch now p).0.blk_index p) req.blk_idx req.file_idx
unfolding lookup_entry block_set
lookup_entry-IsWritten d req prefetch now p h q = ground (arith, ==_refl p)

pub fill_entry-IsWritten :
    (d : Cache) (req : Request) (now p : ℕ)
    → Offered (d.blk_index p) req.blk_idx req.file_idx
    → is_wr (d.blk_index p).status ≡ false
    → IsWritten ((fill_entry d req now p).blk_index p) req.blk_idx req.file_idx
unfolding fill_entry block_set set_block_data
fill_entry-IsWritten d req now p h q = ground (arith, ==_refl p)

-- How `oldestBlock` ends for a block.
pub data Oldest (c : Cache) (index file : ℕ) : Cache → Option ℕ → Type 0 where
  nothing : IsFull c index file → Oldest c index file c none
  entry : {d : Cache} (p : ℕ) → Picked c index file d p → Oldest c index file d (some p)

pub oldest_block-Oldest :
    (c : Cache) (index file : ℕ)
    → Oldest c index file (oldest_block c index file).0 (oldest_block c index file).1
oldest_block-Oldest c index file = from (oldest_block c index file) refl
  where
    from : (r : Cache × Option ℕ) → oldest_block c index file ≡ r → Oldest c index file r.0 r.1
    from (d, none) e =
        let n = oldest_block-none c index file d e in
        subst (λ k. Oldest c index file k none) n.0 (nothing n.1)
    from (d, some p) e = entry p (oldest_block-Picked c index file d p e)

-- A write where `oldestBlock` pointed keeps the table well formed.
Picked-IsWellFormed :
    (c d e : Cache) (index file p : ℕ)
    → IsWellFormed c
    → c.file_map file ≢ none
    → Picked c index file d p
    → Keeps d e p
    → IsWritten (e.blk_index p) index file
    → IsWellFormed e
Picked-IsWellFormed c d e index file p wf known picked k w =
    Writes-IsWellFormed c e index file p (e.blk_index p) wf (Picked-IsFree c index file p wf picked)
      (Keeps-Writes c e p (Keeps-trans c d e p (Picked-Keeps c d index file p picked) k))
      (record {
        number = k.id ∙ (Picked-Keeps c d index file p picked).id ∙ wf.numbered p;
        holds = w.holds;
        used = w.used;
        settled = w.settled;
        quiet = w.quiet;
        known = known;
      })

module _ (c : Cache) (req : Request) (wf : IsWellFormed c)
    (known : c.file_map req.file_idx ≢ none) where
  looked-IsWellFormed :
      (prefetch : Bool) (now : ℕ) {d : Cache} {o : Option ℕ}
      → Oldest c req.blk_idx req.file_idx d o
      → IsWellFormed
          (let r : Cache × Request × ReadStep = elim o [
            | none ↦ (d, req, forward)
            | some p ↦ lookup_entry d (reserve_in c req) prefetch now p
          ] in
            r).0
  looked-IsWellFormed prefetch now (nothing full) = wf
  looked-IsWellFormed prefetch now (entry {d} p picked) =
      Picked-IsWellFormed c d _ req.blk_idx req.file_idx p wf known picked
        (lookup_entry-Keeps d (reserve_in c req) prefetch now p)
        (lookup_entry-IsWritten d (reserve_in c req) prefetch now p
          (Picked-Offered c d _ _ p picked) (Picked-quiet c d _ _ p wf picked))

  pub lookup_block-IsWellFormed :
      (prefetch : Bool) (now : ℕ) → IsWellFormed (lookup_block c req prefetch now).0
  unfolding lookup_block
  lookup_block-IsWellFormed prefetch now =
      looked-IsWellFormed prefetch now (oldest_block-Oldest c req.blk_idx req.file_idx)

  stored-IsWellFormed :
      (now : ℕ) {d : Cache} {o : Option ℕ}
      → Oldest c req.blk_idx req.file_idx d o
      → IsWellFormed
          (let r : Cache × Bool = elim o [
            | none ↦ (d, false)
            | some p ↦ (fill_entry d req now p, true)
          ] in
            r).0
  stored-IsWellFormed now (nothing full) = wf
  stored-IsWellFormed now (entry {d} p picked) =
      Picked-IsWellFormed c d _ req.blk_idx req.file_idx p wf known picked
        (fill_entry-Keeps d req now p)
        (fill_entry-IsWritten d req now p (Picked-Offered c d _ _ p picked)
          (Picked-quiet c d _ _ p wf picked))

  pub store_block-IsWellFormed : (now : ℕ) → IsWellFormed (store_block c req now).0
  unfolding store_block
  store_block-IsWellFormed now = elim (Bool-cases (leb req.size c.blk_size)) [
    | inl h ↦ rw h (stored-IsWellFormed now (oldest_block-Oldest c req.blk_idx req.file_idx))
    | inr h ↦ rw h wf
  ]
