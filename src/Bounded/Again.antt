-- ===== src/Bounded/Again.antt =====
-- A block that a whole `writeBlock` stored, for the next whole `readBlock`.
use tazer.Base.{
  ℕ, ◌+◌, ◌≤◌, ◌<◌, ◌≡◌, ◌≢◌, Bool, true, false, not, ◌||◌, ◌&&◌, ◌==◌, refl, ◌∙◌, inl, inr,
  Bool-cases, ==_ne, arith, leb, leb→le, Option, none, some,
}
use tazer.Bounded.Types.{Cache, Request, Shape, ok}
use tazer.Bounded.Table.{get_bin_index, touch_file, get_block_data}
use tazer.Bounded.Ops.{
  Level, Reads, fill_entry, read_block, store_block, forward_write, write_block,
}
use tazer.Bounded.Invariant.Defs.{IsWellFormed}
use tazer.Bounded.Invariant.Calls.{
  Leaves, Leaves-bind, write_block-IsWellFormed, touched-IsWellFormed,
}
use tazer.Bounded.Lookup.{Has}
use tazer.Bounded.Store.{Stored, store_block-Stored}
use tazer.Bounded.Calls.{read_block-Has}
use tazer.Bounded.Whole.{Spares, Leaves-ok}
use tazer.Bounded.Geometry.{IsTiled, block_inside, get_bin_index-lt}
use tazer.Bounded.Invariant.Ops.{
  Picked-Keeps, fill_entry-Keeps, Oldest, nothing, entry, oldest_block-Oldest,
}

and-true : (a b : Bool) → (a && b) ≡ true → a ≡ true
and-true true b h = refl
and-true false b h = h

-- Every byte of `_blocks` is left alone.
abbrev pub SparesBlocks : {S : Type 0} → Level S → Cache → Type 0
SparesBlocks next c = (a : ℕ) → c.blocks ≤ a → a < c.blocks + c.cache_size → Spares next a

picked_shape :
    (c : Cache) (req : Request) (now : ℕ) {d : Cache} {o : Option ℕ}
    → Oldest c req.blk_idx req.file_idx d o
    → (let r : Cache × Bool = elim o [
      | none ↦ (d, false)
      | some p ↦ (fill_entry d req now p, true)
    ] in
        r).0.shape
      ≡ c.shape
picked_shape c req now (nothing full) = refl
picked_shape c req now (entry {d} p picked) =
    (fill_entry-Keeps d req now p).shape ∙ (Picked-Keeps c d _ _ p picked).shape

store_block-shape :
    (c : Cache) (req : Request) (now : ℕ) → (store_block c req now).0.shape ≡ c.shape
unfolding store_block
store_block-shape c req now = elim (Bool-cases (leb req.size c.blk_size)) [
  | inl e ↦ rw e (picked_shape c req now (oldest_block-Oldest c req.blk_idx req.file_idx))
  | inr e ↦ rw e refl
]

-- What was stored fitted.
store_block-fits :
    (c : Cache) (req : Request) (now : ℕ) → (store_block c req now).1 ≡ true → req.size ≤ c.blk_size
unfolding store_block
store_block-fits c req now h = elim (Bool-cases (leb req.size c.blk_size)) [
  | inl e ↦ leb→le _ _ e
  | inr e ↦ absurd (let x : false ≡ true = rw e at h in cc x)
]

module _ {S : Type 0} (next : Level S) where
  forward_write-Stored :
      (c : Cache) (s : S) (req : Request) (ret : Bool) (index file src size : ℕ) (memory : ℕ → ℕ)
      → IsTiled c.shape
      → SparesBlocks next c
      → (ret ≡ true → Stored c index file memory src size × (size ≤ c.blk_size))
      → Leaves
          (λ w. w.2 ≡ true → Stored w.0 index file memory src size)
          (forward_write next c s req ret)
  unfolding forward_write get_bin_index
  forward_write-Stored c s req ret index file src size memory tiled spared h =
      Leaves-bind _ (next.write_block s c.memory req) _ (λ w e t.
        let (k, fits) = h (and-true ret w.2 t) in
        let inside =
          block_inside c _ k.at tiled (get_bin_index-lt c index file tiled.bins) k.has.inside in
        record {
          at = k.at;
          has = record { inside = k.has.inside; holds = k.has.holds; avail = k.has.avail };
          stores = λ i lt.
              Leaves-ok _ _ w
                ((spared (get_block_data c k.at + i) (omega arith)
                    (omega (arith, lt, fits, inside))).write
                  s c.memory req)
                e
              ∙ k.stores i lt;
        })

  forward_write-shape :
      (c : Cache) (s : S) (req : Request) (ret : Bool) (shape : Shape)
      → c.shape ≡ shape
      → Leaves (λ w. w.0.shape ≡ shape) (forward_write next c s req ret)
  unfolding forward_write
  forward_write-shape c s req ret shape h =
      Leaves-bind _ (next.write_block s c.memory req) _ (λ w e. h)

  module _ (c : Cache) (s : S) (req : Request) (now : ℕ) (wf : IsWellFormed c)
      (tiled : IsTiled c.shape) (spared : SparesBlocks next c)
      (foreign : req.originating.address ≢ c.self)
      (absent : (q : ℕ) → ¬ Has (touch_file c req.file_idx) req.blk_idx req.file_idx q) where
    abbrev d : Cache
    d = touch_file c req.file_idx

    abbrev stored : Cache
    stored = (store_block d req now).0

    shape : stored.shape ≡ c.shape
    unfolding touch_file
    shape = store_block-shape d req now

    write_block-Stored :
        Leaves
          (λ w. w.2 ≡ true → Stored w.0 req.blk_idx req.file_idx c.memory req.data_ptr req.size)
          (write_block next c s req now)
    unfolding write_block touch_file
    write_block-Stored =
        elim (Bool-cases (not (req.reserved_map c.self == 0) || not c.terminating)) [
          | inl e ↦
              rw (e, ==_ne req.originating.address c.self foreign, write_block)
                (forward_write-Stored stored s req (store_block d req now).1 req.blk_idx
                  req.file_idx req.data_ptr req.size c.memory (rw shape tiled)
                  (λ a lo hi. spared a (rw shape at lo) (rw shape at hi))
                  (λ t. (
                    store_block-Stored d req now (touched-IsWellFormed c req.file_idx wf) absent t,
                    rw shape (store_block-fits d req now t),
                  )))
          | inr e ↦
              rw (e, ==_ne req.originating.address c.self foreign, write_block)
                (forward_write-Stored c s req false req.blk_idx req.file_idx req.data_ptr req.size
                  c.memory tiled spared (λ t. absurd (cc t)))
        ]

    write_block-shape : Leaves (λ w. w.0.shape ≡ c.shape) (write_block next c s req now)
    unfolding write_block
    write_block-shape =
        elim (Bool-cases (not (req.reserved_map c.self == 0) || not c.terminating)) [
          | inl e ↦
              rw (e, ==_ne req.originating.address c.self foreign, write_block)
                (forward_write-shape stored s req _ c.shape shape)
          | inr e ↦ rw (e, write_block) (forward_write-shape c s req _ c.shape refl)
        ]

    -- In a well-formed cache whose blocks lie in `_blocks`, which the next level leaves alone, and
    -- that does not have a block of a file: if `writeBlock` of the block, answered by another cache,
    -- returns true, then the next `readBlock` of the block, with a size above 0 that fits a block,
    -- returns without asking the next level, its request is ready, and its pointer leads to the bytes
    -- that were written.
    pub write-read_block :
        (after : Cache) (s' : S) (reader : Request) (reads : Reads) (priority later : ℕ)
        → write_block next c s req now ≡ ok (after, s', true)
        → reader.blk_idx ≡ req.blk_idx
        → reader.file_idx ≡ req.file_idx
        → 0 < reader.size
        → reader.size ≤ c.blk_size
        → (e : Cache) × (r : Request) × (read_block next after s' reader reads priority later
            ≡ ok (e, s', r, reads))
          × (r.ready ≡ true)
          × ((i : ℕ) → i < req.size → e.memory (r.data_ptr + i) ≡ c.memory (req.data_ptr + i))
    write-read_block after s' reader reads priority later returned same_index same_file pos fits =
        let k = Leaves-ok _ _ (after, s', true) write_block-Stored returned refl in
        let wf' =
          Leaves-ok _ _ (after, s', true) (write_block-IsWellFormed next c s req now wf) returned in
        let same = Leaves-ok _ _ (after, s', true) write_block-shape returned in
        let (e, r, returns, bytes, ready, address, _) =
          read_block-Has next after s' reader reads priority later k.at wf'
            (rw (same_index, same_file) k.has) pos (rw same fits) in
        (e, r, returns, ready, λ i lt. rw (bytes, address) (k.stores i lt))
