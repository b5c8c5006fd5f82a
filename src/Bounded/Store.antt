-- ===== src/Bounded/Store.antt =====
-- What `writeBlock` stores, `readBlock` hands out: the bytes of a block that was not there before.
use tazer.Base.{
  ℕ, ◌+◌, ◌*◌, ◌<◌, ◌≡◌, ◌≢◌, Bool, true, false, Option, none, some, arith, leb, refl, ◌∙◌, inl,
  inr, Bool-cases, ap, ==_refl, memcpy-in, update_self, ◌≡⟨◌⟩◌, ◌∎,
}
use tazer.Bounded.Types.{Cache, Request}
use tazer.Bounded.Table.{is_wr, is_avail, get_bin_index, get_block_data, block_set, set_block_data}
use tazer.Bounded.Scan.Pick.{Picked, kept, evicted}
use tazer.Bounded.Ops.{fill_entry, store_block, lookup_block, hit}
use tazer.Bounded.Invariant.Defs.{InBin, IsWellFormed}
use tazer.Bounded.Invariant.Write.{Picked-IsFree, bin_index-eq}
use tazer.Bounded.Invariant.Ops.{
  Keeps, Keeps-trans, Picked-Keeps, fill_entry-Keeps, fill_entry-IsWritten, Picked-Offered,
  Picked-quiet, Oldest, nothing, entry, oldest_block-Oldest, store_block-IsWellFormed,
}
use tazer.Bounded.Lookup.{Has, IsHit, lookup_block-Has}

fill_entry-avail :
    (d : Cache) (req : Request) (now p : ℕ)
    → is_wr (d.blk_index p).status ≡ false
    → is_avail ((fill_entry d req now p).blk_index p).status ≡ true
unfolding fill_entry block_set set_block_data
fill_entry-avail d req now p quiet = ground (arith, ==_refl p)

fill_entry-memory :
    (d : Cache) (req : Request) (now p : ℕ)
    → is_avail (d.blk_index p).status ≡ false
    → is_wr (d.blk_index p).status ≡ false
    → (fill_entry d req now p).memory
      ≡ (set_block_data d req.data_ptr (d.blk_index p).id req.size).memory
unfolding fill_entry block_set set_block_data
fill_entry-memory d req now p new quiet = rw (new, quiet, fill_entry) refl

set_block_data-in :
    (d : Cache) (src id p size i : ℕ)
    → id ≡ p
    → i < size
    → (set_block_data d src id size).memory (get_block_data d p + i) ≡ d.memory (src + i)
unfolding set_block_data
set_block_data-in d src id p size i e lt =
    rw (e, set_block_data) (memcpy-in d.memory (get_block_data d p) d.memory src size i lt)

-- The stored bytes of the entry `p` are those that stood at `src`.
abbrev pub Stores : Cache → ℕ → (ℕ → ℕ) → ℕ → ℕ → Type 0
Stores d p memory src size =
    (i : ℕ) → i < size → d.memory (get_block_data d p + i) ≡ memory (src + i)

pub Keeps-InBin :
    (c d : Cache) (index file p q : ℕ)
    → Keeps c d p
    → InBin c (get_bin_index c index file) q
    → InBin d (get_bin_index d index file) q
Keeps-InBin c d index file p q k h = rw (bin_index-eq c d index file k.shape k.files, k.shape) h

pub Picked-memory : (c d : Cache) (index file p : ℕ) → Picked c index file d p → d.memory ≡ c.memory
Picked-memory c d index file p (kept e s) = ap (λ k. k.memory) e
Picked-memory c d index file p (evicted lo hi idle others t same) = same.bytes

-- Of a block that is absent no available entry is handed out.
new-entry :
    (c d : Cache) (index file p : ℕ)
    → ((q : ℕ) → ¬ Has c index file q)
    → Picked c index file d p
    → is_avail (d.blk_index p).status ≡ false
new-entry c d index file p absent (kept e s) =
    rw e (elim (Bool-cases (is_avail (c.blk_index p).status)) [
      | inr no_avail ↦ no_avail
      | inl avail ↦ elim s.fits [
        | inl same ↦
            absurd (
              absent p
                (record { inside = (s.lower, s.upper); holds = ground arith; avail = avail }))
        | inr free ↦ ground arith
      ]
    ])
new-entry c d index file p absent (evicted lo hi idle others t same) =
    rw (ap (λ f. f p) t ∙ update_self c.blk_index p _) refl

module _ (c d : Cache) (req : Request) (now p : ℕ) (wf : IsWellFormed c)
    (absent : (q : ℕ) → ¬ Has c req.blk_idx req.file_idx q)
    (picked : Picked c req.blk_idx req.file_idx d p) where
  quiet : is_wr (d.blk_index p).status ≡ false
  quiet = Picked-quiet c d _ _ p wf picked

  filled-Has : Has (fill_entry d req now p) req.blk_idx req.file_idx p
  filled-Has = record {
    inside =
        Keeps-InBin c _ _ _ p p
          (Keeps-trans c d _ p (Picked-Keeps c d _ _ p picked) (fill_entry-Keeps d req now p))
          (Picked-IsFree c _ _ p wf picked).inside;
    holds = (fill_entry-IsWritten d req now p (Picked-Offered c d _ _ p picked) quiet).holds;
    avail = fill_entry-avail d req now p quiet;
  }

  number : (d.blk_index p).id ≡ p
  number = (Picked-Keeps c d _ _ p picked).id ∙ wf.numbered p

  filled-Stores : Stores (fill_entry d req now p) p c.memory req.data_ptr req.size
  filled-Stores i lt =
      (fill_entry d req now p).memory (get_block_data (fill_entry d req now p) p + i)
      ≡⟨ ap (λ s. (fill_entry d req now p).memory (s.blocks + p * s.blk_size + i))
          (fill_entry-Keeps d req now p).shape ⟩
        (fill_entry d req now p).memory (get_block_data d p + i)
      ≡⟨ ap (λ m. m (get_block_data d p + i))
          (fill_entry-memory d req now p (new-entry c d _ _ p absent picked) quiet) ⟩
        (set_block_data d req.data_ptr (d.blk_index p).id req.size).memory (get_block_data d p + i)
      ≡⟨ set_block_data-in d req.data_ptr (d.blk_index p).id p req.size i number lt ⟩
        d.memory (req.data_ptr + i)
      ≡⟨ ap (λ m. m (req.data_ptr + i)) (Picked-memory c d _ _ p picked) ⟩
        c.memory (req.data_ptr + i) ∎

-- The cache has the block in some entry, with these bytes.
pub record Stored (c : Cache) (index file : ℕ) (memory : ℕ → ℕ) (src size : ℕ) : Type 0 where
  pub at : ℕ
  pub has : Has c index file at
  pub stores : Stores c at memory src size

module _ (c : Cache) (req : Request) (now : ℕ) (wf : IsWellFormed c)
    (absent : (q : ℕ) → ¬ Has c req.blk_idx req.file_idx q) where
  Oldest-Stored :
      {d : Cache} {o : Option ℕ}
      → Oldest c req.blk_idx req.file_idx d o
      → let r : Cache × Bool = elim o [
        | none ↦ (d, false)
        | some p ↦ (fill_entry d req now p, true)
      ] in
        r.1 ≡ true → Stored r.0 req.blk_idx req.file_idx c.memory req.data_ptr req.size
  Oldest-Stored (nothing full) e = absurd (cc e)
  Oldest-Stored (entry {d} p picked) e = record {
    at = p;
    has = filled-Has c d req now p wf absent picked;
    stores = filled-Stores c d req now p wf absent picked;
  }

  pub store_block-Stored :
      (store_block c req now).1 ≡ true
      → Stored (store_block c req now).0 req.blk_idx req.file_idx c.memory req.data_ptr req.size
  unfolding store_block
  store_block-Stored e = elim (Bool-cases (leb req.size c.blk_size)) [
    | inl h ↦ rw h (Oldest-Stored (oldest_block-Oldest c req.blk_idx req.file_idx) (rw h at e))
    | inr h ↦ absurd (let x : false ≡ true = rw h at e in cc x)
  ]

-- If the cache stores the data of a request for a block that it did not have, then a later read of
-- the same block is a hit, and the pointer that the reader gets leads to those bytes.
pub store-lookup :
    (c : Cache) (req reader : Request) (now later : ℕ) (prefetch : Bool)
    → IsWellFormed c
    → c.file_map req.file_idx ≢ none
    → ((q : ℕ) → ¬ Has c req.blk_idx req.file_idx q)
    → (store_block c req now).1 ≡ true
    → reader.blk_idx ≡ req.blk_idx
    → reader.file_idx ≡ req.file_idx
    → let r = lookup_block (store_block c req now).0 reader prefetch later in
      (r.2 ≡ hit)
      × (r.1.ready ≡ true)
      × ((i : ℕ) → i < req.size → r.0.memory (r.1.data_ptr + i) ≡ c.memory (req.data_ptr + i))
store-lookup c req reader now later prefetch wf known absent ret same_index same_file =
    (h.step, h.is_ready, λ i lt. rw (h.bytes, h.address) (s.stores i lt))
  where
    s : Stored (store_block c req now).0 req.blk_idx req.file_idx c.memory req.data_ptr req.size
    s = store_block-Stored c req now wf absent ret

    h :
        IsHit
          (store_block c req now).0
          reader
          s.at
          (lookup_block (store_block c req now).0 reader prefetch later)
    h =
        lookup_block-Has _ reader prefetch later s.at (store_block-IsWellFormed c req wf known now)
          (rw (same_index, same_file) s.has)
