-- ===== src/Bounded/Geometry.antt =====
-- The constructor's geometry: the bins tile the table, the table tiles `_blocks`, and so a block
-- write stays inside the allocation.
use tazer.Base.{
  ℕ, suc, ◌+◌, ◌*◌, ◌/◌, ◌%◌, ◌≤◌, ◌<◌, ◌≡◌, Bool, true, false, ◌||◌, List, Option, none, some,
  arith, ltb, leb, ◌==◌, if◌then◌else◌, refl, ◌∙◌, inl, inr, ◌⊎◌, Bool-cases, ap, memcpy-out,
  leb→le,
}
use tazer.Bounded.Types.{Cache, Request, Shape, CacheType, u32}
use tazer.Bounded.Table.{make_shape, get_bin_index, get_block_data}
use tazer.Bounded.Scan.Pick.{Picked}
use tazer.Bounded.Ops.{fill_entry, store_block}
use tazer.Bounded.Invariant.Defs.{InBin, IsWellFormed}
use tazer.Bounded.Invariant.Write.{Picked-IsFree}
use tazer.Bounded.Invariant.Ops.{Keeps, Picked-Keeps, Oldest, nothing, entry, oldest_block-Oldest}
use tazer.Bounded.Store.{Picked-memory}
use tazer.Bounded.Stays.{fill_entry_memory_cases}

pub record IsTiled (s : Shape) : Type 0 where
  pub ways : 0 < s.associativity
  pub bins : 0 < s.num_bins
  pub table : s.num_bins * s.associativity ≤ s.num_blocks
  pub room : s.num_blocks * s.blk_size ≤ s.cache_size

div-mul-le : (a b : ℕ) → a / b * b ≤ a
div-mul-le a b = grind arith

mul_mono : (x y z : ℕ) → x ≤ y → x * z ≤ y * z
mul_mono x y z h = grind arith

div-pos : (a b : ℕ) → 0 < b → b ≤ a → 0 < a / b
div-pos a b h le = grind arith

ways_range :
    (n assoc : ℕ)
    → 0 < n
    → (0 < (if assoc == 0 || ltb n assoc then n else assoc))
      × ((if assoc == 0 || ltb n assoc then n else assoc) ≤ n)
ways_range n assoc h = (ground arith, ground arith)

-- For a cache with room for one block at least and for fewer than 2^32, the constructor settles on
-- bins of at least one entry, at least one bin, bins that fit the table and blocks that fit the
-- cache, whatever associativity was asked for.
pub make_shape-IsTiled :
    (self : ℕ) (name : List ℕ) (type : CacheType) (cache_size block_size assoc : ℕ) (pe : Bool)
    (blocks : ℕ)
    → 0 < block_size
    → block_size ≤ cache_size
    → cache_size / block_size < u32
    → IsTiled (make_shape self name type cache_size block_size assoc pe blocks)
unfolding make_shape
make_shape-IsTiled self name type cache_size block_size assoc pe blocks pos fits few =
    rw (whole, make_shape)
      (record {
        ways = w.0;
        bins = div-pos n _ w.0 w.1;
        table = div-mul-le n _;
        room = div-mul-le cache_size block_size;
      })
  where
    n : ℕ
    n = cache_size / block_size

    whole : cache_size / block_size % u32 ≡ n
    whole = omega (arith, few)

    w :
        (0 < (if assoc == 0 || ltb n assoc then n else assoc))
        × ((if assoc == 0 || ltb n assoc then n else assoc) ≤ n)
    w = ways_range n assoc (div-pos cache_size block_size pos fits)

-- A bin index is in range.
pub get_bin_index-lt :
    (c : Cache) (index file : ℕ) → 0 < c.num_bins → get_bin_index c index file < c.num_bins
unfolding get_bin_index
get_bin_index-lt c index file h = omega arith

-- The bytes of an entry of a bin lie in `_blocks`.
pub block_inside :
    (c : Cache) (b p : ℕ)
    → IsTiled c.shape
    → b < c.num_bins
    → InBin c b p
    → get_block_data c p + c.blk_size ≤ c.blocks + c.cache_size
block_inside c b p t lt h =
    let m : suc b * c.associativity ≤ c.num_bins * c.associativity =
      mul_mono (suc b) c.num_bins c.associativity lt in
    let k : suc p * c.blk_size ≤ c.num_blocks * c.blk_size =
      mul_mono (suc p) c.num_blocks c.blk_size (omega (arith, m, h.1, t.table)) in
    omega (arith, k, t.room)

module _ (c : Cache) (req : Request) (now : ℕ) (wf : IsWellFormed c) (t : IsTiled c.shape) (a : ℕ)
    (outside : (a < c.blocks) ⊎ (c.blocks + c.cache_size ≤ a)) where
  fill_outside :
      (p : ℕ) {d : Cache}
      → Picked c req.blk_idx req.file_idx d p
      → req.size ≤ c.blk_size
      → (fill_entry d req now p).memory a ≡ c.memory a
  fill_outside p {d} picked fits = elim (fill_entry_memory_cases d req now p) [
    | inl e ↦ ap (λ m. m a) e ∙ ap (λ m. m a) (Picked-memory c d _ _ p picked)
    | inr e ↦
        ap (λ m. m a) e
        ∙ memcpy-out d.memory _ d.memory req.data_ptr req.size a
            (λ h. apart (rw (k.shape, k.id ∙ wf.numbered p) at h))
        ∙ ap (λ m. m a) (Picked-memory c d _ _ p picked)
  ]
    where
      k : Keeps c d p
      k = Picked-Keeps c d _ _ p picked

      inside : get_block_data c p + c.blk_size ≤ c.blocks + c.cache_size
      inside =
          block_inside c _ p t (get_bin_index-lt c _ _ t.bins)
            (Picked-IsFree c _ _ p wf picked).inside

      apart : ¬ ((get_block_data c p ≤ a) × (a < get_block_data c p + req.size))
      apart h = elim outside [
        | inl l ↦ omega (arith, h.0)
        | inr r ↦ omega (arith, h.1, inside, fits)
      ]

  Oldest-outside :
      {d : Cache} {o : Option ℕ}
      → req.size ≤ c.blk_size
      → Oldest c req.blk_idx req.file_idx d o
      → (let r : Cache × Bool = elim o [
        | none ↦ (d, false)
        | some p ↦ (fill_entry d req now p, true)
      ] in
            r).0.memory
          a
        ≡ c.memory a
  Oldest-outside fits (nothing full) = refl
  Oldest-outside fits (entry p picked) = fill_outside p picked fits

  -- In a well-formed cache whose bins tile the table and whose table tiles `_blocks`,
  -- a block write leaves every byte outside `_blocks` as it was.
  pub store_block-outside : (store_block c req now).0.memory a ≡ c.memory a
  unfolding store_block
  store_block-outside = elim (Bool-cases (leb req.size c.blk_size)) [
    | inl e ↦ rw e (Oldest-outside (leb→le _ _ e) (oldest_block-Oldest c req.blk_idx req.file_idx))
    | inr e ↦ rw e refl
  ]
