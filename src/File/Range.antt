-- ===== src/File/Range.antt =====
-- The blocks that `read` asks for: the range that its clamps compute.
use native.Mathlib.Nat.{lt_of_mul-lt-mul_right}
use tazer.Base.{
  ℕ, suc, ◌+◌, ◌-◌, ◌*◌, ◌/◌, ◌%◌, ◌≤◌, ◌<◌, ◌≡◌, true, if◌then◌else◌, ==_ne, ==_iff, ltb, arith,
  inl, inr,
}
use tazer.File.Types.{File, u32, u64}
use tazer.File.Read.{clamp, end_block}
use tazer.File.Copy.{IsRange, div-mod, tail_bytes, same_multiple}

-- A file that `open` has set up, of fewer blocks than block numbers.
pub record IsOpen (f : File) : Type 0 where
  pub is_active : f.active ≡ true
  pub some_bytes : 0 < f.blk_size
  pub small : f.blk_size < u32
  pub few : f.num_blks < u32
  pub sized : f.file_size < u64
  pub whole : f.file_size ≤ f.num_blks * f.blk_size

clamped : (n e last : ℕ) → e ≡ last + 1 → last < n → (if ltb n e then n else e) ≡ last + 1
clamped n e last h lt = ground arith

module _ (f : File) (pos size : ℕ) (h : IsOpen f) (before : pos < f.file_size) (asked : 0 < size)
    (fits : size < u32) where
  pub clamp-bounds :
      (0 < clamp f pos size) × (clamp f pos size < u32) × (pos + clamp f pos size ≤ f.file_size)
  unfolding clamp
  clamp-bounds = (ground arith, ground arith, ground arith)

  count : ℕ
  count = clamp f pos size

  -- The last block that a byte of the read is in.
  pub last_block : ℕ
  last_block = (pos + clamp f pos size - 1) / f.blk_size

  last_block-bounds :
      (last_block * f.blk_size < pos + clamp f pos size)
      × (pos + clamp f pos size ≤ last_block * f.blk_size + f.blk_size)
      × (last_block < f.num_blks)
  unfolding last_block
  last_block-bounds =
      let d = div-mod (pos + clamp f pos size - 1) f.blk_size h.some_bytes in
      let a : last_block * f.blk_size < pos + clamp f pos size =
        omega (arith, d.0, clamp-bounds.0) in
      (
        a,
        omega (arith, d.0, d.1),
        lt_of_mul-lt-mul_right f.blk_size (
            let e : last_block * f.blk_size < f.num_blks * f.blk_size =
              omega (arith, a, clamp-bounds.2, h.whole) in
            e),
      )

  pub clamp-IsRange : IsRange f.blk_size pos (clamp f pos size) (pos / f.blk_size) last_block
  clamp-IsRange =
      let d = div-mod pos f.blk_size h.some_bytes in
      record {
        some_bytes = h.some_bytes;
        small = h.small;
        asked = clamp-bounds.1;
        inside = omega (arith, clamp-bounds.2, h.sized);
        blocks = omega (arith, last_block-bounds.2, h.few);
        from = omega (arith, d.0);
        from_end = omega (arith, d.0, d.1);
        to = last_block-bounds.0;
        to_end = last_block-bounds.1;
      }

  pub start-small : pos / f.blk_size % u32 ≡ pos / f.blk_size
  start-small =
      let d = div-mod pos f.blk_size h.some_bytes in
      let l : pos / f.blk_size < f.num_blks = lt_of_mul-lt-mul_right f.blk_size (
        let e : pos / f.blk_size * f.blk_size < f.num_blks * f.blk_size =
          omega (arith, d.0, h.whole) in
        e) in
      omega (arith, l, h.few)

  pub end_block-last : end_block f pos (clamp f pos size) ≡ last_block + 1
  unfolding end_block
  end_block-last =
      let n : ℕ = clamp f pos size in
      let w : (pos + n) % u64 ≡ pos + n = omega (arith, clamp-bounds.2, h.sized) in
      let d : (pos + n ≡ (pos + n) / f.blk_size * f.blk_size + (pos + n) % f.blk_size)
          × ((pos + n) % f.blk_size < f.blk_size) =
        div-mod (pos + n) f.blk_size h.some_bytes in
      elim (tail_bytes f.blk_size (pos + n) last_block h.some_bytes last_block-bounds.0
        last_block-bounds.1) [
          | inl z ↦
              let q : (pos + n) / f.blk_size ≡ suc last_block =
                same_multiple _ (suc last_block) f.blk_size
                  (grind (arith, d.0, z.0, z.1, h.some_bytes))
                  (grind (arith, d.0, z.0, z.1, h.some_bytes)) in
              rw (w, (==_iff ((pos + n) % f.blk_size) 0).1 z.0, q)
                (clamped f.num_blks _ last_block (omega (arith, last_block-bounds.2, h.few))
                  last_block-bounds.2)
          | inr z ↦
              let q : (pos + n) / f.blk_size ≡ last_block =
                same_multiple _ last_block f.blk_size (omega (arith, d.0, d.1, z.1))
                  (omega (arith, d.0, d.1, z.1)) in
              rw (w, ==_ne ((pos + n) % f.blk_size) 0 z.0, q)
                (clamped f.num_blks _ last_block (omega (arith, last_block-bounds.2, h.few))
                  last_block-bounds.2)
        ]
