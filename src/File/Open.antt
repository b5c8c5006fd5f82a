-- ===== src/File/Open.antt =====
-- `open` and `seek` of src/client/InputFile.cpp and src/client/LocalFile.cpp.
use mathlib.Core.Option.{none-ne-some}
use tazer.Base.{
  ℕ, ◌+◌, ◌*◌, ◌/◌, ◌%◌, ◌≤◌, ◌<◌, ◌≡◌, ◌≢◌, ◌↔◌, false, if◌then◌else◌, ◌==◌, ==_ne, ==_iff, ltb,
  arith, sym, inl, inr, refl, none, some, Bool-cases, update_self, update-ne, lt→ltb,
}
use tazer.File.Types.{
  File, u32, u64, geometry, opened, open_input, open_local, Whence, seek_cur, seek, set_file_pos,
  set_eof,
}
use tazer.File.Copy.{div-mod, cases}
use tazer.File.Range.{IsOpen}

size_of : ℕ → ℕ → ℕ
size_of mem size = if ltb size mem then size else mem

count_of : ℕ → ℕ → ℕ
count_of bs size = if size % bs == 0 then size / bs % u32 else (size / bs + 1) % u32

size_of-bounds :
    (mem size : ℕ) → 0 < mem → 0 < size → (0 < size_of mem size) × (size_of mem size ≤ mem)
unfolding size_of
size_of-bounds mem size hm hs = (ground arith, ground arith)

size_of-ne : (mem size : ℕ) → 0 < mem → size ≢ 0 → (if ltb size mem then size else mem) ≢ 0
size_of-ne mem size h ne = ground arith

not_above : (a b : ℕ) → (if ltb b a then b else a) ≤ b
not_above a b = ground arith

small_div :
    (mem size : ℕ) → 0 < mem → 0 < size → size / mem + 1 < u32 → size / size_of mem size + 1 < u32
unfolding size_of
small_div mem size hm hs few = elim (Bool-cases (ltb size mem)) [
  | inl e ↦ rw e (let one : size / size ≡ 1 = grind (arith, hs) in omega (arith, one))
  | inr e ↦ rw e few
]

count_of-whole :
    (bs size : ℕ)
    → 0 < bs
    → size / bs + 1 < u32
    → (count_of bs size < u32) × (size ≤ count_of bs size * bs)
unfolding count_of
count_of-whole bs size h few =
    let d = div-mod size bs h in
    elim (cases (size % bs) 0) [
      | inl e ↦
          let w : size / bs % u32 ≡ size / bs = omega (arith, few) in
          rw ((==_iff (size % bs) 0).1 e, w) (omega (arith, few), omega (arith, d.0, e))
      | inr e ↦
          let w : (size / bs + 1) % u32 ≡ size / bs + 1 = omega (arith, few) in
          rw (==_ne (size % bs) 0 e, w) (omega (arith, few), grind (arith, d.0, d.1))
    ]

-- A file that the servers report with a size of 1 to 2^64 - 1 bytes and fewer than 2^32 - 1 whole
-- blocks of the configured size opens: the blocks are not larger than configured, neither empty nor
-- too few for the file, and the positions of its descriptors stay.
pub open_input-IsOpen :
    (mem size : ℕ) (f : File)
    → 0 < mem
    → mem < u32
    → 0 < size
    → size < u64
    → size / mem + 1 < u32
    → (g : File) × (open_input mem size f ≡ some g)
      × IsOpen g
      × (g.blk_size ≤ mem)
      × (g.file_size ≡ size)
      × ((i : ℕ) → g.file_pos i ≡ f.file_pos i)
unfolding open_input opened geometry count_of size_of
open_input-IsOpen mem size f hm small hs sized few =
    let b = size_of-bounds mem size hm hs in
    let c = count_of-whole (size_of mem size) size b.0 (small_div mem size hm hs few) in
    (
      opened f size (size_of mem size, count_of (size_of mem size) size),
      rw
          (
            ==_ne size 0 (omega (arith, hs)),
            ==_ne (size_of mem size) 0 (omega (arith, b.0)),
            geometry,
          )
          refl,
      record {
        is_active = refl;
        some_bytes = b.0;
        small = omega (arith, b.1, small);
        few = c.0;
        sized = sized;
        whole = c.1;
      },
      b.1,
      refl,
      λ i. refl,
    )

-- `LocalFile::open` divides by zero exactly for an empty file, whatever the configured block size
-- other than 0 is.
pub open_local-none : (mem : ℕ) (f : File) → 0 < mem → (open_local mem f ≡ none) ↔ (f.file_size ≡ 0)
unfolding open_local opened geometry
open_local-none mem f hm = elim (cases f.file_size 0) [
  | inl e ↦ rw (e, lt→ltb 0 mem hm) (λ _. refl, λ _. refl)
  | inr ne ↦
      rw
        (
          ==_ne (if ltb f.file_size mem then f.file_size else mem) 0
              (size_of-ne mem f.file_size hm ne),
          geometry,
        )
        (λ h. absurd (none-ne-some _ (sym h)), λ h. absurd (ne h))
]

-- `seek` to any of the three origins clears the mark for the end of the file, returns the position
-- that it stores, leaves the positions of other descriptors and the file alone, and `SEEK_CUR`
-- never leaves a position behind the end of the file.
seek-position :
    (f : File) (offset : ℕ) (whence : Whence) (index : ℕ)
    → (let r : File × ℕ = seek f offset whence index in
        (r.0.file_pos index ≡ r.1)
        × (r.0.eof index ≡ false)
        × ((other : ℕ)
            → index ≢ other
            → (r.0.file_pos other ≡ f.file_pos other) × (r.0.eof other ≡ f.eof other))
        × (r.0.file_size ≡ f.file_size)
        × ((seek f offset seek_cur index).1 ≤ f.file_size))
unfolding seek set_file_pos set_eof
seek-position f offset whence index = (
  update_self f.file_pos index _,
  update_self f.eof index false,
  λ other ne. (update-ne f.file_pos index _ other ne, update-ne f.eof index false other ne),
  refl,
  not_above ((f.file_pos index + offset) % u64) f.file_size,
)
