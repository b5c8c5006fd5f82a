-- ===== src/File/Local.antt =====
-- `LocalFile::read` of src/client/LocalFile.cpp, which awaits each block before it asks for the next.
use tazer.Base.{
  ℕ, zero, suc, ◌+◌, ◌-◌, ◌/◌, ◌%◌, ◌≤◌, ◌<◌, ◌≡◌, Bool, true, false, not, ◌&&◌, if◌then◌else◌,
  ◌==◌, ==_ne, ltb, leb, Bool-cases, arith, ◌∙◌, subst, inl, inr, refl, update_self,
}
use tazer.File.Types.{File, u32, u64, set_file_pos, set_eof}
use tazer.File.Read.{Bytes, Requests, Result, copy_block, clamp, end_block}
use tazer.File.Copy.{IsRange, cases}
use tazer.File.Range.{IsOpen, last_block, clamp-IsRange, start-small, end_block-last, clamp-bounds}
use tazer.File.Serve.{IsBlock, Serves}
use tazer.File.Whole.{Good, Beyond, copied, copied-Good, copied-keeps, copied-Beyond}
use tazer.File.Content.{byte_block, early, blocks-pos, first-last}

module _ {S : Type 0} (ops : Requests S) (f : File) (index count start end : ℕ) where
  -- One round: whether the block became ready, and the caches and the buffer after it.
  unfoldable pub local_one : ℕ → S × Bytes → Bool × S × Bytes
  local_one blk l =
      let r = ops.request_block l.0 blk in
      let w = ops.await r.0 blk in
      if r.1.ready
      then (true, ops.buffer_write r.0 blk, copy_block f index count start end l.1 r.1.bytes blk)
      else if w.1.ready
      then (true, ops.buffer_write w.0 blk, copy_block f index count start end l.1 w.1.bytes blk)
      else (false, w.0, l.1)

  -- `n` rounds from a block on; the first block that is not ready ends the read.
  unfoldable pub local_all : ℕ → ℕ → S × Bytes → Bool × S × Bytes
  unfolding local_one
  local_all zero blk l = (true, l.0, l.1)
  local_all (suc n) blk l =
      let r = local_one blk l in
      let rest = local_all n (suc blk) (r.1, r.2) in if r.0 then rest else r

-- `LocalFile::read`.
unfoldable pub local_read : {S : Type 0} → Requests S → File → ℕ → ℕ → S → Bytes → Result S
unfolding local_all clamp end_block
local_read ops f index size s buf =
    let pos = f.file_pos index in
    let count = clamp f pos size in
    let start = pos / f.blk_size % u32 in
    let end = end_block f pos count in
    let r = local_all ops f index count start end (end - start) start (s, buf) in
    if f.active && not (f.num_blks == 0)
    then if leb f.file_size pos
      then record { self = set_eof f index true; caches = s; buf = buf; amount = 0 }
      else if r.0
      then record {
        self = set_file_pos f index ((pos + count) % u64);
        caches = r.1;
        buf = r.2;
        amount = count;
      }
      else record { self = f; caches = r.1; buf = r.2; amount = 0 }
    else record { self = f; caches = s; buf = buf; amount = 0 }

module _ {S : Type 0} (ops : Requests S) (f : File) (content : Bytes) (Inv : S → Type 0)
    (sv : Serves ops f content Inv) (index count start last : ℕ)
    (range : IsRange f.blk_size (f.file_pos index) count start last)
    (ends : f.file_pos index + count ≤ f.file_size) (buf : Bytes) where
  -- All blocks before `blk` have arrived, and the loop goes on.
  record Arrived (blk : ℕ) (r : Bool × S × Bytes) : Type 0 where
    going : r.0 ≡ true
    keeps : Inv r.1
    beyond : Beyond ops f content Inv sv index count start last range ends buf r.2
    covers :
        (k : ℕ)
        → start ≤ k
        → k < blk
        → Good ops f content Inv sv index count start last range ends buf r.2 k

  after_block :
      (blk : ℕ) (b src : Bytes) (s : S)
      → start ≤ blk
      → blk ≤ last
      → Arrived blk (true, s, b)
      → (s' : S) → Inv s'
      → IsBlock f content blk src
      → Arrived (suc blk) (true, s', copy_block f index count start (last + 1) b src blk)
  unfolding copied
  after_block blk b src s le le' a s' i is = record {
    going = refl;
    keeps = i;
    beyond =
        copied-Beyond ops f content Inv sv index count start last range ends buf b src blk le le'
          a.beyond;
    covers = λ k low high. elim (cases blk k) [
      | inl e ↦
          subst
            (Good ops f content Inv sv index count start last range ends buf
              (copied ops f content Inv sv index count start last range ends buf b src blk))
            e
            (copied-Good ops f content Inv sv index count start last range ends buf b src blk le le'
              is)
      | inr ne ↦
          copied-keeps ops f content Inv sv index count start last range ends buf b src blk k le le'
            is (a.covers k low (omega arith))
    ];
  }

  local_one-Arrived :
      (blk : ℕ) (s : S) (b : Bytes)
      → start ≤ blk
      → blk ≤ last
      → Arrived blk (true, s, b)
      → Arrived (suc blk) (local_one ops f index count start (last + 1) blk (s, b))
  unfolding local_one
  local_one-Arrived blk s b le le' a = elim (Bool-cases (ops.request_block s blk).1.ready) [
    | inl e ↦
        rw (e, local_one)
          (after_block blk b _ s le le' a _ (sv.write_keeps _ blk (sv.request_keeps s blk a.keeps))
            (sv.request_serves s blk a.keeps e))
    | inr e ↦
        let i = sv.request_keeps s blk a.keeps in
        rw (e, sv.await_ready _ blk i, local_one)
          (after_block blk b _ s le le' a _ (sv.write_keeps _ blk (sv.await_keeps _ blk i))
            (sv.await_serves _ blk i))
  ]

  local_all-Arrived :
      (n blk : ℕ) (s : S) (b : Bytes)
      → start ≤ blk
      → blk + n ≡ last + 1
      → Arrived blk (true, s, b)
      → Arrived (last + 1) (local_all ops f index count start (last + 1) n blk (s, b))
  unfolding local_all
  local_all-Arrived zero blk s b le e a =
      subst (λ k. Arrived k (true, s, b)) (let e' : blk ≡ last + 1 = omega (arith, e) in e') a
  local_all-Arrived (suc n) blk s b le e a =
      let o = local_one-Arrived blk s b le (omega (arith, e)) a in
      rw (o.going, local_all)
        (local_all-Arrived n (suc blk) _ _ (omega arith) (omega (arith, e))
          (record { going = refl; keeps = o.keeps; beyond = o.beyond; covers = o.covers }))

-- `LocalFile::read` returns the file's bytes too: on an open file that the caches serve, with the
-- position before the end and a request of 1 to 2^32 - 1 bytes, it does not give up, the amount is
-- the request cut at the end of the file, the buffer below it holds the file's bytes from the
-- position on and is untouched behind it, and the position moves by the amount.
pub local_read-content :
    {S : Type 0} (ops : Requests S) (f : File) (content : Bytes) (Inv : S → Type 0) (index size : ℕ)
    (s : S) (buf : Bytes)
    → Serves ops f content Inv
    → Inv s
    → IsOpen f
    → f.file_pos index < f.file_size
    → 0 < size
    → size < u32
    → (let r : Result S = local_read ops f index size s buf in
        let pos : ℕ = f.file_pos index in
        (r.amount ≡ (if ltb (f.file_size - pos) size then f.file_size - pos else size))
        × ((i : ℕ) → i < r.amount → r.buf i ≡ content (pos + i))
        × ((i : ℕ) → r.amount ≤ i → r.buf i ≡ buf i)
        × (r.self.file_pos index ≡ pos + r.amount)
        × Inv r.caches)
unfolding local_read clamp set_file_pos local_all
local_read-content {S} ops f content Inv index size s buf sv inv h before asked fits =
    let pos : ℕ = f.file_pos index in
    let n : ℕ = clamp f pos size in
    let start : ℕ = pos / f.blk_size in
    let last : ℕ = last_block f pos size h before asked fits in
    let bounds = clamp-bounds f pos size h before asked fits in
    let range : IsRange f.blk_size pos n start last =
      clamp-IsRange f pos size h before asked fits in
    let loop = local_all ops f index n start (last + 1) (last + 1 - start) start (s, buf) in
    let le : start ≤ last = first-last _ _ _ _ _ bounds.0 range in
    let a =
      local_all-Arrived ops f content Inv sv index n start last range bounds.2 buf
        (last + 1 - start) start s buf (omega arith) (omega arith)
        (record {
          going = refl;
          keeps = inv;
          beyond = λ i lt. refl;
          covers = λ k lo hi. absurd (omega arith);
        }) in
    let e : local_read ops f index size s buf ≡ record {
      self = set_file_pos f index ((pos + n) % u64);
      caches = loop.1;
      buf = loop.2;
      amount = n;
    } =
      rw
        (
          ==_ne f.num_blks 0 (blocks-pos f h (omega (arith, before))),
          early f.file_size pos before,
          start-small f pos size h before asked fits,
          end_block-last f pos size h before asked fits,
          a.going,
          h.is_active,
          local_read,
        )
        refl in
    rw e (
      refl,
      λ i lt.
          (let k = byte_block pos f.blk_size n start last i range lt in
            a.covers ((pos + i) / f.blk_size) k.0 (omega (arith, k.1)) i lt k.2 k.3),
      a.beyond,
      update_self f.file_pos index _ ∙ omega (arith, bounds.2, h.sized),
      a.keeps,
    )
