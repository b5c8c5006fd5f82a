-- ===== src/File/Content.antt =====
-- `InputFile::read` as a whole.
use native.Mathlib.Nat.{lt_of_mul-lt-mul_right}
use mathlib.Core.List.Permᴰ
use tazer.Base.{
  ℕ, suc, ◌+◌, ◌-◌, ◌*◌, ◌/◌, ◌%◌, ◌≤◌, ◌<◌, ◌≡◌, false, if◌then◌else◌, ==_ne, ltb, leb, arith, ◌∙◌,
  inl, inr, refl, [], ◌≢◌, update_self,
}
use tazer.File.Types.{File, u32, u64, set_file_pos}
use tazer.File.Read.{Bytes, Requests, Reading, Result, read, request_all, finish_all, clamp}
use tazer.File.Copy.{IsRange, div-mod}
use tazer.File.Range.{IsOpen, last_block, clamp-IsRange, start-small, end_block-last, clamp-bounds}
use tazer.File.Serve.{Serves, perm-mem}
use tazer.File.Whole.{Good, Beyond, Progress, request_all-Progress, finish_all-Finished}

module _ {S : Type 0} (ops : Requests S) (f : File) (content : Bytes) (Inv : S → Type 0)
    (sv : Serves ops f content Inv) (index count start last : ℕ)
    (range : IsRange f.blk_size (f.file_pos index) count start last)
    (ends : f.file_pos index + count ≤ f.file_size) (buf : Bytes) where
  -- The two loops and the prefetch between them, as `read` composes them.
  loops : S → S × Bytes
  unfolding request_all finish_all
  loops s =
      let l =
        request_all ops f index count start (last + 1) (last + 1 - start) start
          (record { caches = s; buf = buf; net_reads = []; local_reads = [] }) in
      let n =
        finish_all ops f index count start (last + 1) (ops.walk l.net_reads)
          (ops.prefetch l.caches start (last + 1), l.buf) in
      finish_all ops f index count start (last + 1) (ops.walk l.local_reads) n

  loops-Good :
      (s : S)
      → Inv s
      → start ≤ last
      → Inv (loops s).0
        × Beyond ops f content Inv sv index count start last range ends buf (loops s).1
        × ((k : ℕ)
            → start ≤ k
            → k ≤ last
            → Good ops f content Inv sv index count start last range ends buf (loops s).1 k)
  unfolding loops request_all finish_all
  loops-Good s i le =
      let l0 : Reading S = record { caches = s; buf = buf; net_reads = []; local_reads = [] } in
      let p0 : Progress ops f content Inv sv index count start last range ends buf l0 start =
        record {
          keeps = i;
          beyond = λ i le. refl;
          covers = λ b a lt. absurd (omega arith);
          net_in = λ b m. elim m [ ];
          local_in = λ b m. elim m [ ];
        } in
      let l : Reading S =
        request_all ops f index count start (last + 1) (last + 1 - start) start l0 in
      let p =
        request_all-Progress ops f content Inv sv index count start last range ends buf
          (last + 1 - start) start l0 (omega arith) (omega arith) p0 in
      let n =
        finish_all-Finished ops f content Inv sv index count start last range ends buf
          (ops.walk l.net_reads) _ l.buf (sv.prefetch_keeps _ start (last + 1) p.keeps) p.beyond
          (λ k m. p.net_in k (perm-mem (Permᴰ.symm (sv.walks l.net_reads)) m)) in
      let q =
        finish_all ops f index count start (last + 1) (ops.walk l.net_reads)
          (ops.prefetch l.caches start (last + 1), l.buf) in
      let r =
        finish_all-Finished ops f content Inv sv index count start last range ends buf
          (ops.walk l.local_reads) q.0 q.1 n.keeps n.beyond
          (λ k m. p.local_in k (perm-mem (Permᴰ.symm (sv.walks l.local_reads)) m)) in
      (
        r.keeps,
        r.beyond,
        λ k a b. elim (p.covers k a (omega arith)) [
          | inl g ↦ r.old k (n.old k g)
          | inr (inl m) ↦ r.old k (n.new k (perm-mem (sv.walks l.net_reads) m))
          | inr (inr m) ↦ r.new k (perm-mem (sv.walks l.local_reads) m)
        ],
      )

-- The block of a byte of the read is among those asked for.
pub byte_block :
    (pos bs n start last i : ℕ)
    → IsRange bs pos n start last
    → i < n
    → (start ≤ (pos + i) / bs)
      × ((pos + i) / bs ≤ last)
      × ((pos + i) / bs * bs ≤ pos + i)
      × (pos + i < (pos + i) / bs * bs + bs)
byte_block pos bs n start last i r lt =
    let d = div-mod (pos + i) bs r.some_bytes in
    let a : start < suc ((pos + i) / bs) =
      lt_of_mul-lt-mul_right bs
        (let e : start * bs < suc ((pos + i) / bs) * bs = grind (arith, d.0, d.1, r.from) in e) in
    let b : (pos + i) / bs < suc last =
      lt_of_mul-lt-mul_right bs (
        let e : (pos + i) / bs * bs < suc last * bs = grind (arith, d.0, d.1, r.to_end, lt) in e) in
    (omega (arith, a), omega (arith, b), omega (arith, d.0), omega (arith, d.0, d.1))

pub early : (a b : ℕ) → b < a → leb a b ≡ false
early a b h = ground arith

pub blocks-pos : (f : File) → IsOpen f → 0 < f.file_size → f.num_blks ≢ 0
blocks-pos f h lt e =
    absurd
      (let z : f.num_blks * f.blk_size ≡ 0 = rw e (omega arith) in omega (arith, z, h.whole, lt))

pub first-last : (bs pos n start last : ℕ) → 0 < n → IsRange bs pos n start last → start ≤ last
first-last bs pos n start last some r =
    let l : start < suc last =
      lt_of_mul-lt-mul_right bs
        (let e : start * bs < suc last * bs = grind (arith, r.from, r.to_end, some) in e) in
    omega (arith, l)

-- `read` returns the file's bytes: on an open file that the caches serve, with the position before
-- the end and a request of 1 to 2^32 - 1 bytes, the amount is the request cut at the end of the
-- file, byte `i` of the buffer below it is the file's byte at the position plus `i`, the buffer
-- behind it is untouched, and the position moves by the amount. It does not matter which blocks are
-- ready at once, which come over the network, and in which order the maps of pending reads are walked.
pub read-content :
    {S : Type 0} (ops : Requests S) (f : File) (content : Bytes) (Inv : S → Type 0) (index size : ℕ)
    (s : S) (buf : Bytes)
    → Serves ops f content Inv
    → Inv s
    → IsOpen f
    → f.file_pos index < f.file_size
    → 0 < size
    → size < u32
    → (let r : Result S = read ops f index size s buf in
        let pos : ℕ = f.file_pos index in
        (r.amount ≡ (if ltb (f.file_size - pos) size then f.file_size - pos else size))
        × ((i : ℕ) → i < r.amount → r.buf i ≡ content (pos + i))
        × ((i : ℕ) → r.amount ≤ i → r.buf i ≡ buf i)
        × (r.self.file_pos index ≡ pos + r.amount)
        × Inv r.caches)
unfolding read clamp set_file_pos loops
read-content {S} ops f content Inv index size s buf sv inv h before asked fits =
    let pos : ℕ = f.file_pos index in
    let n : ℕ = clamp f pos size in
    let start : ℕ = pos / f.blk_size in
    let last : ℕ = last_block f pos size h before asked fits in
    let bounds = clamp-bounds f pos size h before asked fits in
    let range : IsRange f.blk_size pos n start last =
      clamp-IsRange f pos size h before asked fits in
    let loop = loops ops f content Inv sv index n start last range bounds.2 buf s in
    let e : read ops f index size s buf ≡ record {
      self = set_file_pos f index ((pos + n) % u64);
      caches = loop.0;
      buf = loop.1;
      amount = n;
    } =
      rw
        (
          h.is_active,
          ==_ne f.num_blks 0 (blocks-pos f h (omega (arith, before))),
          early f.file_size pos before,
          start-small f pos size h before asked fits,
          end_block-last f pos size h before asked fits,
          read,
        )
        refl in
    let g =
      loops-Good ops f content Inv sv index n start last range bounds.2 buf s inv
        (first-last _ _ _ _ _ bounds.0 range) in
    rw e (
      refl,
      λ i lt.
          (let k = byte_block pos f.blk_size n start last i range lt in
            g.2 ((pos + i) / f.blk_size) k.0 k.1 i lt k.2 k.3),
      g.1,
      update_self f.file_pos index _ ∙ omega (arith, bounds.2, h.sized),
      g.0,
    )
