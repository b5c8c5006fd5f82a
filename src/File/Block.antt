-- ===== src/File/Block.antt =====
-- What `copyBlock` leaves in the caller's buffer.
use tazer.Base.{
  ℕ, ◌+◌, ◌-◌, ◌*◌, ◌≤◌, ◌<◌, ◌≡◌, memcpy, memcpy-in, memcpy-out, arith, ap, ◌∙◌, subst, inl, inr,
}
use tazer.File.Types.{File}
use tazer.File.Read.{Bytes, Piece, piece, copy_block}
use tazer.File.Copy.{IsRange, IsPiece, piece-IsPiece}

module _ {bs pos count blk : ℕ} {p : Piece} (h : IsPiece bs pos count blk p) (buf src : Bytes) where
  piece-in :
      (i : ℕ)
      → i < count
      → blk * bs ≤ pos + i
      → pos + i < blk * bs + bs
      → memcpy buf p.local_start src p.start_fp p.local_size i ≡ src (pos + i - blk * bs)
  piece-in i lt low high =
      let a : p.local_start ≤ i = elim h.head [
        | inl e ↦ omega (arith, e)
        | inr e ↦ omega (arith, e, h.place)
      ] in
      let b : i - p.local_start < p.local_size = elim h.all [
        | inl e ↦ omega (arith, e)
        | inr e ↦ omega (arith, e, h.place)
      ] in
      let e : p.local_start + (i - p.local_start) ≡ i = omega (arith, a) in
      let e' : p.start_fp + (i - p.local_start) ≡ pos + i - blk * bs = omega (arith, a, h.place) in
      subst (λ k. memcpy buf p.local_start src p.start_fp p.local_size k ≡ src (pos + i - blk * bs))
        e
        (memcpy-in buf p.local_start src p.start_fp p.local_size (i - p.local_start) b ∙ ap src e')

  piece-out :
      (i : ℕ)
      → ¬ ((i < count) × (blk * bs ≤ pos + i) × (pos + i < blk * bs + bs))
      → memcpy buf p.local_start src p.start_fp p.local_size i ≡ buf i
  piece-out i apart = memcpy-out buf p.local_start src p.start_fp p.local_size i (λ r. apart (
    omega (arith, h.fits, r.0, r.1),
    omega (arith, h.place, r.0),
    omega (arith, h.place, h.in_block, r.0, r.1),
  ))

-- `copyBlock` copies exactly the bytes that the read and the block share: for every block of a
-- read that stays within 32-bit counts and block numbers, byte `i` of the caller's buffer becomes
-- the block's byte for position `pos + i` if `i` is asked for and the position is in the block,
-- and keeps its value if not.
pub copy_block-shared :
    (f : File) (index count start last blk : ℕ) (buf src : Bytes)
    → IsRange f.blk_size (f.file_pos index) count start last
    → start ≤ blk
    → blk ≤ last
    → (i : ℕ)
    → (let pos : ℕ = f.file_pos index in
        let low : ℕ = blk * f.blk_size in
        let copied : Bytes = copy_block f index count start (last + 1) buf src blk in
        ((i < count)
          → (low ≤ pos + i)
          → (pos + i < low + f.blk_size)
          → copied i ≡ src (pos + i - low))
        × (¬ ((i < count) × (low ≤ pos + i) × (pos + i < low + f.blk_size)) → copied i ≡ buf i))
unfolding copy_block
copy_block-shared f index count start last blk buf src h le le' i =
    let p : IsPiece f.blk_size (f.file_pos index) count blk
        (piece f.blk_size (f.file_pos index) count blk start (last + 1)) =
      piece-IsPiece _ _ _ _ _ _ h le le' in
    (piece-in p buf src i, piece-out p buf src i)
