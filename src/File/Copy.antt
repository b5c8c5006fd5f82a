-- ===== src/File/Copy.antt =====
-- `copyBlock`: one block's part of a read.
use native.Mathlib.Nat.{lt_of_mul-lt-mul_right}
use tazer.Base.{
  ℕ, suc, ◌+◌, ◌-◌, ◌*◌, ◌/◌, ◌%◌, ◌≤◌, ◌<◌, ◌≡◌, ◌≢◌, true, false, ◌==◌, ==_ne, arith, refl, ap,
  sym, ◌∙◌, subst, inl, inr, ◌⊎◌, Bool-cases, ==_iff,
}
use tazer.File.Types.{u32, u64}
use tazer.File.Read.{Piece, piece}

-- The bytes [pos, pos + count) and the blocks [start, last] that they touch, where nothing wraps.
pub record IsRange (bs pos count start last : ℕ) : Type 0 where
  pub some_bytes : 0 < bs
  pub small : bs < u32
  pub asked : count < u32
  pub inside : pos + count < u64
  pub blocks : last + 1 < u32
  pub from : start * bs ≤ pos
  pub from_end : pos < start * bs + bs
  pub to : last * bs < pos + count
  pub to_end : pos + count ≤ last * bs + bs

pub div-mod : (a b : ℕ) → 0 < b → (a ≡ a / b * b + a % b) × (a % b < b)
div-mod a b h = (grind arith, omega arith)

-- Two multiples of `b` within less than `b` of each other are one.
pub same_multiple : (q e b : ℕ) → q * b < e * b + b → e * b < q * b + b → q ≡ e
same_multiple q e b h1 h2 =
    let l1 : q < suc e = lt_of_mul-lt-mul_right b (let h : q * b < suc e * b = grind arith in h) in
    let l2 : e < suc q = lt_of_mul-lt-mul_right b (let h : e * b < suc q * b = grind arith in h) in
    omega arith

within :
    (bs pos start : ℕ)
    → 0 < bs
    → start * bs ≤ pos
    → pos < start * bs + bs
    → pos ≡ start * bs + pos % bs
within bs pos start h from to =
    let d : (pos ≡ pos / bs * bs + pos % bs) × (pos % bs < bs) = div-mod pos bs h in
    let e : pos / bs ≡ start =
      same_multiple (pos / bs) start bs (omega (arith, d.0, d.1)) (omega (arith, d.0, d.1)) in
    subst (λ q. pos ≡ q * bs + pos % bs) e d.0

pub tail_bytes :
    (bs t last : ℕ)
    → 0 < bs
    → last * bs < t
    → t ≤ last * bs + bs
    → ((t % bs ≡ 0) × (t ≡ last * bs + bs)) ⊎ ((t % bs ≢ 0) × (t ≡ last * bs + t % bs))
tail_bytes bs t last h from to =
    let d : (t ≡ t / bs * bs + t % bs) × (t % bs < bs) = div-mod t bs h in
    elim (Bool-cases (t % bs == 0)) [
      | inl e ↦
          let z : t % bs ≡ 0 = (==_iff (t % bs) 0).0 e in
          let q : t / bs ≡ suc last =
            same_multiple (t / bs) (suc last) bs (grind (arith, d.0, d.1))
              (grind (arith, d.0, d.1)) in
          inl (z, d.0 ∙ rw (q, z) (grind arith))
      | inr e ↦
          let z : t % bs ≢ 0 = λ z. absurd (cc (sym ((==_iff (t % bs) 0).1 z) ∙ e)) in
          let q : t / bs ≡ last =
            same_multiple (t / bs) last bs (omega (arith, d.0, d.1, z))
              (omega (arith, d.0, d.1, z)) in
          inr (z, subst (λ k. t ≡ k * bs + t % bs) q d.0)
    ]

pub cases : (a b : ℕ) → (a ≡ b) ⊎ (a ≢ b)
cases a b = elim (Bool-cases (a == b)) [
  | inl e ↦ inl ((==_iff a b).0 e)
  | inr e ↦ inr (λ h. absurd (cc (sym ((==_iff a b).1 h) ∙ e)))
]

-- A piece takes from a block the bytes that the read and the block share.
pub record IsPiece (bs pos count blk : ℕ) (p : Piece) : Type 0 where
  pub place : blk * bs + p.start_fp ≡ pos + p.local_start
  pub fits : p.local_start + p.local_size ≤ count
  pub in_block : p.start_fp + p.local_size ≤ bs
  pub head : (p.local_start ≡ 0) ⊎ (p.start_fp ≡ 0)
  pub all : (p.local_start + p.local_size ≡ count) ⊎ (p.start_fp + p.local_size ≡ bs)

-- The distance of a later block from the position.
later : (bs start blk : ℕ) → start < blk → (blk - start - 1) * bs + (start * bs + bs) ≡ blk * bs
later bs start blk h =
    let e : blk ≡ (blk - start - 1) + (start + 1) = omega arith in
    subst (λ k. (blk - start - 1) * bs + (start * bs + bs) ≡ k * bs) (sym e) (grind arith)

upto : (bs a b : ℕ) → a < b → a * bs + bs ≤ b * bs
upto bs a b h = grind arith

module _ (bs pos count start last blk : ℕ) (h : IsRange bs pos count start last) (le : start ≤ blk)
    (le' : blk ≤ last) where
  off : pos ≡ start * bs + pos % bs
  off = within bs pos start h.some_bytes h.from h.from_end

  off_small : pos % bs < bs
  off_small = omega (arith, h.some_bytes)

  blk-start : blk * bs ≤ last * bs
  blk-start = grind arith

  start_at : start < blk → ℕ
  start_at lt = (blk - start - 1) * bs + (bs - pos % bs)

  start_at-small : (lt : start < blk) → (pos + start_at lt ≡ blk * bs) × (start_at lt < count)
  unfolding start_at
  start_at-small lt =
      let e : (blk - start - 1) * bs + (start * bs + bs) ≡ blk * bs = later bs start blk lt in
      (omega (arith, e, off, off_small), omega (arith, e, off, off_small, h.to, blk-start))

  wrapped :
      (lt : start < blk)
      → ((blk + u32 - start - 1) % u32 * bs % u64 + (bs - pos % bs) % u32) % u32 ≡ start_at lt
  unfolding start_at
  wrapped lt =
      let e : (blk + u32 - start - 1) % u32 ≡ blk - start - 1 = omega (arith, h.blocks) in
      let s : (pos + start_at lt ≡ blk * bs) × (start_at lt < count) = start_at-small lt in
      rw e (
        let t : ((blk - start - 1) * bs % u64 + (bs - pos % bs) % u32) % u32
            ≡ (blk - start - 1) * bs + (bs - pos % bs) =
          omega (arith, s.1, h.asked, h.small) in
        t)

  not_start : start < blk → (blk == start) ≡ false
  not_start lt = ==_ne blk start (omega arith)

  is_last : blk ≡ last → ((blk + 1) % u32 == last + 1) ≡ true
  is_last e = (==_iff ((blk + 1) % u32) (last + 1)).1 (omega (arith, h.blocks))

  not_last : blk < last → ((blk + 1) % u32 == last + 1) ≡ false
  not_last lt = ==_ne ((blk + 1) % u32) (last + 1) (omega (arith, h.blocks))

  only-IsPiece :
      blk ≡ start → blk ≡ last → IsPiece bs pos count blk (piece bs pos count blk start (last + 1))
  unfolding piece
  only-IsPiece es el =
      rw ((==_iff blk start).1 es, is_last el, piece)
        (record {
          place = rw es (omega (arith, off, off_small, h.small));
          fits = omega arith;
          in_block =
              (let r : last * bs ≡ start * bs = ap (λ k. k * bs) (sym el ∙ es) in
                omega (arith, r, off, off_small, h.small, h.asked, h.to_end));
          head = inl refl;
          all = inl (omega (arith, h.asked));
        })

  first-IsPiece :
      blk ≡ start → blk < last → IsPiece bs pos count blk (piece bs pos count blk start (last + 1))
  unfolding piece
  first-IsPiece es lt =
      let r : start * bs + bs ≤ last * bs = upto bs start last (omega arith) in
      rw ((==_iff blk start).1 es, not_last lt, piece)
        (record {
          place = rw es (omega (arith, off, off_small, h.small));
          fits = omega (arith, r, off, off_small, h.small, h.to);
          in_block = omega (arith, off_small, h.small);
          head = inl refl;
          all = inr (omega (arith, off_small, h.small));
        })

  middle-IsPiece :
      start < blk → blk < last → IsPiece bs pos count blk (piece bs pos count blk start (last + 1))
  unfolding piece
  middle-IsPiece ls ll =
      let s : (pos + start_at ls ≡ blk * bs) × (start_at ls < count) = start_at-small ls in
      let r : blk * bs + bs ≤ last * bs = upto bs blk last ll in
      rw (not_start ls, not_last ll, wrapped ls, piece)
        (record {
          place = omega (arith, s.0);
          fits = omega (arith, s.0, r, h.small, h.to);
          in_block = omega (arith, h.small);
          head = inr refl;
          all = inr (omega (arith, h.small));
        })

  last-IsPiece :
      start < blk → blk ≡ last → IsPiece bs pos count blk (piece bs pos count blk start (last + 1))
  unfolding piece
  last-IsPiece ls el =
      let s : (pos + start_at ls ≡ blk * bs) × (start_at ls < count) = start_at-small ls in
      let r : last * bs ≡ blk * bs = ap (λ k. k * bs) (sym el) in
      let w : (pos + count) % u64 ≡ pos + count = omega (arith, h.inside) in
      let small : (pos + count) % bs < bs = omega (arith, h.some_bytes) in
      let n : ((pos + count) % bs) % u32 ≡ (pos + count) % bs = omega (arith, small, h.small) in
      elim (tail_bytes bs (pos + count) last h.some_bytes h.to h.to_end) [
        | inl z ↦
            rw
              (
                not_start ls,
                is_last el,
                wrapped ls,
                w,
                n,
                (==_iff ((pos + count) % bs) 0).1 z.0,
                piece,
              )
              (record {
                place = omega (arith, s.0);
                fits = omega (arith, s.0, r, h.small, z.1);
                in_block = omega (arith, h.small);
                head = inr refl;
                all = inr (omega (arith, h.small));
              })
        | inr z ↦
            rw (not_start ls, is_last el, wrapped ls, w, n, ==_ne ((pos + count) % bs) 0 z.0, piece)
              (record {
                place = omega (arith, s.0);
                fits = omega (arith, s.0, r, z.1);
                in_block = omega (arith, small);
                head = inr refl;
                all = inl (omega (arith, s.0, r, z.1));
              })
      ]

  pub piece-IsPiece : IsPiece bs pos count blk (piece bs pos count blk start (last + 1))
  piece-IsPiece = elim (cases blk start) [
    | inl es ↦ elim (cases last blk) [
      | inl el ↦ only-IsPiece es (sym el)
      | inr nl ↦ first-IsPiece es (omega arith)
    ]
    | inr ns ↦ elim (cases last blk) [
      | inl el ↦ last-IsPiece (omega arith) (sym el)
      | inr nl ↦ middle-IsPiece (omega arith) (omega arith)
    ]
  ]
