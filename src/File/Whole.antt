-- ===== src/File/Whole.antt =====
-- The loops of `InputFile::read`: what has arrived after the requests and after the pending reads.
use mathlib.Core.List.{Memᴰ}
use tazer.Base.{
  ℕ, zero, suc, ◌+◌, ◌-◌, ◌*◌, ◌≤◌, ◌<◌, ◌≡◌, Bool-cases, arith, ap, ◌∙◌, sym, subst, inl, inr, ◌⊎◌,
  refl, List, [], ◌∷◌,
}
use tazer.File.Types.{File}
use tazer.File.Read.{
  Bytes, Requests, Reading, copy_block, request_one, request_all, finish_one, finish_all,
}
use tazer.File.Copy.{IsRange, cases}
use tazer.File.Block.{copy_block-shared}
use tazer.File.Serve.{IsBlock, Serves, inside}

module _ {S : Type 0} (ops : Requests S) (f : File) (content : Bytes) (Inv : S → Type 0)
    (sv : Serves ops f content Inv) (index count start last : ℕ)
    (range : IsRange f.blk_size (f.file_pos index) count start last)
    (ends : f.file_pos index + count ≤ f.file_size) (buf : Bytes) where
  -- The asked bytes of one block have arrived.
  abbrev pub Good : Bytes → ℕ → Type 0
  Good b blk =
      (i : ℕ)
      → i < count
      → blk * f.blk_size ≤ f.file_pos index + i
      → f.file_pos index + i < blk * f.blk_size + f.blk_size
      → b i ≡ content (f.file_pos index + i)

  abbrev pub Beyond : Bytes → Type 0
  Beyond b = (i : ℕ) → count ≤ i → b i ≡ buf i

  unfoldable pub copied : Bytes → Bytes → ℕ → Bytes
  copied b src blk = copy_block f index count start (last + 1) b src blk

  pub copied-Good :
      (b src : Bytes) (blk : ℕ)
      → start ≤ blk
      → blk ≤ last
      → IsBlock f content blk src
      → Good (copied b src blk) blk
  unfolding copied
  copied-Good b src blk le le' is i lt low high =
      (copy_block-shared f index count start last blk b src range le le' i).0 lt low high
      ∙ is (f.file_pos index + i - blk * f.blk_size) (omega (arith, low, high))
          (omega (arith, low, ends, lt))
      ∙ ap content (
          let e : blk * f.blk_size + (f.file_pos index + i - blk * f.blk_size)
              ≡ f.file_pos index + i =
            omega (arith, low) in
          e)

  pub copied-keeps :
      (b src : Bytes) (blk other : ℕ)
      → start ≤ blk
      → blk ≤ last
      → IsBlock f content blk src
      → Good b other
      → Good (copied b src blk) other
  unfolding copied
  copied-keeps b src blk other le le' is g i lt low high =
      elim (inside (blk * f.blk_size) (f.file_pos index + i) (blk * f.blk_size + f.blk_size)) [
        | inl h ↦ copied-Good b src blk le le' is i lt h.0 h.1
        | inr h ↦
            (copy_block-shared f index count start last blk b src range le le' i).1
              (λ k. h (k.1, k.2))
            ∙ g i lt low high
      ]

  pub copied-Beyond :
      (b src : Bytes) (blk : ℕ) → start ≤ blk → blk ≤ last → Beyond b → Beyond (copied b src blk)
  unfolding copied
  copied-Beyond b src blk le le' g i le2 =
      (copy_block-shared f index count start last blk b src range le le' i).1
        (λ k. absurd (omega (arith, k.0, le2)))
      ∙ g i le2

  -- The request loop before block `blk`: what it has asked for has arrived or is pending.
  pub record Progress (l : Reading S) (blk : ℕ) : Type 0 where
    pub keeps : Inv l.caches
    pub beyond : Beyond l.buf
    pub covers :
        (b : ℕ) → start ≤ b → b < blk → Good l.buf b ⊎ (Memᴰ b l.net_reads ⊎ Memᴰ b l.local_reads)
    pub net_in : (b : ℕ) → Memᴰ b l.net_reads → (start ≤ b) × (b ≤ last)
    pub local_in : (b : ℕ) → Memᴰ b l.local_reads → (start ≤ b) × (b ≤ last)

  below-Good :
      (b : Bytes) (net loc : List ℕ) (blk k : ℕ)
      → ((k' : ℕ) → start ≤ k' → k' < blk → Good b k' ⊎ (Memᴰ k' net ⊎ Memᴰ k' loc))
      → Good b blk ⊎ (Memᴰ blk net ⊎ Memᴰ blk loc)
      → start ≤ k
      → k < suc blk
      → Good b k ⊎ (Memᴰ k net ⊎ Memᴰ k loc)
  below-Good b net loc blk k old new le lt = elim (cases blk k) [
    | inl e ↦ subst (λ k. Good b k ⊎ (Memᴰ k net ⊎ Memᴰ k loc)) e new
    | inr ne ↦ old k le (omega arith)
  ]

  still :
      {b b' : Bytes} {k : ℕ} {net loc net' loc' : List ℕ}
      → (Good b k → Good b' k)
      → (Memᴰ k net → Memᴰ k net')
      → (Memᴰ k loc → Memᴰ k loc')
      → Good b k ⊎ (Memᴰ k net ⊎ Memᴰ k loc)
      → Good b' k ⊎ (Memᴰ k net' ⊎ Memᴰ k loc')
  still g n l (inl h) = inl (g h)
  still g n l (inr (inl h)) = inr (inl (n h))
  still g n l (inr (inr h)) = inr (inr (l h))

  cons_in :
      {blk : ℕ} {l : List ℕ}
      → start ≤ blk
      → blk ≤ last
      → ((b : ℕ) → Memᴰ b l → (start ≤ b) × (b ≤ last))
      → (b : ℕ) → Memᴰ b (blk ∷ l)
      → (start ≤ b) × (b ≤ last)
  cons_in le le' h b (Memᴰ.head e) = (omega arith, omega arith)
  cons_in le le' h b (Memᴰ.tail m) = h b m

  request_one-Progress :
      (l : Reading S) (blk : ℕ)
      → start ≤ blk
      → blk ≤ last
      → Progress l blk
      → Progress (request_one ops f index count start (last + 1) blk l) (suc blk)
  unfolding request_one copied
  request_one-Progress l blk le le' p = elim (Bool-cases (ops.request_block l.caches blk).1.ready) [
    | inl e ↦
        let is : IsBlock f content blk (ops.request_block l.caches blk).1.bytes =
          sv.request_serves l.caches blk p.keeps e in
        rw (e, request_one)
          (record {
            keeps = sv.write_keeps _ blk (sv.request_keeps l.caches blk p.keeps);
            beyond = copied-Beyond l.buf _ blk le le' p.beyond;
            covers = λ k a b.
                below-Good _ _ _ blk k
                  (λ k' a' b'.
                    still (copied-keeps l.buf _ blk k' le le' is) (λ m. m) (λ m. m)
                      (p.covers k' a' b'))
                  (inl (copied-Good l.buf _ blk le le' is)) a b;
            net_in = p.net_in;
            local_in = p.local_in;
          })
    | inr e ↦ elim (Bool-cases (ops.request_block l.caches blk).1.network) [
      | inl n ↦
          rw (e, n, request_one)
            (record {
              keeps = sv.request_keeps l.caches blk p.keeps;
              beyond = p.beyond;
              covers = λ k a b.
                  below-Good _ _ _ blk k
                    (λ k' a' b'. still (λ g. g) Memᴰ.tail (λ m. m) (p.covers k' a' b'))
                    (inr (inl (Memᴰ.head refl))) a b;
              net_in = cons_in le le' p.net_in;
              local_in = p.local_in;
            })
      | inr n ↦
          rw (e, n, request_one)
            (record {
              keeps = sv.request_keeps l.caches blk p.keeps;
              beyond = p.beyond;
              covers = λ k a b.
                  below-Good _ _ _ blk k
                    (λ k' a' b'. still (λ g. g) (λ m. m) Memᴰ.tail (p.covers k' a' b'))
                    (inr (inr (Memᴰ.head refl))) a b;
              net_in = p.net_in;
              local_in = cons_in le le' p.local_in;
            })
    ]
  ]

  pub request_all-Progress :
      (n blk : ℕ) (l : Reading S)
      → start ≤ blk
      → blk + n ≡ last + 1
      → Progress l blk
      → Progress (request_all ops f index count start (last + 1) n blk l) (last + 1)
  unfolding request_all
  request_all-Progress zero blk l le e p =
      subst (Progress l) (let e' : blk ≡ last + 1 = omega (arith, e) in e') p
  request_all-Progress (suc n) blk l le e p =
      request_all-Progress n (suc blk) _ (omega arith) (omega (arith, e))
        (request_one-Progress l blk le (omega (arith, e)) p)

  -- After the pending reads of a list: its blocks have arrived too.
  pub record Finished (blks : List ℕ) (b : Bytes) (r : S × Bytes) : Type 0 where
    pub keeps : Inv r.0
    pub beyond : Beyond r.1
    pub old : (k : ℕ) → Good b k → Good r.1 k
    pub new : (k : ℕ) → Memᴰ k blks → Good r.1 k

  pub finish_all-Finished :
      (blks : List ℕ) (s : S) (b : Bytes)
      → Inv s
      → Beyond b
      → ((k : ℕ) → Memᴰ k blks → (start ≤ k) × (k ≤ last))
      → Finished blks b (finish_all ops f index count start (last + 1) blks (s, b))
  unfolding finish_all finish_one copied
  finish_all-Finished [] s b i o h = record {
    keeps = i;
    beyond = o;
    old = λ k g. g;
    new = λ k m. elim m [ ];
  }
  finish_all-Finished (blk ∷ blks) s b i o h =
      let at : (start ≤ blk) × (blk ≤ last) = h blk (Memᴰ.head refl) in
      let is : IsBlock f content blk (ops.await s blk).1.bytes = sv.await_serves s blk i in
      let r : Finished blks (copied b (ops.await s blk).1.bytes blk) (
          finish_all ops f index count start (last + 1) blks
            (ops.buffer_write (ops.await s blk).0 blk, copied b (ops.await s blk).1.bytes blk)) =
        finish_all-Finished blks _ _ (sv.write_keeps _ blk (sv.await_keeps s blk i))
          (copied-Beyond b _ blk at.0 at.1 o) (λ k m. h k (Memᴰ.tail m)) in
      rw (sv.await_ready s blk i, finish_all)
        (record {
          keeps = r.keeps;
          beyond = r.beyond;
          old = λ k g. r.old k (copied-keeps b _ blk k at.0 at.1 is g);
          new = λ k m. new_one k m r (copied-Good b _ blk at.0 at.1 is);
        })
    where
      new_one :
          (k : ℕ) {b : Bytes} {q : S × Bytes}
          → Memᴰ k (blk ∷ blks)
          → Finished blks b q
          → Good b blk
          → Good q.1 k
      new_one k {q = q} (Memᴰ.head e) r g = subst (Good q.1) (sym e) (r.old blk g)
      new_one k (Memᴰ.tail m) r g = r.new k m
