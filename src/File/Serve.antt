-- ===== src/File/Serve.antt =====
-- What the cache chain promises to `read`: the blocks of one file.
use mathlib.Core.List.{Memᴰ, Permᴰ}
use tazer.Base.{
  ℕ, ◌+◌, ◌*◌, ◌≤◌, ◌<◌, ◌≡◌, true, ltb, ltb→lt, lt→ltb, leb, leb→le, le→leb, Bool-cases, ◌∙◌, sym,
  inl, inr, ◌⊎◌, List,
}
use tazer.File.Types.{File}
use tazer.File.Read.{Bytes, Requests}

-- A request's data is the file's for a block, as far as the file goes.
abbrev pub IsBlock : File → Bytes → ℕ → Bytes → Type 0
IsBlock f content blk bytes =
    (j : ℕ)
    → j < f.blk_size
    → blk * f.blk_size + j < f.file_size
    → bytes j ≡ content (blk * f.blk_size + j)

-- The caches serve a file: a request that is ready carries the file's bytes for its block, an
-- awaited one becomes ready with them, and every pending block is walked once.
pub record Serves {S : Type 0} (ops : Requests S) (f : File) (content : Bytes) (Inv : S → Type 0)
    : Type 0 where
  pub request_keeps : (s : S) (blk : ℕ) → Inv s → Inv (ops.request_block s blk).0
  pub request_serves :
      (s : S) (blk : ℕ)
      → Inv s
      → (ops.request_block s blk).1.ready ≡ true
      → IsBlock f content blk (ops.request_block s blk).1.bytes
  pub await_keeps : (s : S) (blk : ℕ) → Inv s → Inv (ops.await s blk).0
  pub await_ready : (s : S) (blk : ℕ) → Inv s → (ops.await s blk).1.ready ≡ true
  pub await_serves : (s : S) (blk : ℕ) → Inv s → IsBlock f content blk (ops.await s blk).1.bytes
  pub write_keeps : (s : S) (blk : ℕ) → Inv s → Inv (ops.buffer_write s blk)
  pub prefetch_keeps : (s : S) (start end : ℕ) → Inv s → Inv (ops.prefetch s start end)
  pub walks : (blks : List ℕ) → Permᴰ blks (ops.walk blks)

pub perm-mem : {a : ℕ} {xs ys : List ℕ} → Permᴰ xs ys → Memᴰ a xs → Memᴰ a ys
perm-mem Permᴰ.nil m = m
perm-mem (Permᴰ.cons e d) (Memᴰ.head e') = Memᴰ.head (e' ∙ e)
perm-mem (Permᴰ.cons e d) (Memᴰ.tail m) = Memᴰ.tail (perm-mem d m)
perm-mem (Permᴰ.swap e1 e2) (Memᴰ.head e) = Memᴰ.tail (Memᴰ.head (e ∙ e1))
perm-mem (Permᴰ.swap e1 e2) (Memᴰ.tail (Memᴰ.head e)) = Memᴰ.head (e ∙ e2)
perm-mem (Permᴰ.swap e1 e2) (Memᴰ.tail (Memᴰ.tail m)) = Memᴰ.tail (Memᴰ.tail m)
perm-mem (Permᴰ.trans d1 d2) m = perm-mem d2 (perm-mem d1 m)

pub inside : (a b c : ℕ) → ((a ≤ b) × (b < c)) ⊎ ¬ ((a ≤ b) × (b < c))
inside a b c = elim (Bool-cases (leb a b)) [
  | inl e ↦ elim (Bool-cases (ltb b c)) [
    | inl e' ↦ inl (leb→le a b e, ltb→lt b c e')
    | inr e' ↦ inr (λ h. absurd (cc (sym (lt→ltb b c h.1) ∙ e')))
  ]
  | inr e ↦ inr (λ h. absurd (cc (sym (le→leb a b h.0) ∙ e)))
]
