-- ===== src/Bounded/Invariant/Files.antt =====
-- `_fileMap` in the block cache: looking a file up, adding one, and the freshly made cache.
use tazer.Base.{
  ℕ, ◌*◌, List, ◌+◌, ◌≤◌, ◌<◌, ◌≡◌, ◌≢◌, false, none, arith, refl, subst, ◌∙◌, inl, inr, ap, ==_iff,
  Option-cases, ==_refl,
}
use tazer.Bounded.Types.{Shape, Cache}
use tazer.Bounded.Table.{is_empty, get_bin_index, file_at, touch_file, file_or_default, make_cache}
use tazer.Bounded.Ops.{register_file}
use tazer.Bounded.Invariant.Defs.{InBin, IsUsed, IsWellFormed}

file_at-eq :
    (c d : Cache) (file : ℕ) → d.file_map file ≡ c.file_map file → file_at d file ≡ file_at c file
file_at-eq c d file e = ap file_or_default e

pub bin_index-file :
    (c d : Cache) (index file : ℕ)
    → d.shape ≡ c.shape
    → d.file_map file ≡ c.file_map file
    → get_bin_index d index file ≡ get_bin_index c index file
unfolding get_bin_index
bin_index-file c d index file s e = cc (s, file_at-eq c d file e)

-- `d` is `c` with more files registered.
pub record Extends (c d : Cache) : Type 0 where
  pub shape : d.shape ≡ c.shape
  pub table : d.blk_index ≡ c.blk_index
  pub files : (f : ℕ) → c.file_map f ≢ none → d.file_map f ≡ c.file_map f

module _ (c d : Cache) (wf : IsWellFormed c) (x : Extends c d) where
  to_InBin : (b p : ℕ) → InBin d b p → InBin c b p
  to_InBin b p h =
      subst (λ k. (b * k.associativity ≤ p) × (p < b * k.associativity + k.associativity)) x.shape h

  to_IsUsed : (p : ℕ) → IsUsed d p → IsUsed c p
  to_IsUsed p u = subst (λ t. is_empty (t p).status ≡ false) x.table u

  pub Extends-IsWellFormed : IsWellFormed d
  unfolding get_bin_index
  Extends-IsWellFormed = record {
    numbered = λ p. rw x.table (wf.numbered p);
    settled = λ p. rw x.table (wf.settled p);
    quiet = λ p. rw x.table (wf.quiet p);
    known = λ p u. let k = wf.known p (to_IsUsed p u) in rw (x.table, x.files _ k) k;
    placed = λ p b h u. rw x.table (
        bin_index-file c d _ _ x.shape (x.files _ (wf.known p (to_IsUsed p u)))
        ∙ wf.placed p b (to_InBin b p h) (to_IsUsed p u));
    packed = λ p q b hp hq le u.
        rw x.table (wf.packed p q b (to_InBin b p hp) (to_InBin b q hq) le (to_IsUsed q u));
    unique = λ p q b hp hq up uq s.
        wf.unique p q b (to_InBin b p hp) (to_InBin b q hq) (to_IsUsed p up) (to_IsUsed q uq)
          (rw x.table at s);
  }

-- Looking a file up registers an unknown one, and disturbs nothing.
pub touch_file-Extends : (c : Cache) (file : ℕ) → Extends c (touch_file c file)
unfolding touch_file
touch_file-Extends c file = record {
  shape = refl;
  table = refl;
  files = λ f k. ground (arith, Option-cases (c.file_map f));
}

pub touch_file-known : (c : Cache) (file : ℕ) → (touch_file c file).file_map file ≢ none
unfolding touch_file
touch_file-known c file = ground (arith, ==_refl file)

-- So does adding one.
pub register_file-Extends :
    (xxh32 : List ℕ → ℕ) (c : Cache) (index : ℕ) (name : List ℕ) (block_size file_size : ℕ)
    → Extends c (register_file xxh32 c index name block_size file_size)
unfolding register_file
register_file-Extends xxh32 c index name block_size file_size =
    elim (Option-cases (c.file_map index)) [
      | inl e ↦
          rw (e, register_file)
            (record { shape = refl; table = refl; files = λ f k. ground (arith, ==_iff index f) })
      | inr (f, e) ↦
          rw (e, register_file) (record { shape = refl; table = refl; files = λ f k. refl })
    ]

-- A cache that has just been made is well formed.
pub make_cache-IsWellFormed :
    (shape : Shape) (memory : ℕ → ℕ) → IsWellFormed (make_cache shape memory)
unfolding make_cache
make_cache-IsWellFormed shape memory = record {
  numbered = λ p. refl;
  settled = λ p. refl;
  quiet = λ p. refl;
  known = λ p u. cc u;
  placed = λ p b h u. cc u;
  packed = λ p q b hp hq le u. u;
  unique = λ p q b hp hq up uq s. cc up;
}
