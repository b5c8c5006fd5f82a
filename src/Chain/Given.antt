-- ===== src/Chain/Given.antt =====
-- Each block that `prefetch` requests is given back or was awaited without data.
use tazer.Base.{
  ℕ, ◌+◌, ◌-◌, ◌%◌, ◌≤◌, ◌≡◌, ◌==◌, if◌then◌else◌, List, [], ◌∷◌, some, arith, refl, ◌∙◌, ap, count,
  ==_refl, Bool-cases, inl, inr,
}
use tazer.Prefetch.Delta.{u64}
use tazer.Bounded.Types.{u32}
use tazer.Chain.Prefetch.{
  Requests, Asked, Pending, insert_read, prefetch_one, prefetch_all, finish_prefetch,
  finish_prefetches, prefetch,
}

abbrev pub one : ℕ → ℕ → ℕ
one j k = if k == j then 1 else 0

-- The keys under which blocks are requested.
abbrev pub keys : List ℕ → List ℕ
keys [] = []
keys (b ∷ bs) = b % u32 ∷ keys bs

-- The caches with what `prefetch` has called so far: the blocks requested, those handed to
-- `bufferWrite` and those whose wait ended without data, the last ones first.
pub record Logged (S : Type 0) : Type 0 where
  pub caches : S
  pub asked : List ℕ
  pub given : List ℕ
  pub lost : List ℕ

abbrev pub fresh_log : {S : Type 0} → S → Logged S
fresh_log s = record { caches = s; asked = []; given = []; lost = [] }

-- The calls of `ops`, written down.
abbrev pub logged : {S : Type 0} → Requests S → Requests (Logged S)
logged ops = record {
  request_block = λ l k priority.
      let r = ops.request_block l.caches k priority in
      (record { caches = r.0; asked = k ∷ l.asked; given = l.given; lost = l.lost }, r.1);
  await = λ l k.
      let r = ops.await l.caches k in
      (
        record {
          caches = r.0;
          asked = l.asked;
          given = l.given;
          lost = if r.1 then l.lost else k ∷ l.lost;
        },
        r.1,
      );
  buffer_write = λ l k. record {
    caches = ops.buffer_write l.caches k;
    asked = l.asked;
    given = k ∷ l.given;
    lost = l.lost;
  };
  walk = ops.walk;
}

count-insert_read :
    (ks : List ℕ) (k j : ℕ) → count k ks ≡ 0 → count j (insert_read ks k) ≡ one j k + count j ks
unfolding insert_read
count-insert_read ks k j h = rw h refl

count-head : (k : ℕ) (ks : List ℕ) → count k (k ∷ ks) ≡ 1 + count k ks
count-head k ks = rw (==_refl k) refl

module _ {S : Type 0} (ops : Requests S)
    (walks : (ks : List ℕ) (j : ℕ) → count j (ops.walk ks) ≡ count j ks) where
  abbrev pending : Pending (Logged S) → ℕ → ℕ
  pending l j = count j l.net_reads + count j l.local_reads

  -- What was settled with a block: given back, or awaited without data.
  abbrev settled : Logged S → ℕ → ℕ
  settled l j = count j l.given + count j l.lost

  -- A round asks for the block and either gives it back or leaves it pending.
  one-pending :
      (start b j : ℕ) (l : Pending (Logged S))
      → pending l (b % u32) ≡ 0
      → let n = prefetch_one (logged ops) start b l in
        (count j n.caches.asked ≡ one j (b % u32) + count j l.caches.asked)
        × (settled n.caches j + pending n j ≡ one j (b % u32) + (settled l.caches j + pending l j))
  unfolding prefetch_one
  one-pending start b j l h = elim (Bool-cases r.1.ready) [
    | inl e ↦ rw e (refl, omega arith)
    | inr e ↦ elim (Bool-cases r.1.network) [
      | inl n ↦
          rw (e, n) (refl, omega (arith, count-insert_read l.net_reads k j (omega (arith, h))))
      | inr n ↦
          rw (e, n) (refl, omega (arith, count-insert_read l.local_reads k j (omega (arith, h))))
    ]
  ]
    where
      k : ℕ
      k = b % u32

      r : S × Asked
      r = ops.request_block l.caches.caches k ((1 + (b + u64 - start) % u64) % u32)

  all-pending :
      (start : ℕ) (bs : List ℕ) (l : Pending (Logged S))
      → ((j : ℕ) → settled l.caches j + pending l j + count j (keys bs) ≤ 1)
      → (j : ℕ)
      → let n = prefetch_all (logged ops) start bs l in
        (count j n.caches.asked ≡ count j (keys bs) + count j l.caches.asked)
        × (settled n.caches j + pending n j
            ≡ count j (keys bs) + (settled l.caches j + pending l j))
  unfolding prefetch_all
  all-pending start [] l h j = (omega arith, omega arith)
  all-pending start (b ∷ bs) l h j =
      let free : pending l (b % u32) ≡ 0 =
        let z = h (b % u32) in let e = count-head (b % u32) (keys bs) in omega (arith, z, e) in
      let l' = prefetch_one (logged ops) start b l in
      let rest =
        all-pending start bs l' (λ i. omega (arith, h i, (one-pending start b i l free).1)) j in
      let here = one-pending start b j l free in
      (omega (arith, rest.0, here.0), omega (arith, rest.1, here.1))

  one-settled :
      (k : ℕ) (l : Logged S) (j : ℕ)
      → let n = finish_prefetch (logged ops) k l in
        (n.asked ≡ l.asked) × (settled n j ≡ one j k + settled l j)
  unfolding finish_prefetch
  one-settled k l j = elim (Bool-cases (ops.await l.caches k).1) [
    | inl e ↦ rw e (refl, omega arith)
    | inr e ↦ rw e (refl, omega arith)
  ]

  all-settled :
      (ks : List ℕ) (l : Logged S) (j : ℕ)
      → let n = finish_prefetches (logged ops) ks l in
        (n.asked ≡ l.asked) × (settled n j ≡ count j ks + settled l j)
  unfolding finish_prefetches
  all-settled [] l j = (refl, omega arith)
  all-settled (k ∷ ks) l j =
      let rest = all-settled ks (finish_prefetch (logged ops) k l) j in
      let here = one-settled k l j in (rest.0 ∙ here.0, omega (arith, rest.1, here.1))

  -- For blocks with different numbers modulo 2^32, where a walk over a map passes each of its keys
  -- once, whatever the caches answer: `prefetch` returns and has asked for each block once; and each
  -- block that it asked for was once handed to `bufferWrite` or once awaited without data, and no
  -- other block was.
  pub prefetch-settled :
      (b : ℕ) (bs : List ℕ) (s : S)
      → ((j : ℕ) → count j (keys (b ∷ bs)) ≤ 1)
      → (l : Logged S) × (prefetch (logged ops) (b ∷ bs) (fresh_log s) ≡ some l)
        × ((j : ℕ)
            → (count j l.asked ≡ count j (keys (b ∷ bs)))
              × (count j l.given + count j l.lost ≡ count j l.asked))
  unfolding prefetch
  prefetch-settled b bs s h = (
    finish_prefetches (logged ops) (ops.walk l.local_reads) mid,
    refl,
    λ j.
        let a = all-pending b (b ∷ bs) none_yet (λ i. omega (arith, h i)) j in
        let n = all-settled (ops.walk l.net_reads) l.caches j in
        let m = all-settled (ops.walk l.local_reads) mid j in
        let asked = ap (count j) (m.0 ∙ n.0) in
        (
          omega (arith, asked, a.0),
          omega (arith, asked, a.0, a.1, n.1, m.1, walks l.net_reads j, walks l.local_reads j),
        ),
  )
    where
      none_yet : Pending (Logged S)
      none_yet = record { caches = fresh_log s; net_reads = []; local_reads = [] }

      l : Pending (Logged S)
      l = prefetch_all (logged ops) b (b ∷ bs) none_yet

      mid : Logged S
      mid = finish_prefetches (logged ops) (ops.walk l.net_reads) l.caches
