-- ===== src/Lock/Exclusion.antt =====
-- The lock keeps its promise: one writer and no reader, or any readers.
use tazer.Base.{
  ℕ, ◌+◌, ◌≡◌, ◌≤◌, ◌<◌, List, ◌∷◌, ◌++◌, length, arith, refl, inl, inr, ◌⊎◌, ◌∙◌, sym,
}
use tazer.Lock.Steps.{
  Lock, u32, Pc, idle, advance, Op, begin, reader_lock, Step, call, go, Reach, start, more,
}
use tazer.Lock.Count.{
  count, added, holds, reads, writes, count-middle, length-middle, count-idles, length-idles,
  count-le, count-length,
}

-- What the lock says of one thread at `p` and the counts of all others.
module _ (R H Rd W : ℕ) (few : R + 1 < u32) (le : Rd ≤ R) (le' : W ≤ H) where
  counted_next :
      (p : Pc) (l : Lock)
      → l.readers ≡ added p + R
      → (advance p l).0.readers ≡ added (advance p l).1 + R
  unfolding advance
  counted_next idle l h = omega arith
  counted_next p l h = ground arith

  owned_next :
      (p : Pc) (l : Lock)
      → l.writers ≡ holds p + H
      → holds p + H ≤ 1
      → ((advance p l).0.writers ≡ holds (advance p l).1 + H) × (holds (advance p l).1 + H ≤ 1)
  unfolding advance
  owned_next idle l h s = (h, s)
  owned_next p l h s = ground arith

  apart_next :
      (p : Pc) (l : Lock)
      → l.readers ≡ added p + R
      → l.writers ≡ holds p + H
      → holds p + H ≤ 1
      → (writes p + W ≡ 0) ⊎ (reads p + Rd ≡ 0)
      → (writes (advance p l).1 + W ≡ 0) ⊎ (reads (advance p l).1 + Rd ≡ 0)
  unfolding advance
  apart_next idle l c h s a = a
  apart_next p l c h s a = ground arith

-- The counters of the lock are those of the threads, and no reader reads while a writer writes.
pub record Agree (l : Lock) (ts : List Pc) : Type 0 where
  pub counted : l.readers ≡ count added ts
  pub owned : l.writers ≡ count holds ts
  pub single : count holds ts ≤ 1
  pub apart : (count writes ts ≡ 0) ⊎ (count reads ts ≡ 0)

reads-added : (p : Pc) → reads p ≤ added p
reads-added idle = omega arith
reads-added p = omega arith

writes-holds : (p : Pc) → writes p ≤ holds p
writes-holds idle = omega arith
writes-holds p = omega arith

added-one : (p : Pc) → added p ≤ 1
added-one idle = omega arith
added-one p = omega arith

begins :
    (op : Op)
    → (added idle ≡ added (begin op))
      × (holds idle ≡ holds (begin op))
      × (writes idle ≡ writes (begin op))
      × (reads idle ≡ reads (begin op))
begins reader_lock = (refl, refl, refl, refl)
begins op = (refl, refl, refl, refl)

either : {a b c d : ℕ} → a ≡ c → b ≡ d → (a ≡ 0) ⊎ (b ≡ 0) → (c ≡ 0) ⊎ (d ≡ 0)
either e e' (inl h) = inl (sym e ∙ h)
either e e' (inr h) = inr (sym e' ∙ h)

module _ (xs ys : List Pc) (few : length xs + length ys + 1 < u32) where
  R : ℕ
  R = count added xs + count added ys

  H : ℕ
  H = count holds xs + count holds ys

  Rd : ℕ
  Rd = count reads xs + count reads ys

  W : ℕ
  W = count writes xs + count writes ys

  few_added : R + 1 < u32
  unfolding R
  few_added = omega (arith, few, count-length added added-one xs, count-length added added-one ys)

  Rd-R : Rd ≤ R
  unfolding R Rd
  Rd-R = omega (arith, count-le reads added reads-added xs, count-le reads added reads-added ys)

  W-H : W ≤ H
  unfolding W H
  W-H = omega (arith, count-le writes holds writes-holds xs, count-le writes holds writes-holds ys)

  advance-Agree :
      (p : Pc) (l : Lock)
      → Agree l (xs ++ p ∷ ys)
      → Agree (advance p l).0 (xs ++ (advance p l).1 ∷ ys)
  unfolding R H Rd W
  advance-Agree p l a =
      let p' : Pc = (advance p l).1 in
      let c : l.readers ≡ added p + R = a.counted ∙ count-middle added xs ys p in
      let o : l.writers ≡ holds p + H = a.owned ∙ count-middle holds xs ys p in
      let s : holds p + H ≤ 1 = omega (arith, a.single, count-middle holds xs ys p) in
      let t = owned_next R H Rd W few_added Rd-R W-H p l o s in
      record {
        counted =
            counted_next R H Rd W few_added Rd-R W-H p l c ∙ sym (count-middle added xs ys p');
        owned = t.0 ∙ sym (count-middle holds xs ys p');
        single = omega (arith, t.1, count-middle holds xs ys p');
        apart = either (sym (count-middle writes xs ys p')) (sym (count-middle reads xs ys p')) (
            apart_next R H Rd W few_added Rd-R W-H p l c o s
              (either (count-middle writes xs ys p) (count-middle reads xs ys p) a.apart));
      }

  begin-count :
      (w : Pc → ℕ) (op : Op)
      → w idle ≡ w (begin op)
      → count w (xs ++ idle ∷ ys) ≡ count w (xs ++ begin op ∷ ys)
  begin-count w op h = omega (arith, h, count-middle w xs ys idle, count-middle w xs ys (begin op))

  begin-Agree : (op : Op) (l : Lock) → Agree l (xs ++ idle ∷ ys) → Agree l (xs ++ begin op ∷ ys)
  begin-Agree op l a =
      let z = begins op in
      record {
        counted = a.counted ∙ begin-count added op z.0;
        owned = a.owned ∙ begin-count holds op z.1;
        single = omega (arith, a.single, begin-count holds op z.1);
        apart = either (begin-count writes op z.2) (begin-count reads op z.3) a.apart;
      }

-- A step keeps the number of threads, and the counters right.
Step-Agree :
    {l l' : Lock} {ts ts' : List Pc}
    → Step l ts l' ts'
    → length ts < u32
    → Agree l ts
    → Agree l' ts' × (length ts' ≡ length ts)
Step-Agree (call {l} xs ys op) few a = (
  begin-Agree xs ys (omega (arith, few, length-middle xs ys idle)) op l a,
  length-middle xs ys (begin op) ∙ sym (length-middle xs ys idle),
)
Step-Agree (go {l} xs ys p) few a = (
  advance-Agree xs ys (omega (arith, few, length-middle xs ys p)) p l a,
  length-middle xs ys _ ∙ sym (length-middle xs ys p),
)

-- In every state that `n` threads reach, for `n` below 2^32, `_readers` is the number of threads
-- that have added themselves, `_writers` is the number that own it, which is at most one, and
-- there is no thread in a writer's section or none in a reader's: the lock, with all its
-- operations, lets one writer in or any number of readers, under any interleaving.
pub Reach-Agree :
    {n : ℕ} {l : Lock} {ts : List Pc} → n < u32 → Reach n l ts → Agree l ts × (length ts ≡ n)
Reach-Agree {n} few start = (
  record {
    counted = sym (count-idles added n refl);
    owned = sym (count-idles holds n refl);
    single = omega (arith, count-idles holds n refl);
    apart = inl (count-idles writes n refl);
  },
  length-idles n,
)
Reach-Agree few (more r st) =
    let a = Reach-Agree few r in
    let b = Step-Agree st (omega (arith, a.1, few)) a.0 in (b.0, b.1 ∙ a.1)
