-- ===== src/Lock/Count.antt =====
-- The threads of a system counted by where they stand.
use tazer.Base.{ℕ, zero, suc, ◌+◌, ◌≡◌, ◌≤◌, List, [], ◌∷◌, ◌++◌, length, arith, refl}
use tazer.Lock.Steps.{
  Pc, idle, read_check, read_back, try_read_check, try_read_back, reading, write_drain,
  cowardly_check, cowardly_store, writing, fair_drain, fair_writing, idles,
}

unfoldable pub count : (Pc → ℕ) → List Pc → ℕ
count w [] = 0
count w (p ∷ ps) = w p + count w ps

-- Counted in `_readers`.
abbrev pub added : Pc → ℕ
added read_check = 1
added read_back = 1
added try_read_check = 1
added try_read_back = 1
added reading = 1
added _ = 0

-- Owns `_writers`.
abbrev pub holds : Pc → ℕ
holds write_drain = 1
holds cowardly_check = 1
holds cowardly_store = 1
holds writing = 1
holds fair_drain = 1
holds fair_writing = 1
holds _ = 0

-- In a reader's section, and in a writer's.
abbrev pub reads : Pc → ℕ
reads reading = 1
reads _ = 0

abbrev pub writes : Pc → ℕ
writes writing = 1
writes fair_writing = 1
writes _ = 0

pub count-middle :
    (w : Pc → ℕ) (xs ys : List Pc) (p : Pc)
    → count w (xs ++ p ∷ ys) ≡ w p + (count w xs + count w ys)
unfolding count
count-middle w [] ys p = omega arith
count-middle w (x ∷ xs) ys p = omega (arith, count-middle w xs ys p)

pub length-middle : (xs ys : List Pc) (p : Pc) → length (xs ++ p ∷ ys) ≡ suc (length xs + length ys)
length-middle [] ys p = omega arith
length-middle (x ∷ xs) ys p = omega (arith, length-middle xs ys p)

pub count-idles : (w : Pc → ℕ) (n : ℕ) → w idle ≡ 0 → count w (idles n) ≡ 0
unfolding count idles
count-idles w zero h = refl
count-idles w (suc n) h = omega (arith, h, count-idles w n h)

pub length-idles : (n : ℕ) → length (idles n) ≡ n
unfolding idles
length-idles zero = refl
length-idles (suc n) = omega (arith, length-idles n)

-- A weight below another counts below it.
pub count-le : (w v : Pc → ℕ) → ((p : Pc) → w p ≤ v p) → (ps : List Pc) → count w ps ≤ count v ps
unfolding count
count-le w v h [] = omega arith
count-le w v h (p ∷ ps) = omega (arith, h p, count-le w v h ps)

pub count-length : (w : Pc → ℕ) → ((p : Pc) → w p ≤ 1) → (ps : List Pc) → count w ps ≤ length ps
unfolding count
count-length w h [] = omega arith
count-length w h (p ∷ ps) = omega (arith, h p, count-length w h ps)
