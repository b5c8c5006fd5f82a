-- ===== src/Lock/Fair.antt =====
-- `fairWriterLock` of a thread that is alone.
use tazer.Base.{ℕ, ◌≡◌, List, [], ◌∷◌, length, arith, refl, All}
use tazer.Lock.Steps.{
  Lock, Pc, idle, fair_test, fair_swap, fair_drain, fair_writing, fair_bump, advance, Op, begin,
  reader_lock, Step, call, go, Reach, start, more, idles,
}
use tazer.Lock.Count.{count, length-middle}

-- A thread that has passed the test of its ticket.
abbrev pub enters : Pc → ℕ
enters (fair_swap my) = 1
enters fair_drain = 1
enters fair_writing = 1
enters fair_bump = 1
enters _ = 0

-- The ticket that a thread waits with, or would take now.
abbrev pub ticket : Lock → Pc → ℕ
ticket l (fair_test my) = my
ticket l _ = l.cnt

waits_next :
    (p : Pc) (l : Lock)
    → enters p ≡ 0
    → ticket l p ≡ l.cur
    → (enters (advance p l).1 ≡ 0) × (ticket (advance p l).0 (advance p l).1 ≡ (advance p l).0.cur)
unfolding advance
waits_next idle l e h = (refl, h)
waits_next p l e h = ground arith

waits_begin :
    (op : Op) (l : Lock) → l.cnt ≡ l.cur → (enters (begin op) ≡ 0) × (ticket l (begin op) ≡ l.cur)
waits_begin reader_lock l h = (refl, h)
waits_begin op l h = (refl, h)

abbrev Waits : Lock → Pc → Type 0
Waits l p = (enters p ≡ 0) × (ticket l p ≡ l.cur)

Step-Waits :
    {l l' : Lock} {ts ts' : List Pc}
    → Step l ts l' ts'
    → length ts ≡ 1
    → All (Waits l) ts
    → All (Waits l') ts' × (length ts' ≡ 1)
Step-Waits (call {l} [] [] op) one h = ((waits_begin op l h.0.1, tt), refl)
Step-Waits (go {l} [] [] p) one h = ((waits_next p l h.0.0 h.0.1, tt), refl)
Step-Waits (call [] (y ∷ ys) op) one h = absurd (omega (arith, one))
Step-Waits (go [] (y ∷ ys) p) one h = absurd (omega (arith, one))
Step-Waits (call (x ∷ xs) ys op) one h = absurd (omega (arith, one, length-middle xs ys idle))
Step-Waits (go (x ∷ xs) ys p) one h = absurd (omega (arith, one, length-middle xs ys p))

Reach-Waits : (l : Lock) (ts : List Pc) → Reach 1 l ts → All (Waits l) ts × (length ts ≡ 1)
unfolding idles
Reach-Waits _ _ start = (((refl, refl), tt), refl)
Reach-Waits _ _ (more r st) = let h = Reach-Waits _ _ r in Step-Waits st h.1 h.0

-- `fairWriterLock` of a thread that is alone with the lock never returns: in every state that a
-- single thread reaches, whatever it has called before, it has not passed the test of its ticket,
-- since the ticket it holds, or would draw, is the current one, which is what it waits to change.
pub fair_alone :
    (l : Lock) (ts : List Pc)
    → Reach 1 l ts
    → (count enters ts ≡ 0) × All (λ p. ticket l p ≡ l.cur) ts
unfolding count
fair_alone l ts r = alone l ts (Reach-Waits l ts r).0
  where
    alone :
        (l : Lock) (ts : List Pc)
        → All (Waits l) ts
        → (count enters ts ≡ 0) × All (λ p. ticket l p ≡ l.cur) ts
    alone l [] h = (refl, tt)
    alone l (p ∷ ps) h = let r = alone l ps h.1 in (omega (arith, h.0.0, r.0), (h.0.1, r.1))
