-- ===== src/Output/InOrder.antt =====
-- The order of the messages, whatever order the pools take their tasks in.
use tazer.Base.{count, ℕ, zero, suc, ◌+◌, ◌≡◌, if◌then◌else◌, ltb, List, [], ◌∷◌, ◌++◌, All}
use tazer.Output.Transfer.{Transfers}

-- 0, 1, … up to before `n`.
abbrev pub up_to : ℕ → List ℕ
up_to zero = []
up_to (suc n) = up_to n ++ n ∷ []

abbrev one_below : ℕ → ℕ → ℕ
one_below a n = if ltb a n then 1 else 0

-- Each number that was handed over is in one place, once; those that are being sent are `send_num`,
-- and those that were sent are the ones before it, in order.
record InPlace (n : ℕ) (s : Transfers) : Type 0 where
  handed : s.next ≡ n
  once :
      (a : ℕ)
      → count a s.compressing
          + count a s.waiting
          + count a s.running
          + count a s.sending
          + count a s.sent
        ≡ (if ltb a s.next then 1 else 0)
  due : All (λ x. x ≡ s.send_num) s.sending
  order : s.sent ≡ up_to s.send_num
