-- ===== src/Socket/Tests.antt =====
-- A socket that carries one byte at a time, on which the theorems of this component are applied.
use mathlib.Core.Option.{some-injective}
use tazer.Base.{
  ℕ, zero, suc, ◌<◌, ◌≤◌, ◌≡◌, false, List, [], ◌∷◌, ◌++◌, length, take, Option, some, arith, refl,
  ap,
}
use tazer.Message.Pipe.{IsPipe}
use tazer.Socket.Loops.{
  Received, arrived, interrupted, broken, Socket, rounds, recv_loop, send_loop, recv_msg,
  connection,
}
use tazer.Socket.Ends.{IsSocket, Receives, Sends, loops_end}
use tazer.Socket.Stream.{IsStream, connection-IsPipe}

abbrev give_one : List ℕ → ℕ → List ℕ × Received
give_one [] n = ([], arrived [])
give_one (x ∷ q) zero = (x ∷ q, arrived [])
give_one (x ∷ q) (suc n) = (q, arrived (x ∷ []))

abbrev take_one : List ℕ → List ℕ → List ℕ × Option ℕ
take_one q [] = (q, some 0)
take_one q (x ∷ xs) = (q ++ x ∷ [], some 1)

abbrev slow : Socket (List ℕ)
slow = record { rsend = take_one; rrecv = give_one; reopen = λ q. q; close = λ q. q }

abbrev bytes_of : Received → List ℕ
bytes_of (arrived xs) = xs
bytes_of interrupted = []
bytes_of broken = []

slow-receives : (s : List ℕ) (n : ℕ) (xs : List ℕ) → (give_one s n).1 ≡ arrived xs → length xs ≤ n
slow-receives [] n xs e = let f : [] ≡ xs = ap bytes_of e in omega (arith, ap length f)
slow-receives (x ∷ q) zero xs e = let f : [] ≡ xs = ap bytes_of e in omega (arith, ap length f)
slow-receives (x ∷ q) (suc n) xs e =
    let f : x ∷ [] ≡ xs = ap bytes_of e in omega (arith, ap length f)

slow-sends : (s : List ℕ) (xs : List ℕ) (n : ℕ) → (take_one s xs).1 ≡ some n → n ≤ length xs
slow-sends s [] n e = let f : 0 ≡ n = some-injective _ _ e in omega (arith, f)
slow-sends s (x ∷ xs) n e = let f : 1 ≡ n = some-injective _ _ e in omega (arith, f)

slow-IsSocket : IsSocket slow
slow-IsSocket = record { receives = slow-receives; sends = slow-sends }

slow-gives :
    (s : List ℕ) (n : ℕ)
    → 0 < n
    → 0 < length s
    → (xs : List ℕ) × ((give_one s n).1 ≡ arrived xs)
      × (0 < length xs)
      × (length xs ≤ n)
      × (s ≡ xs ++ (give_one s n).0)
slow-gives [] n pos full = absurd (omega arith)
slow-gives (x ∷ q) zero pos full = absurd (omega arith)
slow-gives (x ∷ q) (suc n) pos full = (x ∷ [], refl, omega arith, omega arith, refl)

slow-takes :
    (s : List ℕ) (xs : List ℕ)
    → 0 < length xs
    → (k : ℕ) × ((take_one s xs).1 ≡ some k)
      × (0 < k)
      × (k ≤ length xs)
      × ((take_one s xs).0 ≡ s ++ take k xs)
slow-takes s [] pos = absurd (omega arith)
slow-takes s (x ∷ xs) pos = (1, refl, omega arith, omega arith, refl)

slow-IsStream : IsStream slow (λ q. q)
slow-IsStream = record { gives = slow-gives; takes = slow-takes }

abbrev word : List ℕ
word = 1 ∷ 2 ∷ 3 ∷ []

loops_end_example :
    Receives 3 (recv_loop slow 2 (rounds 2 3) word 3 0)
    × Sends (length word) (send_loop slow 2 (rounds 2 (length word)) word word 0)
loops_end_example = loops_end slow slow-IsSocket 2 word 3 word

connection-IsPipe_example : IsPipe (connection slow 2) (λ q. q)
connection-IsPipe_example = connection-IsPipe slow (λ q. q) slow-IsStream 2

-- Three bytes come in three pieces.
pieces_run : (recv_msg slow 2 word 3).1 ≡ record { bytes = word; failed = false }
unfolding recv_msg recv_loop
pieces_run = refl
