-- ===== src/Remote/Read.antt =====
-- The task of `readBlock` of NetworkCache.cpp, on the connections of a file that no other transfer
-- uses. A request over a connection is any step of a state, with the data where it succeeded.
use tazer.Base.{ℕ, zero, suc, List, Option, none, some}
use tazer.Remote.Connections.{pop_connection, push_connection}

-- What the task leaves: the state, the connections, and the data where a request succeeded.
pub record Served (S D : Type 0) : Type 0 where
  pub state : S
  pub pool : List ℕ
  pub answer : Option D

module _ {S D : Type 0} (request : S → ℕ → S × Option D) (best : List ℕ → ℕ) where
  -- The loop of the retries with `left` of them, for the connection `sev` in hand; none where it
  -- waits for a connection that nobody gives back.
  unfoldable pub retry_block : ℕ → List ℕ → ℕ → S × Option D → Option (Served S D)
  unfolding pop_connection
  retry_block left q sev (s, some d) =
      some (record { state = s; pool = push_connection q sev; answer = some d })
  retry_block zero q sev (s, none) =
      some (record { state = s; pool = push_connection q sev; answer = none })
  retry_block (suc left) q sev (s, none) = elim (pop_connection best q) [
    | none ↦ none
    | some (c, rest) ↦ retry_block left (push_connection rest sev) c (request s c)
  ]

  -- The task: the first request, ten retries at most, and the connection back into the pool.
  unfoldable pub read_remote : S → List ℕ → Option (Served S D)
  unfolding retry_block pop_connection
  read_remote s q = elim (pop_connection best q) [
    | none ↦ none
    | some (c, rest) ↦ retry_block 10 rest c (request s c)
  ]
