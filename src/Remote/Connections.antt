-- ===== src/Remote/Connections.antt =====
-- The connections of a file: `_mq` of ConnectionPool.cpp. A connection is its number, and stands in
-- the pool once for each of its sockets that no transfer uses.
use tazer.Base.{ℕ, zero, suc, List, [], ◌∷◌, ◌++◌, Option, none, some}

-- The connection at a place, and the others.
abbrev pub take_at : ℕ → ℕ → List ℕ → ℕ × List ℕ
take_at k c [] = (c, [])
take_at zero c (d ∷ q) = (c, d ∷ q)
take_at (suc k) c (d ∷ q) = let r = take_at k d q in (r.0, c ∷ r.1)

-- `popConnection`. Its choice of an entry, by rates and times that are measured, is the argument
-- `best`; a place behind the last entry is the last one.
unfoldable pub pop_connection : (List ℕ → ℕ) → List ℕ → Option (ℕ × List ℕ)
pop_connection best [] = none
pop_connection best (c ∷ q) = some (take_at (best (c ∷ q)) c q)

-- `pushConnection`.
abbrev pub push_connection : List ℕ → ℕ → List ℕ
push_connection q c = q ++ c ∷ []
