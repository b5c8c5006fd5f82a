-- ===== src/Output/Close.antt =====
-- What has been sent when `close` has waited for the transfers.
use tazer.Base.{ℕ, zero, suc, List, [], ◌∷◌, ◌++◌}
use tazer.Output.Types.{Task}

-- The task with a sequence number, as a list of none or one.
abbrev pub task_at : List Task → ℕ → List Task
task_at [] k = []
task_at (t ∷ ts) zero = t ∷ []
task_at (t ∷ ts) (suc k) = task_at ts k

-- The tasks with the given sequence numbers.
abbrev pub tasks_at : List Task → List ℕ → List Task
tasks_at ts [] = []
tasks_at ts (k ∷ ks) = task_at ts k ++ tasks_at ts ks

-- The first `n` tasks.
abbrev firsts : ℕ → List Task → List Task
firsts zero ts = []
firsts (suc n) [] = []
firsts (suc n) (t ∷ ts) = t ∷ firsts n ts
