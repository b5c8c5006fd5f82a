-- ===== src/Chain/Tests.antt =====
-- A base level that gets a memory cache, and three requests, on which the theorems of this component
-- are applied.
use tazer.Base.{ℕ, ◌+◌, ◌≤◌, ◌==◌, not, count, ◌≡◌, List, [], ◌∷◌, some, arith, refl}
use tazer.Bounded.Types.{base, private_memory}
use tazer.Chain.Levels.{Node, Extended, add_cache_level, add_cache_level-Extended}
use tazer.Chain.Window.{IsSum, record_all, new_window, record_all-IsSum}
use tazer.Chain.Prefetch.{Requests, prefetch}
use tazer.Chain.Given.{Logged, logged, fresh_log, keys, prefetch-settled}

abbrev base_level : Node
base_level = record { address = 1; type = base; level = 0; last = 1 }

abbrev memory_level : Node
memory_level = record { address = 2; type = private_memory; level = 0; last = 2 }

add_cache_level-Extended_example :
    (ns' : List Node) × (add_cache_level (base_level ∷ []) memory_level 1 ≡ some ns')
    × Extended 0 (base_level ∷ []) memory_level ns'
add_cache_level-Extended_example =
    add_cache_level-Extended base_level [] memory_level (refl, tt) refl (omega arith)

record_all-IsSum_example : IsSum (record_all new_window (5 ∷ 7 ∷ 9 ∷ [])) 3
record_all-IsSum_example =
    record_all-IsSum (5 ∷ 7 ∷ 9 ∷ []) (omega arith, (omega arith, (omega arith, tt)))

-- Caches where block 3 comes from the network, block 4 is there, and the others are awaited below; the
-- wait for block 5 ends without data.
abbrev three_levels : Requests Unit
three_levels = record {
  request_block = λ s k priority. (s, record { ready = k == 4; network = k == 3 });
  await = λ s k. (s, not (k == 5));
  buffer_write = λ s k. s;
  walk = λ ks. ks;
}

three_apart : (j : ℕ) → count j (keys (3 ∷ 4 ∷ 5 ∷ [])) ≤ 1
three_apart j = ground arith

prefetch-settled_example :
    (l : Logged Unit) × (prefetch (logged three_levels) (3 ∷ 4 ∷ 5 ∷ []) (fresh_log tt) ≡ some l)
    × ((j : ℕ)
        → (count j l.asked ≡ count j (3 ∷ 4 ∷ 5 ∷ []))
          × (count j l.given + count j l.lost ≡ count j l.asked))
prefetch-settled_example =
    prefetch-settled three_levels (λ ks j. refl) 3 (4 ∷ 5 ∷ []) tt three_apart
