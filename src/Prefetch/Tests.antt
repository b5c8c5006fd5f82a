-- ===== src/Prefetch/Tests.antt =====
-- Runs ahead of a read and before the first block, on which the theorems of this component are applied.
use tazer.Base.{◌≡◌, [], arith}
use tazer.Prefetch.Delta.{pos, negsuc, get_blocks, IsRun, get_blocks-ahead, get_blocks-before}

get_blocks-ahead_example : IsRun 7 8 100 1000 (get_blocks (pos 2) 4 5 8 100 1000)
get_blocks-ahead_example = get_blocks-ahead 1 4 5 8 100 1000 (omega arith) (omega arith)

get_blocks-before_example : get_blocks (negsuc 2) 1 2 4 100 1000 ≡ []
get_blocks-before_example =
    get_blocks-before 2 1 2 4 100 1000 (omega arith) (omega arith) (omega arith) (omega arith)
      (omega arith)
