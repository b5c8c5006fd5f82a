-- ===== src/Output/Tests.antt =====
-- A file with a small buffer, on which the theorems of this component are applied.
use tazer.Base.{
  ℕ, ◌+◌, ◌≡◌, ◌↔◌, true, false, if◌then◌else◌, ◌==◌, List, [], ◌∷◌, some, arith, refl,
}
use tazer.Output.Types.{Setup, OutputFile, seek_set, seek_cur, new_output_file}
use tazer.Output.Open.{open_output}
use tazer.Output.Write.{write}
use tazer.Output.View.{IsSetup}
use tazer.Output.Loop.{EndsAt}
use tazer.Output.Refine.{Plain, Call, write_call, seek_call}
use tazer.Output.History.{plain_calls}
use tazer.Output.Transfer.{Transfers, no_transfers}
use tazer.Output.Stuck.{write-EndsAt}

-- Five bytes of data behind a header and a name of three.
abbrev setup : Setup
setup = record { buffer_size = 8; message_offset = 3; fresh = λ i. 9 }

setup-IsSetup : IsSetup setup
setup-IsSetup = record { room = omega arith; small = omega arith }

abbrev opened : OutputFile
opened = open_output (new_output_file setup false) true 3 (λ i. some 0)

abbrev bytes : ℕ → ℕ
bytes i = 100 + i

abbrev server_file : ℕ → ℕ
server_file i = 0

abbrev empty_file : Plain
empty_file = record { content = server_file; pos = 0 }

-- Seven bytes, then two over the third and the fourth.
abbrev writes : List Call
writes =
    write_call bytes 7 false
    ∷ seek_call 2 seek_set
    ∷ write_call bytes 2 true
    ∷ seek_call 1 seek_cur
    ∷ []

-- Two tasks; the second is taken first, has to wait, and the first one is sent.
abbrev two_handed : Transfers
two_handed = record no_transfers { next = 2; waiting = 1 ∷ 0 ∷ [] }

abbrev one_sent : Transfers
one_sent = record no_transfers { next = 2; send_num = 1; waiting = 1 ∷ []; sent = 0 ∷ [] }

-- The writes answer with 7 bytes, position 2, 2 bytes, and position 5.
calls_run : (plain_calls empty_file writes).1 ≡ 7 ∷ 2 ∷ 2 ∷ 5 ∷ []
calls_run = refl

-- A second descriptor, still at position 0, behind a buffer that ends at 7.
abbrev other : OutputFile
other = record {
  active = true;
  compress = false;
  file_pos = λ i. if i == 0 then 7 else 0;
  file_size = 8;
  seq_num = 1;
  buffer = bytes;
  buffer_index = 5;
  buffer_fp = 5;
  buffer_cnt = 2;
  tasks = [];
}

write-EndsAt_example :
    ((fuel : ℕ) × (r : OutputFile × ℕ) × (write fuel setup other bytes 4 1 false ≡ some r))
    ↔ EndsAt other (other.file_pos 1)
write-EndsAt_example =
    write-EndsAt setup other bytes 4 1 false setup-IsSetup
      (record { index = refl; bounded = omega arith }) refl (omega arith) (omega arith)
