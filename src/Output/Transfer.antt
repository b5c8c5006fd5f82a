-- ===== src/Output/Transfer.antt =====
-- The tasks of `addTransferTask` and `addCompressTask` in their pools, as the steps of the workers.
-- A task is its sequence number; a step is one access to a queue or to `_sendNum`. Between two steps
-- of a worker the others may run, and a worker may take any task that waits.
use tazer.Base.{ℕ, ◌+◌, ◌%◌, ◌≡◌, ◌≢◌, List, [], ◌∷◌, ◌++◌}
use tazer.Output.Types.{u32}

-- `_seqNum` and `_sendNum`, which wrap at 32 bits, the tasks in the two pools, those that a
-- worker holds before its test of `_sendNum`, those that it is sending behind it, and the tasks whose
-- turn has passed, in the order in which their messages were sent (also where the send failed: the
-- code goes on to the next number then too).
pub record Transfers : Type 0 where
  pub next : ℕ
  pub send_num : ℕ
  pub compressing : List ℕ
  pub waiting : List ℕ
  pub running : List ℕ
  pub sending : List ℕ
  pub sent : List ℕ

abbrev pub no_transfers : Transfers
no_transfers = record {
  next = 0;
  send_num = 0;
  compressing = [];
  waiting = [];
  running = [];
  sending = [];
  sent = [];
}

-- A step, and the number of tasks that it hands over.
pub data TransferStep : ℕ → Transfers → Transfers → Type 0 where
  -- `addTransferTask` by `write`, `seek` or `close`.
  hand_transfer :
      (s : Transfers)
      → TransferStep 1 s (record s { next = (s.next + 1) % u32; waiting = s.next ∷ s.waiting })
  -- `addCompressTask` by `write`, `seek` or `close`.
  hand_compress :
      (s : Transfers)
      → TransferStep 1 s
          (record s { next = (s.next + 1) % u32; compressing = s.next ∷ s.compressing })
  -- A worker of the decompression pool takes a task, compresses, and calls `addTransferTask`.
  compressed :
      (s : Transfers) (xs : List ℕ) (x : ℕ) (ys : List ℕ)
      → s.compressing ≡ xs ++ x ∷ ys
      → TransferStep 0 s (record s { compressing = xs ++ ys; waiting = x ∷ s.waiting })
  -- A worker of the transfer pool takes a task.
  taken :
      (s : Transfers) (xs : List ℕ) (x : ℕ) (ys : List ℕ)
      → s.waiting ≡ xs ++ x ∷ ys
      → TransferStep 0 s (record s { waiting = xs ++ ys; running = x ∷ s.running })
  -- `seqNum == _sendNum.load()` holds.
  passed :
      (s : Transfers) (xs : List ℕ) (x : ℕ) (ys : List ℕ)
      → s.running ≡ xs ++ x ∷ ys
      → x ≡ s.send_num
      → TransferStep 0 s (record s { running = xs ++ ys; sending = x ∷ s.sending })
  -- It does not, and the task is added again.
  failed :
      (s : Transfers) (xs : List ℕ) (x : ℕ) (ys : List ℕ)
      → s.running ≡ xs ++ x ∷ ys
      → x ≢ s.send_num
      → TransferStep 0 s (record s { running = xs ++ ys; waiting = x ∷ s.waiting })
  -- The message has been sent, and `_sendNum.fetch_add(1)`.
  finished :
      (s : Transfers) (xs : List ℕ) (x : ℕ) (ys : List ℕ)
      → s.sending ≡ xs ++ x ∷ ys
      → TransferStep 0 s (record s {
        send_num = (s.send_num + 1) % u32;
        sending = xs ++ ys;
        sent = s.sent ++ x ∷ [];
      })

-- The states that are reached when `n` tasks were handed over.
pub data TransferReach : ℕ → Transfers → Type 0 where
  start : TransferReach 0 no_transfers
  more :
      {s t : Transfers} (n k : ℕ) → TransferReach n s → TransferStep k s t → TransferReach (k + n) t
