-- ===== src/Output/Types.antt =====
-- The state of an `OutputFile`, and the tasks that it hands to its pools.
use tazer.Base.{ℕ, ◌+◌, ◌%◌, ◌^◌, Bool, false, List, [], ◌∷◌, ◌++◌}

abbrev pub u32 : ℕ
u32 = 2 ^ 32

abbrev pub u64 : ℕ
u64 = 2 ^ 64

-- `Config::outputFileBufferSize`, `_messageOffset` (the packet's header and the name in front of the
-- data) and the bytes that a buffer from `new` holds.
pub record Setup : Type 0 where
  pub buffer_size : ℕ
  pub message_offset : ℕ
  pub fresh : ℕ → ℕ

-- What the lambda of `addCompressTask` (where `is_compress`) or of `addTransferTask` has captured.
pub record Task : Type 0 where
  pub is_compress : Bool
  pub buf : ℕ → ℕ
  pub size : ℕ
  pub fp : ℕ
  pub seq_num : ℕ

-- `_active`, `_compress`, `_filePos`, `_fileSize`, `_seqNum`, the buffer with its index, position
-- and count, and the tasks in the order in which they were handed over.
pub record OutputFile : Type 0 where
  pub active : Bool
  pub compress : Bool
  pub file_pos : ℕ → ℕ
  pub file_size : ℕ
  pub seq_num : ℕ
  pub buffer : ℕ → ℕ
  pub buffer_index : ℕ
  pub buffer_fp : ℕ
  pub buffer_cnt : ℕ
  pub tasks : List Task

pub data OutputWhence : Type 0 where
  seek_set seek_cur seek_end other_whence : OutputWhence

-- The constructor, up to its call of `open`, which sets `active`, with the first descriptor's
-- position.
abbrev pub new_output_file : Setup → Bool → OutputFile
new_output_file u compress = record {
  active = false;
  compress = compress;
  file_pos = λ i. 0;
  file_size = 0;
  seq_num = 0;
  buffer = u.fresh;
  buffer_index = u.message_offset;
  buffer_fp = 0;
  buffer_cnt = 0;
  tasks = [];
}

-- A task for the buffer with its count and position, and a new buffer in its place: the lines that
-- `write`, `seek` and `close` share.
abbrev pub hand_over : Setup → OutputFile → OutputFile
hand_over u f = record {
  active = f.active;
  compress = f.compress;
  file_pos = f.file_pos;
  file_size = f.file_size;
  seq_num = (f.seq_num + 1) % u32;
  buffer = u.fresh;
  buffer_index = f.buffer_index;
  buffer_fp = f.buffer_fp;
  buffer_cnt = f.buffer_cnt;
  tasks =
      f.tasks
      ++ record {
        is_compress = f.compress;
        buf = f.buffer;
        size = f.buffer_cnt;
        fp = f.buffer_fp;
        seq_num = f.seq_num;
      }
        ∷ [];
}

-- `hand_over`, then `_bufferIndex = _messageOffset`, `_bufferCnt = 0` and the position of the next
-- byte.
abbrev pub flush : Setup → OutputFile → ℕ → OutputFile
flush u f next_fp = record {
  active = f.active;
  compress = f.compress;
  file_pos = f.file_pos;
  file_size = f.file_size;
  seq_num = (f.seq_num + 1) % u32;
  buffer = u.fresh;
  buffer_index = u.message_offset;
  buffer_fp = next_fp;
  buffer_cnt = 0;
  tasks = (hand_over u f).tasks;
}
