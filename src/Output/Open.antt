-- ===== src/Output/Open.antt =====
-- `open` and `openFileOnServer`, over what the attempts at the server give.
use tazer.Base.{ℕ, zero, suc, ◌+◌, Bool, true, not, ◌&&◌, if◌then◌else◌, Option, none, some}
use tazer.Output.Types.{OutputFile}

-- The loop of `openFileOnServer` from attempt `i` on: an attempt is none if the message was not sent
-- or not answered, and the size that the answer holds otherwise.
unfoldable pub server_size : ℕ → (ℕ → Option ℕ) → ℕ → ℕ → ℕ
server_size zero attempt i size = size
server_size (suc left) attempt i size = answered (attempt i) (server_size left attempt (i + 1) size)
  where
    answered : Option ℕ → ℕ → ℕ
    answered none rest = rest
    answered (some n) rest = n

-- `openFileOnServer`: what it returns, and `_fileSize`.
unfoldable pub open_file_on_server : ℕ → (ℕ → Option ℕ) → ℕ → Bool × ℕ
unfolding server_size
open_file_on_server socket_retry attempt size = (true, server_size socket_retry attempt 0 size)

-- `open`.
unfoldable pub open_output : OutputFile → Bool → ℕ → (ℕ → Option ℕ) → OutputFile
unfolding open_file_on_server
open_output f has_connections socket_retry attempt =
    let r = open_file_on_server socket_retry attempt f.file_size in
    if has_connections && not f.active
    then record {
      active = r.0;
      compress = f.compress;
      file_pos = f.file_pos;
      file_size = r.1;
      seq_num = f.seq_num;
      buffer = f.buffer;
      buffer_index = f.buffer_index;
      buffer_fp = f.buffer_fp;
      buffer_cnt = f.buffer_cnt;
      tasks = f.tasks;
    }
    else f
