-- ===== src/Output/Write.antt =====
-- `write`, `seek` and the last task of `close`, each under `_bufferLock`.
use tazer.Base.{
  ℕ, zero, suc, ◌+◌, ◌-◌, ◌%◌, Bool, not, ◌||◌, if◌then◌else◌, ◌==◌, ltb, update, memcpy, Option,
  none, some,
}
use tazer.Output.Types.{
  u64, Setup, OutputFile, OutputWhence, seek_set, seek_cur, seek_end, other_whence, hand_over,
  flush,
}

-- `memcpy(_buffer + _bufferIndex, buf + from, n)`, with the index and the count after it.
abbrev pub put_buffer : OutputFile → (ℕ → ℕ) → ℕ → ℕ → OutputFile
put_buffer f buf from n = record {
  active = f.active;
  compress = f.compress;
  file_pos = f.file_pos;
  file_size = f.file_size;
  seq_num = f.seq_num;
  buffer = memcpy f.buffer f.buffer_index buf from n;
  buffer_index = (f.buffer_index + n) % u64;
  buffer_fp = f.buffer_fp;
  buffer_cnt = (f.buffer_cnt + n) % u64;
  tasks = f.tasks;
}

-- `Config::outputFileBufferSize - _bufferIndex`.
abbrev pub space_avail : Setup → OutputFile → ℕ
space_avail u f = (u.buffer_size + u64 - f.buffer_index) % u64

-- The condition of the loop.
abbrev pub goes_on : Setup → OutputFile → ℕ → ℕ → ℕ → Bool
goes_on u f fp sent to_send =
    ltb (space_avail u f) to_send || not ((f.buffer_cnt + f.buffer_fp) % u64 == (fp + sent) % u64)

-- How many bytes a round copies.
abbrev pub round_size : Setup → OutputFile → ℕ → ℕ
round_size u f to_send = if ltb to_send (space_avail u f) then to_send else space_avail u f

-- The body of the loop. It leaves `_bufferIndex` where memcpy found it, and flush resets it.
abbrev pub write_round : Setup → OutputFile → (ℕ → ℕ) → ℕ → ℕ → OutputFile
write_round u f buf sent n =
    let full = put_buffer f buf sent n in flush u full ((full.buffer_fp + full.buffer_cnt) % u64)

-- Where the loop stands: the file, `bytesSent` and `bytesToSend`.
pub record Sent : Type 0 where
  pub file : OutputFile
  pub bytes_sent : ℕ
  pub bytes_to_send : ℕ

-- The loop, with the tests of its condition that it may make as fuel; none if they do not suffice.
unfoldable pub write_loop : ℕ → Setup → OutputFile → (ℕ → ℕ) → ℕ → ℕ → ℕ → Option Sent
write_loop zero u f buf fp sent to_send = none
write_loop (suc fuel) u f buf fp sent to_send =
    let n = round_size u f to_send in
    let rest =
      write_loop fuel u (write_round u f buf sent n) buf fp ((sent + n) % u64) (to_send - n) in
    if goes_on u f fp sent to_send
    then rest
    else some (record { file = f; bytes_sent = sent; bytes_to_send = to_send })

-- `_filePos[index] += count` and the size that follows it.
abbrev pub advance_pos : OutputFile → ℕ → ℕ → OutputFile
advance_pos f index count =
    let pos = (f.file_pos index + count) % u64 in
    record {
      active = f.active;
      compress = f.compress;
      file_pos = update f.file_pos index pos;
      file_size = if ltb f.file_size pos then (pos + 1) % u64 else f.file_size;
      seq_num = f.seq_num;
      buffer = f.buffer;
      buffer_index = f.buffer_index;
      buffer_fp = f.buffer_fp;
      buffer_cnt = f.buffer_cnt;
      tasks = f.tasks;
    }

-- The lines behind the loop. `idle` says that `_transferPool->numTasks() == 0`.
abbrev pub write_end : Setup → (ℕ → ℕ) → ℕ → ℕ → Bool → Sent → OutputFile
write_end u buf fp count idle l =
    let put = put_buffer l.file buf l.bytes_sent l.bytes_to_send in
    if idle then flush u put ((fp + count) % u64) else put

-- What `write` returns behind the loop.
abbrev pub write_ended : Setup → (ℕ → ℕ) → ℕ → ℕ → Bool → Option Sent → Option (OutputFile × ℕ)
write_ended u buf fp count idle none = none
write_ended u buf fp count idle (some l) = some (write_end u buf fp count idle l, count)

-- `write`: the file and the number returned.
unfoldable pub write : ℕ → Setup → OutputFile → (ℕ → ℕ) → ℕ → ℕ → Bool → Option (OutputFile × ℕ)
unfolding write_loop
write fuel u f buf count index idle =
    if f.active
    then write_ended u buf (f.file_pos index) count idle
        (write_loop fuel u (advance_pos f index count) buf (f.file_pos index) 0 count)
    else some (f, 0)

-- The cases of `seek`, for a file that has handed its buffer over. A negative offset is its
-- two's complement.
unfoldable pub seek_to : OutputFile → ℕ → OutputWhence → ℕ → ℕ
seek_to f offset seek_set index = offset % u64
seek_to f offset seek_cur index = (f.file_pos index + offset) % u64
seek_to f offset seek_end index = (f.file_size + offset) % u64
seek_to f offset other_whence index = f.file_pos index

-- `_bufferFp` after `seek`.
unfoldable pub seek_fp : OutputFile → ℕ → OutputWhence → ℕ → ℕ
seek_fp f offset seek_set index = seek_to f offset seek_set index
seek_fp f offset seek_cur index = seek_to f offset seek_cur index
seek_fp f offset seek_end index = seek_to f offset seek_end index
seek_fp f offset other_whence index = f.buffer_fp

-- `_filePos[index] = pos`.
abbrev pub move_to : OutputFile → ℕ → ℕ → OutputFile
move_to f index pos = record {
  active = f.active;
  compress = f.compress;
  file_pos = update f.file_pos index pos;
  file_size = f.file_size;
  seq_num = f.seq_num;
  buffer = f.buffer;
  buffer_index = f.buffer_index;
  buffer_fp = f.buffer_fp;
  buffer_cnt = f.buffer_cnt;
  tasks = f.tasks;
}

-- `seek`: the file and the position returned.
unfoldable pub seek_output : Setup → OutputFile → ℕ → OutputWhence → ℕ → OutputFile × ℕ
unfolding seek_to seek_fp
seek_output u f offset whence index =
    let pos = seek_to f offset whence index in
    (move_to (flush u f (seek_fp f offset whence index)) index pos, pos)

-- The first lines of `close`: what is left in the buffer becomes a task.
unfoldable pub close_buffer : Setup → OutputFile → OutputFile
close_buffer u f = if ltb 0 f.buffer_cnt then hand_over u f else f
