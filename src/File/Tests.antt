-- ===== src/File/Tests.antt =====
-- A file of ten bytes in blocks of four, on which the theorems of this component are applied.
use mathlib.Core.List.Permᴰ
use tazer.Base.{
  ℕ, ◌+◌, ◌-◌, ◌*◌, ◌%◌, ◌≤◌, ◌<◌, ◌≡◌, ◌↔◌, true, false, if◌then◌else◌, ◌==◌, ltb, none, some,
  arith, refl,
}
use tazer.File.Types.{File, open_input, open_local}
use tazer.File.Read.{Bytes, Requests, Result, read, copy_block}
use tazer.File.Copy.{IsRange}
use tazer.File.Block.{copy_block-shared}
use tazer.File.Range.{IsOpen}
use tazer.File.Open.{open_input-IsOpen, open_local-none}
use tazer.File.Serve.{Serves}
use tazer.File.Local.{local_read, local_read-content}
use tazer.File.Content.{read-content}

abbrev ten_bytes : File
ten_bytes = record {
  active = true;
  blk_size = 4;
  file_size = 10;
  num_blks = 3;
  positions = 1;
  file_pos = λ _. 3;
  eof = λ _. false;
}

abbrev content : Bytes
content i = i + 100

abbrev zeroes : Bytes
zeroes _ = 0

-- Even blocks are ready at once, odd ones come over the network.
abbrev served : Requests Unit
served = record {
  request_block = λ s blk.
      (s, record { ready = blk % 2 == 0; network = true; bytes = λ j. content (blk * 4 + j) });
  await = λ s blk. (s, record { ready = true; network = true; bytes = λ j. content (blk * 4 + j) });
  buffer_write = λ s blk. s;
  prefetch = λ s start end. s;
  walk = λ blks. blks;
}

served-Serves : Serves served ten_bytes content (λ _. Unit)
served-Serves = record {
  request_keeps = λ s blk i. tt;
  request_serves = λ s blk i r j lt inside. refl;
  await_keeps = λ s blk i. tt;
  await_ready = λ s blk i. refl;
  await_serves = λ s blk i j lt inside. refl;
  write_keeps = λ s blk i. tt;
  prefetch_keeps = λ s start end i. tt;
  walks = λ blks. Permᴰ.refl blks;
}

ten-IsOpen : IsOpen ten_bytes
ten-IsOpen = record {
  is_active = refl;
  some_bytes = omega arith;
  small = omega arith;
  few = omega arith;
  sized = omega arith;
  whole = omega arith;
}

-- Twenty bytes from position 3 on are the seven that are left, of three blocks.
read-content_example :
    (let r : Result Unit = read served ten_bytes 0 20 tt zeroes in
      (r.amount ≡ (if ltb (10 - 3) 20 then 10 - 3 else 20))
      × ((i : ℕ) → i < r.amount → r.buf i ≡ content (3 + i))
      × ((i : ℕ) → r.amount ≤ i → r.buf i ≡ zeroes i)
      × (r.self.file_pos 0 ≡ 3 + r.amount)
      × Unit {0})
read-content_example =
    read-content served ten_bytes content (λ _. Unit) 0 20 tt zeroes served-Serves tt ten-IsOpen
      (omega arith) (omega arith) (omega arith)

seven-IsRange : IsRange 4 3 7 0 2
seven-IsRange = record {
  some_bytes = omega arith;
  small = omega arith;
  asked = omega arith;
  inside = omega arith;
  blocks = omega arith;
  from = omega arith;
  from_end = omega arith;
  to = omega arith;
  to_end = omega arith;
}

copy_block-shared_example :
    (let copied : Bytes = copy_block ten_bytes 0 7 0 3 zeroes content 1 in
      ((2 < 7) → (4 ≤ 3 + 2) → (3 + 2 < 4 + 4) → copied 2 ≡ content (3 + 2 - 4))
      × (¬ ((2 < 7) × (4 ≤ 3 + 2) × (3 + 2 < 4 + 4)) → copied 2 ≡ zeroes 2))
copy_block-shared_example =
    copy_block-shared ten_bytes 0 7 0 2 1 zeroes content seven-IsRange (omega arith) (omega arith) 2

open_input-IsOpen_example :
    (g : File) × (open_input 4 10 ten_bytes ≡ some g)
    × IsOpen g
    × (g.blk_size ≤ 4)
    × (g.file_size ≡ 10)
    × ((i : ℕ) → g.file_pos i ≡ 3)
open_input-IsOpen_example =
    open_input-IsOpen 4 10 ten_bytes (omega arith) (omega arith) (omega arith) (omega arith)
      (omega arith)

open_local-none_example : (open_local 4 ten_bytes ≡ none) ↔ (ten_bytes.file_size ≡ 0)
open_local-none_example = open_local-none 4 ten_bytes (omega arith)

local_read-content_example :
    (let r : Result Unit = local_read served ten_bytes 0 20 tt zeroes in
      (r.amount ≡ (if ltb (10 - 3) 20 then 10 - 3 else 20))
      × ((i : ℕ) → i < r.amount → r.buf i ≡ content (3 + i))
      × ((i : ℕ) → r.amount ≤ i → r.buf i ≡ zeroes i)
      × (r.self.file_pos 0 ≡ 3 + r.amount)
      × Unit {0})
local_read-content_example =
    local_read-content served ten_bytes content (λ _. Unit) 0 20 tt zeroes served-Serves tt
      ten-IsOpen (omega arith) (omega arith) (omega arith)
