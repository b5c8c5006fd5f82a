-- ===== src/File/Types.antt =====
-- The state of inc/tazer/client/InputFile.h and TazerFile.h, the positions of its descriptors and the
-- geometry that `open` computes.
use mathlib.Core.Option
use tazer.Base.{
  ℕ, ◌+◌, ◌/◌, ◌%◌, ◌^◌, Bool, true, false, if◌then◌else◌, ◌==◌, ltb, update, Option, none, some,
}

abbrev pub u32 : ℕ
u32 = 2 ^ 32

abbrev pub u64 : ℕ
u64 = 2 ^ 64

-- `InputFile`: `positions` is the size of the vectors `_filePos` and `_eof`.
pub record File : Type 0 where
  pub active : Bool
  pub blk_size : ℕ
  pub file_size : ℕ
  pub num_blks : ℕ
  pub positions : ℕ
  pub file_pos : ℕ → ℕ
  pub eof : ℕ → Bool

-- `TazerFile::newFilePosIndex`.
unfoldable pub new_file_pos_index : File → File × ℕ
new_file_pos_index f = (
  record {
    active = f.active;
    blk_size = f.blk_size;
    file_size = f.file_size;
    num_blks = f.num_blks;
    positions = f.positions + 1;
    file_pos = update f.file_pos f.positions 0;
    eof = update f.eof f.positions false;
  },
  f.positions % u32,
)

-- `TazerFile::setFilePos` on an index in bounds.
unfoldable pub set_file_pos : File → ℕ → ℕ → File
set_file_pos f index pos = record {
  active = f.active;
  blk_size = f.blk_size;
  file_size = f.file_size;
  num_blks = f.num_blks;
  positions = f.positions;
  file_pos = update f.file_pos index pos;
  eof = f.eof;
}

-- `_eof[index] = v`.
unfoldable pub set_eof : File → ℕ → Bool → File
set_eof f index v = record {
  active = f.active;
  blk_size = f.blk_size;
  file_size = f.file_size;
  num_blks = f.num_blks;
  positions = f.positions;
  file_pos = f.file_pos;
  eof = update f.eof index v;
}

-- The block size and the number of blocks that `open` settles on; nothing where the division is
-- by zero.
unfoldable pub geometry : ℕ → ℕ → Option (ℕ × ℕ)
geometry memory_cache_blocksize file_size =
    let blk_size =
      if ltb file_size memory_cache_blocksize then file_size else memory_cache_blocksize in
    if blk_size == 0
    then none
    else some (
      blk_size,
      (if file_size % blk_size == 0
          then file_size / blk_size % u32
          else (file_size / blk_size + 1) % u32),
    )

-- The fields that a successful `open` sets.
unfoldable pub opened : File → ℕ → ℕ × ℕ → File
opened f file_size g = record {
  active = true;
  blk_size = g.0;
  file_size = file_size;
  num_blks = g.1;
  positions = f.positions;
  file_pos = f.file_pos;
  eof = f.eof;
}

-- `InputFile::open` on a file that is not active, with connections, for the size that the servers
-- report. A size of 0 is stored too, and is a failure to open.
unfoldable pub open_input : ℕ → ℕ → File → Option File
unfolding geometry opened
open_input memory_cache_blocksize file_size f =
    if file_size == 0
    then some (record f { file_size = 0 })
    else Option.map (opened f file_size) (geometry memory_cache_blocksize file_size)

-- `LocalFile::open`, whose size is known from its constructor.
unfoldable pub open_local : ℕ → File → Option File
unfolding geometry opened
open_local memory_cache_blocksize f =
    Option.map (opened f f.file_size) (geometry memory_cache_blocksize f.file_size)

pub data Whence : Type 0 where
  seek_set seek_cur seek_end : Whence

-- `seek`: the offset is signed, and `at + offset` wraps in 64 bits: `offset` is its residue.
unfoldable pub seek : File → ℕ → Whence → ℕ → File × ℕ
unfolding set_file_pos set_eof
seek f offset whence index =
    let pos = target whence in (set_eof (set_file_pos f index pos) index false, pos)
  where
    target : Whence → ℕ
    target seek_set = offset
    target seek_cur =
        let moved = (f.file_pos index + offset) % u64 in
        if ltb f.file_size moved then f.file_size else moved
    target seek_end = (f.file_size + offset) % u64
