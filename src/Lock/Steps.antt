-- ===== src/Lock/Steps.antt =====
-- The operations of `ReaderWriterLock` as the atomic steps of their threads.
use tazer.Base.{ℕ, zero, suc, ◌+◌, ◌-◌, ◌%◌, ◌^◌, if◌then◌else◌, ◌==◌, List, [], ◌∷◌, ◌++◌}

abbrev pub u32 : ℕ
u32 = 2 ^ 32

abbrev pub u64 : ℕ
u64 = 2 ^ 64

-- `_readers`, `_writers`, `_cnt` and `_cur`.
pub record Lock : Type 0 where
  pub readers : ℕ
  pub writers : ℕ
  pub cnt : ℕ
  pub cur : ℕ

-- `ReaderWriterLock::ReaderWriterLock`.
abbrev pub new_lock : Lock
new_lock = record { readers = 0; writers = 0; cnt = 0; cur = 0 }

pub data Op : Type 0 where
  reader_lock writer_lock fair_writer_lock try_writer_lock cowardly_try_writer_lock
        try_reader_lock :
      Op

-- Where a thread stands: the next atomic operation of the function that it is in, or the section
-- that it is in between two calls.
pub data Pc : Type 0 where
  idle : Pc
  -- `readerLock`.
  read_wait read_add read_check read_back : Pc
  -- `tryReaderLock`.
  try_read_test try_read_add try_read_check try_read_back : Pc
  reading : Pc
  -- `writerLock`, `tryWriterLock` and `cowardlyTryWriterLock`.
  write_swap write_drain : Pc
  try_write_swap : Pc
  cowardly_swap cowardly_check cowardly_store : Pc
  writing : Pc
  -- `fairWriterLock` and `fairWriterUnlock`.
  fair_take : Pc
  fair_test fair_swap : ℕ → Pc
  fair_drain : Pc
  fair_writing fair_bump : Pc

-- A call: the first operation of a function.
abbrev pub begin : Op → Pc
begin reader_lock = read_wait
begin writer_lock = write_swap
begin fair_writer_lock = fair_take
begin try_writer_lock = try_write_swap
begin cowardly_try_writer_lock = cowardly_swap
begin try_reader_lock = try_read_test

-- `_readers.fetch_add(1)`.
abbrev pub add_reader : Lock → Lock
add_reader l = record {
  readers = (l.readers + 1) % u32;
  writers = l.writers;
  cnt = l.cnt;
  cur = l.cur;
}

-- `_readers.fetch_sub(1)`.
abbrev pub sub_reader : Lock → Lock
sub_reader l = record {
  readers = (l.readers + u32 - 1) % u32;
  writers = l.writers;
  cnt = l.cnt;
  cur = l.cur;
}

-- `_writers.store(v)`, and what `_writers.exchange(v)` leaves.
abbrev pub set_writers : ℕ → Lock → Lock
set_writers v l = record { readers = l.readers; writers = v; cnt = l.cnt; cur = l.cur }

-- The next atomic operation of a thread, and where it stands after it. In a section, the next
-- operation is the one that leaves it: `readerUnlock`, `writerUnlock` or `fairWriterUnlock`.
unfoldable pub advance : Pc → Lock → Lock × Pc
advance idle l = (l, idle)
advance read_wait l = (l, if l.writers == 0 then read_add else read_wait)
advance read_add l = (add_reader l, read_check)
advance read_check l = (l, if l.writers == 0 then reading else read_back)
advance read_back l = (sub_reader l, read_wait)
advance try_read_test l = (l, if l.writers == 0 then try_read_add else idle)
advance try_read_add l = (add_reader l, try_read_check)
advance try_read_check l = (l, if l.writers == 0 then reading else try_read_back)
advance try_read_back l = (sub_reader l, idle)
advance reading l = (sub_reader l, idle)
advance write_swap l = (set_writers 1 l, if l.writers == 1 then write_swap else write_drain)
advance write_drain l = (l, if l.readers == 0 then writing else write_drain)
advance try_write_swap l = (set_writers 1 l, if l.writers == 0 then write_drain else idle)
advance cowardly_swap l = (set_writers 1 l, if l.writers == 0 then cowardly_check else idle)
advance cowardly_check l = (l, if l.readers == 0 then writing else cowardly_store)
advance cowardly_store l = (set_writers 0 l, idle)
advance writing l = (set_writers 0 l, idle)
advance fair_take l = (
  record { readers = l.readers; writers = l.writers; cnt = (l.cnt + 1) % u64; cur = l.cur },
  fair_test l.cnt,
)
advance (fair_test my) l = (l, if my == l.cur then fair_test my else fair_swap my)
advance (fair_swap my) l = (set_writers 1 l, if l.writers == 1 then fair_test my else fair_drain)
advance fair_drain l = (l, if l.readers == 0 then fair_writing else fair_drain)
advance fair_writing l = (set_writers 0 l, fair_bump)
advance fair_bump l = (
  record { readers = l.readers; writers = l.writers; cnt = l.cnt; cur = (l.cur + 1) % u64 },
  idle,
)

-- One step of the system: some thread starts a call, or takes its next operation.
pub data Step : Lock → List Pc → Lock → List Pc → Type 0 where
  call : {l : Lock} (xs ys : List Pc) (op : Op) → Step l (xs ++ idle ∷ ys) l (xs ++ begin op ∷ ys)
  go :
      {l : Lock} (xs ys : List Pc) (p : Pc)
      → Step l (xs ++ p ∷ ys) (advance p l).0 (xs ++ (advance p l).1 ∷ ys)

unfoldable pub idles : ℕ → List Pc
idles zero = []
idles (suc n) = idle ∷ idles n

-- What `n` idle threads reach from a new lock.
pub data Reach (n : ℕ) : Lock → List Pc → Type 0 where
  start : Reach n new_lock (idles n)
  more : {l l' : Lock} {ts ts' : List Pc} → Reach n l ts → Step l ts l' ts' → Reach n l' ts'
