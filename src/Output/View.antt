-- ===== src/Output/View.antt =====
-- The file as it stands when all tasks and the buffer have been stored at their positions.
use tazer.Base.{
  ◌^◌, ℕ, ◌+◌, ◌<◌, ◌≤◌, ◌≡◌, List, [], ◌∷◌, ◌++◌, memcpy, memcpy-out, fun_ext, arith, refl, ◌∙◌,
}
use tazer.Output.Types.{Setup, Task, OutputFile, flush}
use tazer.Output.Write.{put_buffer}

pub memcpy-zero : (a : ℕ → ℕ) (at : ℕ) (s : ℕ → ℕ) (from : ℕ) → memcpy a at s from 0 ≡ a
memcpy-zero a at s from = fun_ext λ i. memcpy-out a at s from 0 i (λ h. omega (arith, h.0, h.1))

-- Bytes put behind `c` bytes of a buffer are stored behind those.
memcpy-behind :
    (a : ℕ → ℕ) (at : ℕ) (b : ℕ → ℕ) (off c : ℕ) (s : ℕ → ℕ) (from n : ℕ)
    → memcpy a at (memcpy b (off + c) s from n) off (c + n)
      ≡ memcpy (memcpy a at b off c) (at + c) s from n
memcpy-behind a at b off c s from n = fun_ext λ i. ground arith

-- Storing bytes in two parts is storing them at once.
pub memcpy-parts :
    (a : ℕ → ℕ) (at : ℕ) (s : ℕ → ℕ) (from n m : ℕ)
    → memcpy (memcpy a at s from n) (at + n) s (from + n) m ≡ memcpy a at s from (n + m)
memcpy-parts a at s from n m = fun_ext λ i. ground arith

-- What a file `base` holds when the tasks are put at their positions, in their order.
unfoldable pub store_all : Setup → List Task → (ℕ → ℕ) → ℕ → ℕ
store_all u [] base = base
store_all u (t ∷ ts) base = store_all u ts (memcpy base t.fp t.buf u.message_offset t.size)

-- The same with what still stands in the buffer.
abbrev pub view : Setup → OutputFile → (ℕ → ℕ) → ℕ → ℕ
view u f base = memcpy (store_all u f.tasks base) f.buffer_fp f.buffer u.message_offset f.buffer_cnt

pub store_all-append :
    (u : Setup) (ts : List Task) (t : Task) (base : ℕ → ℕ)
    → store_all u (ts ++ t ∷ []) base
      ≡ memcpy (store_all u ts base) t.fp t.buf u.message_offset t.size
unfolding store_all
store_all-append u [] t base = refl
store_all-append u (x ∷ ts) t base = store_all-append u ts t _

-- A flush stores nothing new.
pub view-flush :
    (u : Setup) (f : OutputFile) (fp : ℕ) (base : ℕ → ℕ)
    → view u (flush u f fp) base ≡ view u f base
view-flush u f fp base =
    memcpy-zero _ fp u.fresh u.message_offset ∙ store_all-append u f.tasks _ base

-- The buffer is filled from the offset on, up to its count and within its size.
pub record IsOutput (u : Setup) (f : OutputFile) : Type 0 where
  pub index : f.buffer_index ≡ u.message_offset + f.buffer_cnt
  pub bounded : u.message_offset + f.buffer_cnt ≤ u.buffer_size

-- The buffer has room for data and its size is a 64-bit number.
pub record IsSetup (u : Setup) : Type 0 where
  pub room : u.message_offset < u.buffer_size
  pub small : u.buffer_size < 2 ^ 64

module _ (u : Setup) (f : OutputFile) (h : IsOutput u f) (wide : IsSetup u) (buf : ℕ → ℕ)
    (from n : ℕ) (le : u.message_offset + f.buffer_cnt + n ≤ u.buffer_size) where
  pub put_buffer-cnt : (put_buffer f buf from n).buffer_cnt ≡ f.buffer_cnt + n
  put_buffer-cnt = omega (arith, wide.small, le)

  pub put_buffer-IsOutput : IsOutput u (put_buffer f buf from n)
  put_buffer-IsOutput = record {
    index = omega (arith, wide.small, le, h.index);
    bounded = omega (arith, wide.small, le);
  }

  -- Bytes put in the buffer are stored behind those that it holds.
  pub view-put_buffer :
      (base : ℕ → ℕ)
      → view u (put_buffer f buf from n) base
        ≡ memcpy (view u f base) (f.buffer_fp + f.buffer_cnt) buf from n
  view-put_buffer base =
      rw (put_buffer-cnt, h.index)
        (memcpy-behind _ f.buffer_fp f.buffer u.message_offset f.buffer_cnt buf from n)
