-- ===== src/Output/Refine.antt =====
-- Writes and seeks of one descriptor against a plain file with a position.
use tazer.Base.{
  if_true, ℕ, ◌+◌, ◌%◌, ◌^◌, ◌<◌, ◌≡◌, Bool, true, false, update_self, memcpy, some, arith, refl,
  ◌∙◌, ap,
}
use tazer.Output.Types.{
  u64, Setup, OutputFile, OutputWhence, seek_set, seek_cur, seek_end, other_whence, flush,
}
use tazer.Output.Write.{
  Sent, put_buffer, advance_pos, write_end, write_ended, write, move_to, seek_to, seek_fp,
  seek_output,
}
use tazer.Output.View.{
  view, view-flush, IsOutput, IsSetup, put_buffer-cnt, put_buffer-IsOutput, view-put_buffer,
}
use tazer.Output.Loop.{EndsAt, Ended, write_loop_ends}

-- A file with one position.
pub record Plain : Type 0 where
  pub content : ℕ → ℕ
  pub pos : ℕ

pub data Call : Type 0 where
  write_call : (buf : ℕ → ℕ) (count : ℕ) (idle : Bool) → Call
  seek_call : (offset : ℕ) (whence : OutputWhence) → Call

abbrev pub plain_write : Plain → (ℕ → ℕ) → ℕ → Plain
plain_write p buf count = record {
  content = memcpy p.content p.pos buf 0 count;
  pos = p.pos + count;
}

-- Seeks from the start and from the position; the others are not calls below.
abbrev pub plain_target : Plain → ℕ → OutputWhence → ℕ
plain_target p offset seek_set = offset % u64
plain_target p offset seek_cur = (p.pos + offset) % u64
plain_target p offset seek_end = p.pos
plain_target p offset other_whence = p.pos

abbrev pub plain_call : Plain → Call → Plain × ℕ
plain_call p (write_call buf count idle) = (plain_write p buf count, count)
plain_call p (seek_call offset whence) =
    let pos = plain_target p offset whence in (record { content = p.content; pos = pos }, pos)

-- A write that no 64-bit number overflows in, and a seek from the start or from the position.
-- (`_fileSize`, from which SEEK_END starts, is not the size of the file: it is one more than the end of
-- the last write that passed it.)
abbrev pub IsCall : Plain → Call → Type 0
IsCall p (write_call buf count idle) = p.pos + count + 1 < 2 ^ 64
IsCall p (seek_call offset seek_set) = Unit
IsCall p (seek_call offset seek_cur) = Unit
IsCall p (seek_call offset seek_end) = ⊥
IsCall p (seek_call offset other_whence) = ⊥

-- The open file shows the plain one at descriptor `index`, over a file `base` of the server.
pub record Shows (u : Setup) (base : ℕ → ℕ) (index : ℕ) (f : OutputFile) (p : Plain) : Type 0 where
  pub active : f.active ≡ true
  pub valid : IsOutput u f
  pub ends : EndsAt f p.pos
  pub position : f.file_pos index ≡ p.pos
  pub shown : view u f base ≡ p.content

module _ (u : Setup) (wide : IsSetup u) (base : ℕ → ℕ) (index : ℕ) where
  flush-IsOutput : (f : OutputFile) (fp : ℕ) → IsOutput u (flush u f fp)
  flush-IsOutput f fp = record { index = omega arith; bounded = omega (arith, wide.room) }

  flush-Shows :
      (f : OutputFile) (p : Plain) (fp : ℕ)
      → Shows u base index f p
      → fp ≡ p.pos
      → Shows u base index (flush u f fp) p
  flush-Shows f p fp h e = record {
    active = h.active;
    valid = flush-IsOutput f fp;
    ends = omega (arith, e);
    position = h.position;
    shown = view-flush u f fp base ∙ h.shown;
  }

  moved :
      (f : OutputFile) (p : Plain) (pos : ℕ)
      → Shows u base index f p
      → Shows u base index
          (move_to (flush u f pos) index pos)
          (record { content = p.content; pos = pos })
  moved f p pos h = record {
    active = h.active;
    valid = record { index = omega arith; bounded = omega (arith, wide.room) };
    ends = omega arith;
    position = update_self f.file_pos index pos;
    shown = view-flush u f pos base ∙ h.shown;
  }

  -- The bytes behind the loop complete the write.
  module _ (f : OutputFile) (p : Plain) (buf : ℕ → ℕ) (count : ℕ) (l : Sent)
      (h : Shows u base index f p) (small : p.pos + count + 1 < 2 ^ 64)
      (d : Ended u (advance_pos f index count) buf (f.file_pos index) 0 count l) where
    abbrev put : OutputFile
    put = put_buffer l.file buf l.bytes_sent l.bytes_to_send

    put-position : put.file_pos index ≡ p.pos + count
    put-position =
        let moved : (f.file_pos index + count) % u64 ≡ p.pos + count =
          omega (arith, h.position, small) in
        ap (λ (g : ℕ → ℕ). g index) d.keeps.file_pos
        ∙ update_self f.file_pos index ((f.file_pos index + count) % u64)
        ∙ moved

    put-shown : view u put base ≡ memcpy p.content p.pos buf 0 count
    put-shown =
        let start : f.file_pos index + 0 ≡ p.pos = omega (arith, h.position) in
        view-put_buffer u l.file d.valid wide buf l.bytes_sent l.bytes_to_send d.fits base
        ∙ ap (λ z. memcpy (view u l.file base) z buf l.bytes_sent l.bytes_to_send) d.ends
        ∙ d.shown base
        ∙ ap (λ z. memcpy (view u f base) z buf 0 count) start
        ∙ ap (λ z. memcpy z p.pos buf 0 count) h.shown

    put-Shows : Shows u base index put (plain_write p buf count)
    put-Shows = record {
      active = d.keeps.active ∙ h.active;
      valid = put_buffer-IsOutput u l.file d.valid wide buf l.bytes_sent l.bytes_to_send d.fits;
      ends = omega (
        arith,
        d.ends,
        d.total,
        h.position,
        put_buffer-cnt u l.file d.valid wide buf l.bytes_sent l.bytes_to_send d.fits,
      );
      position = put-position;
      shown = put-shown;
    }

    write_end-Shows :
        (idle : Bool)
        → Shows u base index
            (write_end u buf (f.file_pos index) count idle l)
            (plain_write p buf count)
    write_end-Shows false = put-Shows
    write_end-Shows true =
        flush-Shows put (plain_write p buf count) _ put-Shows (omega (arith, h.position, small))

  -- One write returns, with its count, and shows the plain one.
  pub write-Shows :
      (f : OutputFile) (p : Plain) (buf : ℕ → ℕ) (count : ℕ) (idle : Bool)
      → Shows u base index f p
      → p.pos + count + 1 < 2 ^ 64
      → (g : OutputFile) × (write (count + 2) u f buf count index idle ≡ some (g, count))
        × Shows u base index g (plain_write p buf count)
  unfolding write
  write-Shows f p buf count idle h small =
      let ends : EndsAt (advance_pos f index count) (f.file_pos index + 0) =
        omega (arith, h.ends, h.position) in
      let valid : IsOutput u (advance_pos f index count) = record {
        index = h.valid.index;
        bounded = h.valid.bounded;
      } in
      let (l, e, d) =
        write_loop_ends u wide buf (f.file_pos index) (count + 2) (advance_pos f index count) 0
          count valid ends (omega (arith, h.position, small)) (ground arith) in
      (
        write_end u buf (f.file_pos index) count idle l,
        if_true f.active _ _ h.active ∙ ap (write_ended u buf (f.file_pos index) count idle) e,
        write_end-Shows f p buf count l h small d idle,
      )

  -- A seek moves both, and answers alike.
  pub seek-Shows :
      (f : OutputFile) (p : Plain) (offset : ℕ) (whence : OutputWhence)
      → Shows u base index f p
      → IsCall p (seek_call offset whence)
      → Shows u base index
          (seek_output u f offset whence index).0
          (plain_call p (seek_call offset whence)).0
        × ((seek_output u f offset whence index).1 ≡ (plain_call p (seek_call offset whence)).1)
  unfolding seek_output seek_to seek_fp
  seek-Shows f p offset seek_set h known = (moved f p (offset % u64) h, refl)
  seek-Shows f p offset seek_cur h known =
      let same : (f.file_pos index + offset) % u64 ≡ (p.pos + offset) % u64 =
        omega (arith, h.position) in
      rw (same) (moved f p _ h, refl)
  seek-Shows f p offset seek_end h known = absurd known
  seek-Shows f p offset other_whence h known = absurd known
