-- ===== src/Output/Loop.antt =====
-- The loop of `write` on a buffer that ends where the write begins.
use tazer.Base.{
  ℕ, zero, suc, ◌+◌, ◌-◌, ◌%◌, ◌^◌, ◌<◌, ◌≤◌, ◌≡◌, Bool, true, false, ◌||◌, if◌then◌else◌, ◌==◌,
  ltb, memcpy, some, arith, refl, ◌∙◌, ap, ==_refl, dec_lt, lt→ltb,
}
use tazer.Output.Types.{Setup, OutputFile}
use tazer.Output.Write.{Sent, put_buffer, space_avail, goes_on, round_size, write_round, write_loop}
use tazer.Output.View.{
  view, view-flush, IsOutput, IsSetup, put_buffer-cnt, view-put_buffer, memcpy-parts,
}

-- The bytes behind the buffer are those at `pos`.
abbrev pub EndsAt : OutputFile → ℕ → Type 0
EndsAt f pos = f.buffer_fp + f.buffer_cnt ≡ pos

-- What neither the loop nor a flush changes.
pub record Keeps (f g : OutputFile) : Type 0 where
  pub active : g.active ≡ f.active
  pub file_pos : g.file_pos ≡ f.file_pos
  pub file_size : g.file_size ≡ f.file_size

-- The loop that stops at `l` when it starts at `f`, with `sent` and `to_send` bytes of `buf`.
pub record Ended (u : Setup) (f : OutputFile) (buf : ℕ → ℕ) (fp sent to_send : ℕ) (l : Sent)
    : Type 0 where
  pub valid : IsOutput u l.file
  pub ends : EndsAt l.file (fp + l.bytes_sent)
  pub total : l.bytes_sent + l.bytes_to_send ≡ sent + to_send
  pub fits : u.message_offset + l.file.buffer_cnt + l.bytes_to_send ≤ u.buffer_size
  pub keeps : Keeps f l.file
  pub shown :
      (base : ℕ → ℕ)
      → memcpy (view u l.file base) (fp + l.bytes_sent) buf l.bytes_sent l.bytes_to_send
        ≡ memcpy (view u f base) (fp + sent) buf sent to_send

-- The rounds that are left.
abbrev rounds : OutputFile → ℕ → ℕ
rounds f to_send = to_send + (if f.buffer_cnt == 0 then 0 else 1)

module _ (u : Setup) (wide : IsSetup u) (buf : ℕ → ℕ) (fp : ℕ) where
  or_false : (b : Bool) → (b || false) ≡ b
  or_false true = refl
  or_false false = refl

  space_avail_lem :
      (f : OutputFile) → IsOutput u f → space_avail u f ≡ u.buffer_size - f.buffer_index
  space_avail_lem f h = omega (arith, h.index, h.bounded, wide.small)

  -- In step, the loop goes on exactly while the bytes do not fit.
  goes_on-fits :
      (f : OutputFile) (sent to_send : ℕ)
      → IsOutput u f
      → EndsAt f (fp + sent)
      → goes_on u f fp sent to_send ≡ ltb (u.buffer_size - f.buffer_index) to_send
  goes_on-fits f sent to_send h e =
      let same : f.buffer_cnt + f.buffer_fp ≡ fp + sent = omega (arith, e) in
      rw (space_avail_lem f h, same, ==_refl) (or_false _)

  module _ (f : OutputFile) (sent n rest : ℕ) (h : IsOutput u f) (e : EndsAt f (fp + sent))
      (room : fp + sent + (n + rest) < 2 ^ 64)
      (le : u.message_offset + f.buffer_cnt + n ≤ u.buffer_size) where
    abbrev next : OutputFile
    next = write_round u f buf sent n

    next-IsOutput : IsOutput u next
    next-IsOutput = record { index = omega arith; bounded = omega (arith, wide.room) }

    next-EndsAt : EndsAt next (fp + (sent + n))
    next-EndsAt = omega (arith, e, room, put_buffer-cnt u f h wide buf sent n le)

    next-shown :
        (base : ℕ → ℕ)
        → memcpy (view u next base) (fp + (sent + n)) buf (sent + n) rest
          ≡ memcpy (view u f base) (fp + sent) buf sent (n + rest)
    next-shown base =
        let here : fp + (sent + n) ≡ fp + sent + n = omega arith in
        let one : view u next base ≡ memcpy (view u f base) (fp + sent) buf sent n =
          view-flush u (put_buffer f buf sent n) _ base
          ∙ view-put_buffer u f h wide buf sent n le base
          ∙ ap (λ z. memcpy (view u f base) z buf sent n) e in
        rw (one, here) (memcpy-parts (view u f base) (fp + sent) buf sent n rest)

    next-Ended :
        (l : Sent) (to_send : ℕ)
        → n + rest ≡ to_send
        → Ended u next buf fp (sent + n) rest l
        → Ended u f buf fp sent to_send l
    next-Ended l to_send split d = record {
      valid = d.valid;
      ends = d.ends;
      total = omega (arith, d.total, split);
      fits = d.fits;
      keeps = record {
        active = d.keeps.active;
        file_pos = d.keeps.file_pos;
        file_size = d.keeps.file_size;
      };
      shown = λ base.
          d.shown base
          ∙ next-shown base
          ∙ ap (λ z. memcpy (view u f base) (fp + sent) buf sent z) split;
    }

  pub write_loop_ends :
      (fuel : ℕ) (f : OutputFile) (sent to_send : ℕ)
      → IsOutput u f
      → EndsAt f (fp + sent)
      → fp + sent + to_send < 2 ^ 64
      → rounds f to_send < fuel
      → (l : Sent) × (write_loop fuel u f buf fp sent to_send ≡ some l)
        × Ended u f buf fp sent to_send l
  unfolding write_loop
  write_loop_ends zero f sent to_send h e room lt = absurd (omega arith)
  write_loop_ends (suc fuel) f sent to_send h e room lt =
      elim (dec_lt (u.buffer_size - f.buffer_index) to_send) [
        | yes p ↦
            let n = u.buffer_size - f.buffer_index in
            let rest = to_send - n in
            let le : u.message_offset + f.buffer_cnt + n ≤ u.buffer_size =
              omega (arith, h.index, h.bounded) in
            let split : n + rest ≡ to_send = omega (arith, p) in
            let size : round_size u f to_send ≡ n = ground (arith, space_avail_lem f h, p) in
            let after : (sent + n) % (2 ^ 64) ≡ sent + n = omega (arith, room, p) in
            let fit : fp + sent + (n + rest) < 2 ^ 64 = omega (arith, room, split) in
            let less : rest + 0 < fuel = ground (arith, lt, p, h.index, wide.room) in
            let (l, q, d) =
              write_loop_ends fuel (write_round u f buf sent n) (sent + n) rest
                (next-IsOutput f sent n rest h e fit le) (next-EndsAt f sent n rest h e fit le)
                (omega (arith, fit)) less in
            rw (goes_on-fits f sent to_send h e, lt→ltb n to_send p, size, after)
              (l, q, next-Ended f sent n rest h e fit le l to_send split d)
        | no p ↦
            let stop : ltb (u.buffer_size - f.buffer_index) to_send ≡ false = ground arith in
            rw (goes_on-fits f sent to_send h e, stop)
              (
                record { file = f; bytes_sent = sent; bytes_to_send = to_send },
                refl,
                record {
                  valid = h;
                  ends = e;
                  total = refl;
                  fits = omega (arith, h.index, h.bounded, p);
                  keeps = record { active = refl; file_pos = refl; file_size = refl };
                  shown = λ base. refl;
                },
              )
      ]
