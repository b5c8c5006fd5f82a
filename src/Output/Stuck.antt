-- ===== src/Output/Stuck.antt =====
-- Where a write returns at all: the loop keeps the distance between the end of the buffer and the
-- bytes that it sends.
use mathlib.Core.Option.{none-ne-some}
use native.Mathlib.Decide.{ℕ_discrete}
use tazer.Base.{
  if_true, ℕ, zero, suc, ◌+◌, ◌%◌, ◌^◌, ◌<◌, ◌≡◌, ◌≢◌, ◌↔◌, Bool, true, false, ◌||◌, ltb, none,
  some, arith, refl, sym, ◌∙◌, ap, ==_ne,
}
use tazer.Output.Types.{u64, Setup, OutputFile}
use tazer.Output.Write.{
  round_size, write_round, write_loop, write_ended, write, space_avail, advance_pos,
}
use tazer.Output.View.{IsOutput, IsSetup}
use tazer.Output.Loop.{EndsAt, write_loop_ends}

or_true : (b : Bool) → (b || true) ≡ true
or_true true = refl
or_true false = refl

module _ (u : Setup) (buf : ℕ → ℕ) (fp : ℕ) where
  abbrev IsApart : OutputFile → ℕ → Type 0
  IsApart f sent = (f.buffer_cnt + f.buffer_fp) % u64 ≢ (fp + sent) % u64

  write_round-IsApart :
      (f : OutputFile) (sent n : ℕ)
      → IsApart f sent
      → IsApart (write_round u f buf sent n) ((sent + n) % u64)
  write_round-IsApart f sent n h e = h (omega (arith, e))

  write_loop-IsApart :
      (fuel : ℕ) (f : OutputFile) (sent to_send : ℕ)
      → IsApart f sent
      → write_loop fuel u f buf fp sent to_send ≡ none
  unfolding write_loop
  write_loop-IsApart zero f sent to_send h = refl
  write_loop-IsApart (suc fuel) f sent to_send h =
      rw (==_ne _ _ h, or_true (ltb (space_avail u f) to_send))
        (write_loop-IsApart fuel _ _ _ (write_round-IsApart f sent (round_size u f to_send) h))

-- On an open file whose buffer is filled within its size, and below 2^64, a write returns, with
-- whatever number of rounds, exactly if the buffer ends at the position of its descriptor: from any
-- other position its loop never ends.
pub write-EndsAt :
    (u : Setup) (f : OutputFile) (buf : ℕ → ℕ) (count index : ℕ) (idle : Bool)
    → IsSetup u
    → IsOutput u f
    → f.active ≡ true
    → f.buffer_fp + f.buffer_cnt < 2 ^ 64
    → f.file_pos index + count < 2 ^ 64
    → ((fuel : ℕ) × (r : OutputFile × ℕ) × (write fuel u f buf count index idle ≡ some r))
      ↔ EndsAt f (f.file_pos index)
unfolding write
write-EndsAt u f buf count index idle wide h active below small = (in_step, returns)
  where
    in_step :
        ((fuel : ℕ) × (r : OutputFile × ℕ) × (write fuel u f buf count index idle ≡ some r))
        → EndsAt f (f.file_pos index)
    in_step (fuel, r, e) = elim (ℕ_discrete (f.buffer_fp + f.buffer_cnt) (f.file_pos index)) [
      | yes p ↦ p
      | no d ↦
          let apart : (f.buffer_cnt + f.buffer_fp) % u64 ≢ (f.file_pos index + 0) % u64 =
            λ z. d (omega (arith, z, below, small)) in
          let stuck =
            write_loop-IsApart u buf (f.file_pos index) fuel (advance_pos f index count) 0 count
              apart in
          absurd (
            none-ne-some r (
              sym (
                if_true f.active _ _ active
                ∙ ap (write_ended u buf (f.file_pos index) count idle) stuck)
              ∙ e))
    ]

    returns :
        EndsAt f (f.file_pos index)
        → (fuel : ℕ) × (r : OutputFile × ℕ) × (write fuel u f buf count index idle ≡ some r)
    returns p =
        let valid : IsOutput u (advance_pos f index count) = record {
          index = h.index;
          bounded = h.bounded;
        } in
        let (l, e, d) =
          write_loop_ends u wide buf (f.file_pos index) (count + 2) (advance_pos f index count) 0
            count valid (omega (arith, p)) (omega (arith, small)) (ground arith) in
        (
          count + 2,
          _,
          if_true f.active _ _ active ∙ ap (write_ended u buf (f.file_pos index) count idle) e,
        )
