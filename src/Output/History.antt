-- ===== src/Output/History.antt =====
-- Sequences of writes and seeks, closed at the end.
use tazer.Base.{
  ℕ, ◌+◌, ◌≡◌, ltb, List, [], ◌∷◌, Option, none, some, arith, refl, sym, ◌∙◌, ap, memcpy,
  Bool-cases, inl, inr,
}
use tazer.Output.Types.{Setup, OutputFile}
use tazer.Output.Write.{write, seek_output, close_buffer}
use tazer.Output.View.{store_all, store_all-append, IsSetup, memcpy-zero}
use tazer.Output.Refine.{
  Plain, Call, write_call, seek_call, plain_call, IsCall, Shows, write-Shows, seek-Shows,
}

-- The file and the numbers that the calls return; none if a loop of `write` needs more fuel than
-- two rounds more than it has bytes.
unfoldable pub run_call : Setup → ℕ → OutputFile → Call → Option (OutputFile × ℕ)
unfolding write seek_output
run_call u index f (write_call buf count idle) = write (count + 2) u f buf count index idle
run_call u index f (seek_call offset whence) = some (seek_output u f offset whence index)

abbrev pub push_result : ℕ → Option (OutputFile × List ℕ) → Option (OutputFile × List ℕ)
push_result n none = none
push_result n (some (f, ns)) = some (f, n ∷ ns)

abbrev pub after_call :
    (OutputFile → Option (OutputFile × List ℕ))
    → Option (OutputFile × ℕ)
    → Option (OutputFile × List ℕ)
after_call k none = none
after_call k (some (g, n)) = push_result n (k g)

unfoldable pub run_calls : Setup → ℕ → OutputFile → List Call → Option (OutputFile × List ℕ)
unfolding run_call
run_calls u index f [] = some (f, [])
run_calls u index f (c ∷ cs) = after_call (λ g. run_calls u index g cs) (run_call u index f c)

abbrev pub plain_calls : Plain → List Call → Plain × List ℕ
plain_calls p [] = (p, [])
plain_calls p (c ∷ cs) = let q = plain_call p c in let r = plain_calls q.0 cs in (r.0, q.1 ∷ r.1)

abbrev pub AreCalls : Plain → List Call → Type 0
AreCalls p [] = Unit
AreCalls p (c ∷ cs) = IsCall p c × AreCalls (plain_call p c).0 cs

module _ (u : Setup) (wide : IsSetup u) (base : ℕ → ℕ) (index : ℕ) where
  run_call-Shows :
      (c : Call) (f : OutputFile) (p : Plain)
      → Shows u base index f p
      → IsCall p c
      → (g : OutputFile) × (run_call u index f c ≡ some (g, (plain_call p c).1))
        × Shows u base index g (plain_call p c).0
  unfolding run_call
  run_call-Shows (write_call buf count idle) f p h k =
      write-Shows u wide base index f p buf count idle h k
  run_call-Shows (seek_call offset whence) f p h k =
      let (shows, answer) = seek-Shows u wide base index f p offset whence h k in
      (
        (seek_output u f offset whence index).0,
        ap (λ n. some ((seek_output u f offset whence index).0, n)) answer,
        shows,
      )

  run_calls-Shows :
      (cs : List Call) (f : OutputFile) (p : Plain)
      → Shows u base index f p
      → AreCalls p cs
      → (g : OutputFile) × (run_calls u index f cs ≡ some (g, (plain_calls p cs).1))
        × Shows u base index g (plain_calls p cs).0
  unfolding run_calls
  run_calls-Shows [] f p h k = (f, refl, h)
  run_calls-Shows (c ∷ cs) f p h k =
      let (g, e, one) = run_call-Shows c f p h k.0 in
      let (end, e', all) = run_calls-Shows cs g (plain_call p c).0 one k.1 in
      (
        end,
        ap (after_call (λ g. run_calls u index g cs)) e ∙ ap (push_result (plain_call p c).1) e',
        all,
      )

  close_buffer-Shows :
      (f : OutputFile) (p : Plain)
      → Shows u base index f p
      → store_all u (close_buffer u f).tasks base ≡ p.content
  unfolding close_buffer
  close_buffer-Shows f p h = elim (Bool-cases (ltb 0 f.buffer_cnt)) [
    | inl e ↦ rw (e) (store_all-append u f.tasks _ base ∙ h.shown)
    | inr e ↦
        let none_left : f.buffer_cnt ≡ 0 = ground (arith, e) in
        rw (e) (
          sym (memcpy-zero (store_all u f.tasks base) f.buffer_fp f.buffer u.message_offset)
          ∙ ap (λ n. view_of f n) (sym none_left)
          ∙ h.shown)
  ]
    where
      view_of : OutputFile → ℕ → ℕ → ℕ
      view_of f n = memcpy (store_all u f.tasks base) f.buffer_fp f.buffer u.message_offset n

  -- For an open file whose buffer ends at the position of its descriptor and is within its size, and
  -- any writes and seeks of that descriptor by SEEK_SET or SEEK_CUR, with every position below 2^64:
  -- each write returns, its loop within as many rounds as it has bytes and two more; the calls answer
  -- as on a plain file with one position; and the tasks after close, each put at the position that
  -- it names in their order, make of what was there before what the plain file holds.
  pub run_calls-Plain :
      (cs : List Call) (f : OutputFile) (p : Plain)
      → Shows u base index f p
      → AreCalls p cs
      → (g : OutputFile) × (run_calls u index f cs ≡ some (g, (plain_calls p cs).1))
        × (store_all u (close_buffer u g).tasks base ≡ (plain_calls p cs).0.content)
  run_calls-Plain cs f p h k =
      let (g, e, all) = run_calls-Shows cs f p h k in
      (g, e, close_buffer-Shows g (plain_calls p cs).0 all)
