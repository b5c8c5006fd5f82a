-- ===== src/Lock/Tests.antt =====
-- Runs of one and two threads, on which the theorems of this component are applied.
use tazer.Base.{◌≡◌, [], ◌∷◌, All, length, arith}
use tazer.Lock.Steps.{
  idle, fair_take, fair_test, advance, fair_writer_lock, call, go, Reach, start, more, idles,
}
use tazer.Lock.Count.{count}
use tazer.Lock.Exclusion.{Agree, Reach-Agree}
use tazer.Lock.Fair.{enters, ticket, fair_alone}

-- One thread has drawn a ticket.
alone_waits : Reach 1 (record { readers = 0; writers = 0; cnt = 1; cur = 0 }) (fair_test 0 ∷ [])
unfolding advance idles
alone_waits = more (more start (call [] [] fair_writer_lock)) (go [] [] fair_take)

fair_alone_example :
    (count enters (fair_test 0 ∷ []) ≡ 0)
    × All
        (λ p. ticket (record { readers = 0; writers = 0; cnt = 1; cur = 0 }) p ≡ 0)
        (fair_test 0 ∷ [])
fair_alone_example =
    fair_alone (record { readers = 0; writers = 0; cnt = 1; cur = 0 }) (fair_test 0 ∷ [])
      alone_waits

-- One of two threads draws a ticket.
two_threads :
    Reach 2 (record { readers = 0; writers = 0; cnt = 1; cur = 0 }) (idle ∷ fair_test 0 ∷ [])
unfolding advance idles
two_threads = more (more start (call (idle ∷ []) [] fair_writer_lock)) (go (idle ∷ []) [] fair_take)

reach-Agree_example :
    Agree (record { readers = 0; writers = 0; cnt = 1; cur = 0 }) (idle ∷ fair_test 0 ∷ [])
    × (length (idle ∷ fair_test 0 ∷ []) ≡ 2)
reach-Agree_example = Reach-Agree (omega arith) two_threads
