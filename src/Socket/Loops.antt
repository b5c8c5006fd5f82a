-- ===== src/Socket/Loops.antt =====
-- `sendMsg` and `recvMsg` of a `Connection`, for a thread whose `_tlSocket` is set (otherwise the
-- code raises SIGSEGV), with the calls of the operating system as an interface. Sizes are as large as
-- the memory that they count, so the 64-bit sums do not wrap. Waits and times are left out.
use tazer.Base.{
  ℕ, zero, suc, ◌+◌, ◌-◌, ◌*◌, true, false, ◌||◌, if◌then◌else◌, ◌==◌, ltb, List, [], ◌∷◌, ◌++◌,
  length, drop, Option, none, some,
}
use tazer.Message.Transfer.{Connection, Chunk}

-- What `rrecv` gives: bytes, none of them where it returns 0; an error with `EINTR`, or another one
-- (for `EINVAL` the code raises SIGSEGV).
pub data Received : Type 0 where
  arrived : (bytes : List ℕ) → Received
  interrupted broken : Received

-- `rsend`, whose error is none, `rrecv`, `forceCloseSocket` with `initializeSocket`, and
-- `closeSocket`.
pub record Socket (S : Type 0) : Type 0 where
  pub rsend : S → List ℕ → S × Option ℕ
  pub rrecv : S → ℕ → S × Received
  pub reopen : S → S
  pub close : S → S

-- Bytes in front of those that the rest of the loop receives.
abbrev pub received_before {ℓ} : {S : Type ℓ} → List ℕ → Option (S × Chunk) → Option (S × Chunk)
received_before xs none = none
received_before xs (some (s, c)) = some (s, record { bytes = xs ++ c.bytes; failed = c.failed })

-- The branches on the result of `rrecv`, with the rest of the loop.
abbrev pub after_recv {ℓ} :
    {S : Type ℓ} → (ℕ → ℕ → Option (S × Chunk)) → S → ℕ → ℕ → Received → Option (S × Chunk)
after_recv rest s n retry broken = some (s, record { bytes = []; failed = true })
after_recv rest s n retry interrupted = rest n (retry + 1)
after_recv rest s n retry (arrived []) = rest n (retry + 1)
after_recv rest s n retry (arrived (x ∷ xs)) =
    received_before (x ∷ xs) (rest (n - length (x ∷ xs)) 0)

-- What is sent before, added to what the rest of the loop sends; none is -1.
abbrev pub sent_before {ℓ} : {S : Type ℓ} → ℕ → Option (S × Option ℕ) → Option (S × Option ℕ)
sent_before n none = none
sent_before n (some (s, none)) = some (s, none)
sent_before n (some (s, some m)) = some (s, some (n + m))

abbrev pub after_send {ℓ} :
    {S : Type ℓ}
    → (List ℕ → ℕ → Option (S × Option ℕ))
    → S
    → List ℕ
    → ℕ
    → Option ℕ
    → Option (S × Option ℕ)
after_send rest s xs retry none = some (s, none)
after_send rest s xs retry (some zero) = rest xs (retry + 1)
after_send rest s xs retry (some (suc n)) = sent_before (suc n) (rest (drop (suc n) xs) 0)

-- Fuel for `n` bytes: between two bytes the loop goes on `message_retry + 1` times at most.
abbrev pub rounds : ℕ → ℕ → ℕ
rounds message_retry n = n * (message_retry + 2) + (message_retry + 3)

abbrev pub or_stuck {ℓ} : {A : Type ℓ} → A → Option A → A
or_stuck a none = a
or_stuck a (some b) = b

module _ {S : Type 0} (sock : Socket S) (message_retry : ℕ) where
  -- The loop of `recvMsg` with `n` bytes left to receive and the tests of its condition as fuel.
  unfoldable pub recv_loop : ℕ → S → ℕ → ℕ → Option (S × Chunk)
  recv_loop zero s n retry = none
  recv_loop (suc fuel) s n retry =
      if (n == 0) || ltb message_retry retry
      then some (s, record { bytes = []; failed = false })
      else after_recv (recv_loop fuel (sock.rrecv s n).0) (sock.rrecv s n).0 n retry
          (sock.rrecv s n).1

  -- The loop of `sendMsg` with the bytes that are left to send.
  unfoldable pub send_loop : ℕ → S → List ℕ → ℕ → Option (S × Option ℕ)
  send_loop zero s xs retry = none
  send_loop (suc fuel) s xs retry =
      if (length xs == 0) || ltb message_retry retry
      then some (s, some 0)
      else after_send (send_loop fuel (sock.rsend s xs).0) (sock.rsend s xs).0 xs retry
          (sock.rsend s xs).1

  -- `recvMsg`.
  unfoldable pub recv_msg : S → ℕ → S × Chunk
  unfolding recv_loop
  recv_msg s n =
      or_stuck (s, record { bytes = []; failed = true }) (recv_loop (rounds message_retry n) s n 0)

  -- `sendMsg`.
  unfoldable pub send_msg : S → List ℕ → S × Option ℕ
  unfolding send_loop
  send_msg s xs = or_stuck (s, none) (send_loop (rounds message_retry (length xs)) s xs 0)

  -- The connection as the messages use it. `restartSocket` always returns false.
  unfoldable pub connection : Connection S
  unfolding recv_msg send_msg
  connection = record {
    send_msg = send_msg;
    recv_msg = recv_msg;
    restart_socket = λ s. (sock.reopen s, false);
    close_socket = sock.close;
  }
