-- ===== src/Socket/Ends.antt =====
-- The loops of `sendMsg` and `recvMsg` end, whatever the socket does.
use mathlib.Core.Option.{none-ne-some, some-injective}
use tazer.Base.{
  ℕ, zero, suc, ◌+◌, ◌-◌, ◌*◌, ◌<◌, ◌≤◌, ◌≡◌, true, false, ◌||◌, ◌==◌, ltb, List, [], ◌∷◌, length,
  drop, Option, none, some, ◌++◌, length-append, subst, arith, refl, ap, Bool-cases, inl, inr,
}
use tazer.Message.Transfer.{Chunk}
use tazer.Socket.Loops.{
  Received, arrived, interrupted, broken, Socket, received_before, after_recv, sent_before,
  after_send, recv_loop, send_loop, rounds,
}

-- The operating system gives no more bytes than it was asked for, and takes no more than it was given.
pub record IsSocket {S : Type 0} (sock : Socket S) : Type 0 where
  pub receives : (s : S) (n : ℕ) (xs : List ℕ) → (sock.rrecv s n).1 ≡ arrived xs → length xs ≤ n
  pub sends : (s : S) (xs : List ℕ) (n : ℕ) → (sock.rsend s xs).1 ≡ some n → n ≤ length xs

pub length-drop : (n : ℕ) (xs : List ℕ) → length (drop n xs) ≡ length xs - n
length-drop zero xs = omega arith
length-drop (suc n) [] = omega arith
length-drop (suc n) (x ∷ xs) = omega (arith, length-drop n xs)

less : (n l k : ℕ) → l ≤ n → 0 < l → (n - l) * k + k ≤ n * k
less n l k le pos = let m = n - l in let e : n ≡ m + l = omega (arith, le) in rw (e) (grind arith)

-- The loop has ended, with `n` bytes at most.
abbrev pub Receives : {S : Type 0} → ℕ → Option (S × Chunk) → Type 0
Receives {S} n o = (s : S) × (c : Chunk) × (o ≡ some (s, c)) × (length c.bytes ≤ n)

-- The loop has ended, with an error or with `n` bytes sent at most.
abbrev pub Sends : {S : Type 0} → ℕ → Option (S × Option ℕ) → Type 0
Sends {S} n o = (s : S) × (m : Option ℕ) × (o ≡ some (s, m)) × ((k : ℕ) → m ≡ some k → k ≤ n)

module _ {S : Type 0} (sock : Socket S) (ok : IsSocket sock) (r : ℕ) where
  -- The rounds that are left.
  abbrev left : ℕ → ℕ → ℕ
  left n retry = n * (r + 2) + (r + 2 - retry)

  fewer : (n l retry : ℕ) → l ≤ n → 0 < l → retry ≤ r → left (n - l) 0 < left n retry
  fewer n l retry le pos few = omega (arith, less n l (r + 2) le pos, few)

  received_before-Receives :
      (xs : List ℕ) (n : ℕ) (o : Option (S × Chunk))
      → length xs ≤ n
      → Receives (n - length xs) o
      → Receives n (received_before xs o)
  received_before-Receives xs n o le (s, c, e, h) = (
    s,
    record { bytes = xs ++ c.bytes; failed = c.failed },
    ap (received_before xs) e,
    omega (arith, length-append xs c.bytes, h),
  )

  after_recv-Receives :
      (rest : ℕ → ℕ → Option (S × Chunk)) (s : S) (n retry : ℕ) (res : Received)
      → ((xs : List ℕ) → res ≡ arrived xs → length xs ≤ n)
      → retry ≤ r
      → ((n' retry' : ℕ) → left n' retry' < left n retry → Receives n' (rest n' retry'))
      → Receives n (after_recv rest s n retry res)
  after_recv-Receives rest s n retry broken le few h =
      (s, record { bytes = []; failed = true }, refl, omega arith)
  after_recv-Receives rest s n retry interrupted le few h = h n (retry + 1) (omega (arith, few))
  after_recv-Receives rest s n retry (arrived []) le few h = h n (retry + 1) (omega (arith, few))
  after_recv-Receives rest s n retry (arrived (x ∷ xs)) le few h =
      received_before-Receives (x ∷ xs) n _ (le (x ∷ xs) refl) (
        h (n - length (x ∷ xs)) 0
          (fewer n (length (x ∷ xs)) retry (le (x ∷ xs) refl) (omega arith) few))

  recv_loop-Receives :
      (fuel : ℕ) (s : S) (n retry : ℕ)
      → left n retry < fuel
      → Receives n (recv_loop sock r fuel s n retry)
  unfolding recv_loop
  recv_loop-Receives zero s n retry lt = absurd (omega arith)
  recv_loop-Receives (suc fuel) s n retry lt = elim (Bool-cases ((n == 0) || ltb r retry)) [
    | inl e ↦ rw (e) (s, record { bytes = []; failed = false }, refl, omega arith)
    | inr e ↦
        let s' = (sock.rrecv s n).0 in
        rw (e) (
          after_recv-Receives (recv_loop sock r fuel s') s' n retry (sock.rrecv s n).1
            (ok.receives s n) (ground (arith, e))
            λ n' retry' fits. recv_loop-Receives fuel s' n' retry' (omega (arith, fits, lt)))
  ]

  sent_before-Sends :
      (l n : ℕ) (o : Option (S × Option ℕ)) → l ≤ n → Sends (n - l) o → Sends n (sent_before l o)
  sent_before-Sends l n o le (s, none, e, h) =
      (s, none, ap (sent_before l) e, λ k f. absurd (none-ne-some k f))
  sent_before-Sends l n o le (s, some m, e, h) = (
    s,
    some (l + m),
    ap (sent_before l) e,
    λ k f. let g : l + m ≡ k = some-injective _ _ f in omega (arith, h m refl, g),
  )

  after_send-Sends :
      (rest : List ℕ → ℕ → Option (S × Option ℕ)) (s : S) (xs : List ℕ) (retry : ℕ) (res : Option ℕ)
      → ((n : ℕ) → res ≡ some n → n ≤ length xs)
      → retry ≤ r
      → ((ys : List ℕ) (retry' : ℕ)
          → left (length ys) retry' < left (length xs) retry
          → Sends (length ys) (rest ys retry'))
      → Sends (length xs) (after_send rest s xs retry res)
  after_send-Sends rest s xs retry none le few h = (s, none, refl, λ k f. absurd (none-ne-some k f))
  after_send-Sends rest s xs retry (some zero) le few h = h xs (retry + 1) (omega (arith, few))
  after_send-Sends rest s xs retry (some (suc n)) le few h =
      let drops = length-drop (suc n) xs in
      sent_before-Sends (suc n) (length xs) _ (le (suc n) refl) (
        subst (λ z. Sends z (rest (drop (suc n) xs) 0)) drops
          (h (drop (suc n) xs) 0
            (rw (drops) (fewer (length xs) (suc n) retry (le (suc n) refl) (omega arith) few))))

  send_loop-Sends :
      (fuel : ℕ) (s : S) (xs : List ℕ) (retry : ℕ)
      → left (length xs) retry < fuel
      → Sends (length xs) (send_loop sock r fuel s xs retry)
  unfolding send_loop
  send_loop-Sends zero s xs retry lt = absurd (omega arith)
  send_loop-Sends (suc fuel) s xs retry lt = elim (Bool-cases ((length xs == 0) || ltb r retry)) [
    | inl e ↦
        rw (e) (s, some 0, refl, λ k f. let g : 0 ≡ k = some-injective _ _ f in omega (arith, g))
    | inr e ↦
        let s' = (sock.rsend s xs).0 in
        rw (e) (
          after_send-Sends (send_loop sock r fuel s') s' xs retry (sock.rsend s xs).1
            (ok.sends s xs) (ground (arith, e))
            λ ys retry' fits. send_loop-Sends fuel s' ys retry' (omega (arith, fits, lt)))
  ]

  -- On a socket that gives no more bytes than it was asked for and takes no more than it was given,
  -- whatever it fails, interrupts or holds back: the loops of recvMsg and sendMsg end within
  -- `rounds` tests of their conditions, for every number of retries that is configured, and receive
  -- or send no more bytes than they were called for.
  pub loops_end :
      (s : S) (n : ℕ) (xs : List ℕ)
      → Receives n (recv_loop sock r (rounds r n) s n 0)
        × Sends (length xs) (send_loop sock r (rounds r (length xs)) s xs 0)
  loops_end s n xs = (
    recv_loop-Receives (rounds r n) s n 0 (omega arith),
    send_loop-Sends (rounds r (length xs)) s xs 0 (omega arith),
  )
