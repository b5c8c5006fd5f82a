-- ===== src/Socket/Stream.antt =====
-- Over a socket that carries a stream of bytes, the connection carries whole messages.
use mathlib.Core.List.{append-nil, append_assoc}
use tazer.Base.{
  ℕ, zero, suc, ◌+◌, ◌-◌, ◌<◌, ◌≤◌, ◌≡◌, true, false, ◌||◌, ◌==◌, ltb, List, [], ◌∷◌, ◌++◌, length,
  take, drop, take-append, drop-append, length-append, Option, none, some, arith, refl, sym, ◌∙◌,
  ap,
}
use tazer.Message.Transfer.{Chunk}
use tazer.Message.Pipe.{IsPipe}
use tazer.Socket.Loops.{
  arrived, Socket, received_before, after_recv, sent_before, after_send, recv_loop, send_loop,
  rounds, or_stuck, recv_msg, send_msg, connection,
}
use tazer.Socket.Ends.{length-drop}

-- A blocking socket whose ends are the two ends of one queue of bytes: where bytes are under way it
-- gives some of them, at least one and in order, and it takes some of those to send, at least one.
pub record IsStream {S : Type 0} (sock : Socket S) (queue : S → List ℕ) : Type 0 where
  pub gives :
      (s : S) (n : ℕ)
      → 0 < n
      → 0 < length (queue s)
      → (xs : List ℕ) × ((sock.rrecv s n).1 ≡ arrived xs)
        × (0 < length xs)
        × (length xs ≤ n)
        × (queue s ≡ xs ++ queue (sock.rrecv s n).0)
  pub takes :
      (s : S) (xs : List ℕ)
      → 0 < length xs
      → (k : ℕ) × ((sock.rsend s xs).1 ≡ some k)
        × (0 < k)
        × (k ≤ length xs)
        × (queue (sock.rsend s xs).0 ≡ queue s ++ take k xs)

take-drop : (n : ℕ) (xs : List ℕ) → take n xs ++ drop n xs ≡ xs
take-drop zero xs = refl
take-drop (suc n) [] = refl
take-drop (suc n) (x ∷ xs) = ap (◌∷◌ x) (take-drop n xs)

take-within : (n : ℕ) (xs rest : List ℕ) → n ≤ length xs → take n (xs ++ rest) ≡ take n xs
take-within zero xs rest le = refl
take-within (suc n) [] rest le = absurd (omega arith)
take-within (suc n) (x ∷ xs) rest le = ap (◌∷◌ x) (take-within n xs rest (omega arith))

drop-within : (n : ℕ) (xs rest : List ℕ) → n ≤ length xs → drop n (xs ++ rest) ≡ drop n xs ++ rest
drop-within zero xs rest le = refl
drop-within (suc n) [] rest le = absurd (omega arith)
drop-within (suc n) (x ∷ xs) rest le = drop-within n xs rest (omega arith)

-- Bytes that came are the first of those asked for, and the others are still under way.
split_prefix :
    (ys q xs rest : List ℕ)
    → ys ++ q ≡ xs ++ rest
    → length ys ≤ length xs
    → (ys ++ drop (length ys) xs ≡ xs) × (q ≡ drop (length ys) xs ++ rest)
split_prefix ys q xs rest e le =
    let l = length ys in
    (
      ap (λ z. z ++ drop l xs) (sym (take-append ys q) ∙ ap (take l) e ∙ take-within l xs rest le)
          ∙ take-drop l xs,
      sym (drop-append ys q) ∙ ap (drop l) e ∙ drop-within l xs rest le,
    )

after_recv-arrived :
    {S : Type 0} (rest : ℕ → ℕ → Option (S × Chunk)) (s : S) (n retry : ℕ) (xs : List ℕ)
    → 0 < length xs
    → after_recv rest s n retry (arrived xs) ≡ received_before xs (rest (n - length xs) 0)
after_recv-arrived rest s n retry [] h = absurd (omega arith)
after_recv-arrived rest s n retry (x ∷ xs) h = refl

after_send-some :
    {S : Type 0} (rest : List ℕ → ℕ → Option (S × Option ℕ)) (s : S) (xs : List ℕ) (retry k : ℕ)
    → 0 < k
    → after_send rest s xs retry (some k) ≡ sent_before k (rest (drop k xs) 0)
after_send-some rest s xs retry zero h = absurd (omega arith)
after_send-some rest s xs retry (suc k) h = refl

module _ {S : Type 0} (sock : Socket S) (queue : S → List ℕ) (ok : IsStream sock queue)
    (r : ℕ) where
  open_test : (n : ℕ) → 0 < n → ((n == 0) || ltb r 0) ≡ false
  open_test n h = ground arith

  recv_loop-stream :
      (fuel : ℕ) (s : S) (xs rest : List ℕ)
      → queue s ≡ xs ++ rest
      → length xs < fuel
      → (e : S) × (recv_loop sock r fuel s (length xs) 0
          ≡ some (e, record { bytes = xs; failed = false }))
        × (queue e ≡ rest)
  unfolding recv_loop
  recv_loop-stream zero s xs rest q lt = absurd (omega arith)
  recv_loop-stream (suc fuel) s [] rest q lt = (s, refl, q)
  recv_loop-stream (suc fuel) s (x ∷ xs) rest q lt =
      let all = x ∷ xs in
      let n = length all in
      let s' = (sock.rrecv s n).0 in
      let full : length (queue s) ≡ n + length rest = ap length q ∙ length-append all rest in
      let (ys, got, some_came, le, under_way) = ok.gives s n (omega arith) (omega (arith, full)) in
      let (joined, left) = split_prefix ys (queue s') all rest (sym under_way ∙ q) le in
      let size : length (drop (length ys) all) ≡ n - length ys = length-drop (length ys) all in
      let (e, ih, end) =
        recv_loop-stream fuel s' (drop (length ys) all) rest left
          (omega (arith, size, some_came)) in
      (
        e,
        rw (open_test n (omega arith)) (
            ap (after_recv (recv_loop sock r fuel s') s' n 0) got
            ∙ after_recv-arrived (recv_loop sock r fuel s') s' n 0 ys some_came
            ∙ ap (λ z. received_before ys (recv_loop sock r fuel s' z 0)) (sym size)
            ∙ ap (received_before ys) ih
            ∙ ap (λ z. some (e, record { bytes = z; failed = false })) joined),
        end,
      )

  send_loop-stream :
      (fuel : ℕ) (s : S) (xs : List ℕ)
      → length xs < fuel
      → (e : S) × (send_loop sock r fuel s xs 0 ≡ some (e, some (length xs)))
        × (queue e ≡ queue s ++ xs)
  unfolding send_loop
  send_loop-stream zero s xs lt = absurd (omega arith)
  send_loop-stream (suc fuel) s [] lt = (s, refl, sym (append-nil (queue s)))
  send_loop-stream (suc fuel) s (x ∷ xs) lt =
      let all = x ∷ xs in
      let s' = (sock.rsend s all).0 in
      let (k, took, some_went, le, under_way) = ok.takes s all (omega arith) in
      let size : length (drop k all) ≡ length all - k = length-drop k all in
      let (e, ih, end) = send_loop-stream fuel s' (drop k all) (omega (arith, size, some_went)) in
      let total : k + length (drop k all) ≡ length all = omega (arith, size, le) in
      (
        e,
        rw (open_test (length all) (omega arith)) (
            ap (after_send (send_loop sock r fuel s') s' all 0) took
            ∙ after_send-some (send_loop sock r fuel s') s' all 0 k some_went
            ∙ ap (sent_before k) ih
            ∙ ap (λ z. some (e, some z)) total),
        end
            ∙ ap (λ z. z ++ drop k all) under_way
            ∙ append_assoc (queue s) (take k all) (drop k all)
            ∙ ap (◌++◌ (queue s)) (take-drop k all),
      )

  rounds-many : (n : ℕ) → n < rounds r n
  rounds-many n = grind arith

  recv_msg-stream :
      (s : S) (xs rest : List ℕ)
      → queue s ≡ xs ++ rest
      → (e : S) × (recv_msg sock r s (length xs) ≡ (e, record { bytes = xs; failed = false }))
        × (queue e ≡ rest)
  unfolding recv_msg
  recv_msg-stream s xs rest q =
      let (e, came, end) =
        recv_loop-stream (rounds r (length xs)) s xs rest q (rounds-many (length xs)) in
      (e, ap (or_stuck (s, record { bytes = []; failed = true })) came, end)

  send_msg-stream :
      (s : S) (xs : List ℕ)
      → (e : S) × (send_msg sock r s xs ≡ (e, some (length xs))) × (queue e ≡ queue s ++ xs)
  unfolding send_msg
  send_msg-stream s xs =
      let (e, went, end) = send_loop-stream (rounds r (length xs)) s xs (rounds-many (length xs)) in
      (e, ap (or_stuck (s, none)) went, end)

  -- Over a blocking socket that carries a stream of bytes, in pieces of any size from one byte on,
  -- the connection of Connection.cpp sends and receives whole messages: it is the working
  -- connection on which a block that a server sends is the block that the client receives.
  pub connection-IsPipe : IsPipe (connection sock r) queue
  unfolding connection
  connection-IsPipe = record {
    source = record {
      receives = λ s xs rest q.
          let (e, came, end) = recv_msg-stream s xs rest q in ap (λ (p : S × Chunk). p.1) came;
      dequeues = λ s xs rest q.
          let (e, came, end) = recv_msg-stream s xs rest q in
          ap (λ (p : S × Chunk). queue p.0) came ∙ end;
    };
    sends =
        λ s xs. let (e, went, end) = send_msg-stream s xs in ap (λ (p : S × Option ℕ). p.1) went;
    enqueues = λ s xs.
        let (e, went, end) = send_msg-stream s xs in
        ap (λ (p : S × Option ℕ). queue p.0) went ∙ end;
  }
