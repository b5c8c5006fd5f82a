-- ===== src/Message/Pipe.antt =====
-- A block that the server sends over a connection is the block that the client receives.
use mathlib.Core.List.{append-nil, append_assoc}
use tazer.Base.{
  ℕ, zero, suc, ◌+◌, ◌%◌, ◌≤◌, ◌<◌, ◌≡◌, Bool, true, false, List, [], ◌∷◌, ◌++◌, length,
  length-append, Option, some, ◌==◌, ==_refl, ==_iff, Bool-cases, ◌≢◌, ltb, update, update_self,
  arith, refl, sym, ap, ◌∙◌, inl, inr,
}
use tazer.Message.Bytes.{
  Buffer, get32, put_bytes, get_bytes, put_bytes-Below, get32-Below, get32-put32, get32-put32_apart,
}
use tazer.Message.Layout.{u32, send_blk_msg, file_name_size}
use tazer.Message.Header.{fill_msg_header-IsHeader}
use tazer.Message.Transfer.{
  Connection, block_packet, server_send_close, server_send_close_new, client_rec_retry_count,
  SentBlock, or_fresh, buf_size, rec_send_blk,
}

-- A connection that delivers the bytes of a queue, as many as are asked for where there are as many.
pub record IsSource {S : Type 0} (conn : Connection S) (queue : S → List ℕ) : Type 0 where
  pub receives :
      (s : S) (xs rest : List ℕ)
      → queue s ≡ xs ++ rest
      → (conn.recv_msg s (length xs)).1 ≡ record { bytes = xs; failed = false }
  pub dequeues :
      (s : S) (xs rest : List ℕ)
      → queue s ≡ xs ++ rest
      → queue (conn.recv_msg s (length xs)).0 ≡ rest

-- A connection whose ends are the two ends of one queue of bytes, and which works.
pub record IsPipe {S : Type 0} (conn : Connection S) (queue : S → List ℕ) : Type 0 where
  pub source : IsSource conn queue
  pub sends : (s : S) (xs : List ℕ) → (conn.send_msg s xs).1 ≡ some (length xs)
  pub enqueues : (s : S) (xs : List ℕ) → queue (conn.send_msg s xs).0 ≡ queue s ++ xs

not_less : (a b : ℕ) → b ≤ a → ltb a b ≡ false
not_less a b h = ground arith

pub length-get_bytes : (b : Buffer) (o n : ℕ) → length (get_bytes b o n) ≡ n
unfolding get_bytes
length-get_bytes b o zero = refl
length-get_bytes b o (suc n) = omega (arith, length-get_bytes b (suc o) n)

pub put_bytes-get_bytes :
    (b b' : Buffer) (n o j : ℕ) → o ≤ j → j < o + n → put_bytes b o (get_bytes b' o n) j ≡ b' j
unfolding put_bytes get_bytes
put_bytes-get_bytes b b' zero o j le lt = absurd (omega arith)
put_bytes-get_bytes b b' (suc n) o j le lt = elim (Bool-cases (o == j)) [
  | inl e ↦
      let same : o ≡ j = (==_iff o j).0 e in
      rw (← same) (
        put_bytes-Below (update b o (b' o)) (suc o) (get_bytes b' (suc o) n) o (omega arith)
        ∙ update_self b o (b' o))
  | inr e ↦
      let ne : o ≢ j = λ h. absurd (cc (sym ((==_iff o j).1 h) ∙ e)) in
      put_bytes-get_bytes (update b o (b' o)) b' n (suc o) j (omega arith) (omega arith)
]

send-all :
    {S : Type 0} (conn : Connection S) (s : S) (xs : List ℕ)
    → (conn.send_msg s xs).1 ≡ some (length xs)
    → server_send_close conn s xs ≡ ((conn.send_msg s xs).0, true)
unfolding server_send_close
send-all conn s xs e = rw (e, ==_refl (length xs)) refl

-- The three sends of `serverSendCloseNew` on a connection that takes all bytes of each.
pub send-three :
    {S : Type 0} (conn : Connection S) (s : S) (packet : Buffer) (name block : List ℕ)
    → ((s : S) (xs : List ℕ) → (conn.send_msg s xs).1 ≡ some (length xs))
    → (let s1 : S = (conn.send_msg s (get_bytes packet 0 32)).0 in
        let s2 : S = (conn.send_msg s1 (name ++ 0 ∷ [])).0 in
        server_send_close_new conn s packet name block ≡ ((conn.send_msg s2 block).0, true))
unfolding server_send_close_new
send-three {S} conn s packet name block sends =
    let h : List ℕ = get_bytes packet 0 32 in
    let nm : List ℕ = name ++ 0 ∷ [] in
    let s1 : S = (conn.send_msg s h).0 in
    let s2 : S = (conn.send_msg s1 nm).0 in
    rw
      (
        send-all conn s h (sends s h),
        send-all conn s1 nm (sends s1 nm),
        send-all conn s2 block (sends s2 block),
        server_send_close_new,
      )
      refl

module _ {S : Type 0} (conn : Connection S) (queue : S → List ℕ) (pipe : IsSource conn queue) where
  recv-all :
      (retry : ℕ) (s : S) (xs rest : List ℕ)
      → queue s ≡ xs ++ rest
      → client_rec_retry_count conn retry s (length xs)
        ≡ ((conn.recv_msg s (length xs)).0, true, xs)
  unfolding client_rec_retry_count
  recv-all retry s xs rest e = rw (pipe.receives s xs rest e, ==_refl (length xs)) refl

  -- What arrives of a packet of 32 bytes are its numbers.
  arrived :
      (fresh packet : Buffer) (o : ℕ)
      → o + 4 ≤ 32
      → get32 (put_bytes fresh 0 (get_bytes packet 0 32)) o ≡ get32 packet o
  arrived fresh packet o le =
      get32-Below _ packet 32 o le
        (λ j lt. put_bytes-get_bytes fresh packet 32 0 j (omega arith) (omega arith))

  -- The three receives of `recSendBlkMsg` on the three parts in the queue.
  pub received :
      (retry room blk : ℕ) (fresh packet : Buffer) (name block : List ℕ) (given : Option Buffer)
      (s : S)
      → queue s ≡ get_bytes packet 0 32 ++ (name ++ block)
      → get32 packet 12 ≡ length name
      → get32 packet 24 ≡ blk
      → get32 packet 28 ≡ length block
      → length block ≤ buf_size given room (length block)
      → (let r : S × SentBlock = rec_send_blk conn retry fresh s given room in
          (r.1 ≡ record {
            file_name = name;
            blk = blk;
            data_size = length block;
            bytes = some (put_bytes (or_fresh fresh given) 0 block);
          })
          × (queue r.0 ≡ []))
  unfolding rec_send_blk
  received retry room blk fresh packet name block given s q en eb es fits =
      let h : List ℕ = get_bytes packet 0 32 in
      let s1 : S = (conn.recv_msg s (length h)).0 in
      let s2 : S = (conn.recv_msg s1 (length name)).0 in
      let q1 : queue s1 ≡ name ++ block = pipe.dequeues s h (name ++ block) q in
      let q2 : queue s2 ≡ block ++ [] = pipe.dequeues s1 name block q1 ∙ sym (append-nil block) in
      let r1 : client_rec_retry_count conn retry s 32 ≡ (s1, true, h) =
        ap (client_rec_retry_count conn retry s) (sym (length-get_bytes packet 0 32))
        ∙ recv-all retry s h (name ++ block) q in
      let n1 : get32 (put_bytes fresh 0 h) 12 ≡ length name =
        arrived fresh packet 12 (omega arith) ∙ en in
      let n2 : get32 (put_bytes fresh 0 h) 24 ≡ blk = arrived fresh packet 24 (omega arith) ∙ eb in
      let n3 : get32 (put_bytes fresh 0 h) 28 ≡ length block =
        arrived fresh packet 28 (omega arith) ∙ es in
      let r2 : client_rec_retry_count conn retry s1 (length name) ≡ (s2, true, name) =
        recv-all retry s1 name block q1 in
      let r3 : client_rec_retry_count conn retry s2 (length block)
          ≡ ((conn.recv_msg s2 (length block)).0, true, block) =
        recv-all retry s2 block [] q2 in
      rw
        (
          r1,
          n1,
          n2,
          n3,
          r2,
          r3,
          not_less (buf_size given room (length block)) (length block) fits,
          rec_send_blk,
        )
        (refl, pipe.dequeues s2 block [] q2)

pub packet-name :
    (fresh : Buffer) (name : List ℕ) (level blk size : ℕ)
    → length name + 1 < u32
    → get32 (block_packet fresh name level blk size) 12 ≡ length name + 1
unfolding block_packet
packet-name fresh name level blk size h =
    get32-put32_apart _ 28 12 size (inl (omega arith))
    ∙ get32-put32_apart _ 24 12 blk (inl (omega arith))
    ∙ get32-put32_apart _ 20 12 level (inl (omega arith))
    ∙ (fill_msg_header-IsHeader fresh send_blk_msg (file_name_size name)
        ((size + 32 + length name + 1) % u32) (omega arith) (omega arith)).has_name
    ∙ omega (arith, h)

pub packet-blk :
    (fresh : Buffer) (name : List ℕ) (level blk size : ℕ)
    → blk < u32
    → get32 (block_packet fresh name level blk size) 24 ≡ blk
unfolding block_packet
packet-blk fresh name level blk size h =
    get32-put32_apart _ 28 24 size (inl (omega arith)) ∙ get32-put32 _ 24 blk h

pub packet-size :
    (fresh : Buffer) (name : List ℕ) (level blk size : ℕ)
    → size < u32
    → get32 (block_packet fresh name level blk size) 28 ≡ size
unfolding block_packet
packet-size fresh name level blk size h = get32-put32 _ 28 size h

-- A block that `ServeFile::sendData` sends over a working connection with nothing else under way is
-- the block that `recSendBlkMsg` receives: the send succeeds, the receiver gets the name with its
-- zero, the block number, the size and the bytes, which lie at the front of the caller's buffer or
-- of one that is created, and nothing is left under way. The name and the block number fit their
-- fields, and the block fits 32 bits and the caller's buffer.
pub block_transfer :
    {S : Type 0} (conn : Connection S) (queue : S → List ℕ) (retry level blk room : ℕ)
    (name block : List ℕ) (fresh junk : Buffer) (given : Option Buffer) (s : S)
    → IsPipe conn queue
    → queue s ≡ []
    → length name + 1 < u32
    → blk < u32
    → length block < u32
    → length block ≤ buf_size given room (length block)
    → (let a : S × Bool =
          server_send_close_new conn s
            (block_packet junk name level blk (length block))
            name
            block in
        let r : S × SentBlock = rec_send_blk conn retry fresh a.0 given room in
        (a.1 ≡ true)
        × (r.1 ≡ record {
          file_name = name ++ 0 ∷ [];
          blk = blk;
          data_size = length block;
          bytes = some (put_bytes (or_fresh fresh given) 0 block);
        })
        × (queue r.0 ≡ []))
unfolding server_send_close_new rec_send_blk
block_transfer {S} conn queue retry level blk room name block fresh junk given s pipe idle hn hb hs
      fits =
    let packet : Buffer = block_packet junk name level blk (length block) in
    let h : List ℕ = get_bytes packet 0 32 in
    let nm : List ℕ = name ++ 0 ∷ [] in
    let s1 : S = (conn.send_msg s h).0 in
    let s2 : S = (conn.send_msg s1 nm).0 in
    let s3 : S = (conn.send_msg s2 block).0 in
    let e : server_send_close_new conn s packet name block ≡ (s3, true) =
      send-three conn s packet name block pipe.sends in
    let q1 : queue s1 ≡ h = pipe.enqueues s h ∙ ap (λ q. q ++ h) idle in
    let q2 : queue s2 ≡ h ++ nm = pipe.enqueues s1 nm ∙ ap (λ q. q ++ nm) q1 in
    let q3 : queue s3 ≡ h ++ (nm ++ block) =
      pipe.enqueues s2 block ∙ ap (λ q. q ++ block) q2 ∙ append_assoc h nm block in
    let r =
      received conn queue pipe.source retry room blk fresh packet nm block given s3 q3
        (packet-name junk name level blk (length block) hn
          ∙ sym (length-append name (0 ∷ []) ∙ omega arith))
        (packet-blk junk name level blk (length block) hb)
        (packet-size junk name level blk (length block) hs) fits in
    rw e (refl, r.0, r.1)
