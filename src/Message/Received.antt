-- ===== src/Message/Received.antt =====
-- A request for blocks as the server has it: the bytes that came over the connection, in a buffer.
use tazer.Base.{ℕ, zero, suc, ◌+◌, ◌-◌, ◌≤◌, ◌<◌, ◌≡◌, List, length, arith, refl, ◌∙◌}
use tazer.Message.Bytes.{Buffer, Below, put32, put_bytes, get_bytes, c_string, get32-Below}
use tazer.Message.Layout.{
  u32, req_blk_msg, type_code, get_msg_type, file_name_size, named_size, fill_msg_header,
}
use tazer.Message.Build.{Packet, build_request_blk}
use tazer.Message.Parse.{parse_request_blk}
use tazer.Message.Header.{put32-Below}
use tazer.Message.RoundTrip.{IsName, headed, parse-request_blk}
use tazer.Message.Pipe.{put_bytes-get_bytes}

c_string-Below :
    (n : ℕ) (b b' : Buffer) (o m : ℕ) → o + n ≤ m → Below b b' m → c_string n b o ≡ c_string n b' o
unfolding c_string
c_string-Below zero b b' o m le h = refl
c_string-Below (suc n) b b' o m le h =
    rw (h o (omega arith), c_string-Below n b b' (suc o) m (omega arith) h) refl

parse_request_blk-Below :
    (b b' : Buffer) (received : ℕ)
    → 28 ≤ received
    → Below b b' received
    → parse_request_blk b received ≡ parse_request_blk b' received
unfolding parse_request_blk
parse_request_blk-Below b b' received le h =
    rw
      (
        c_string-Below (received - 28) b b' 28 received (omega arith) h,
        get32-Below b b' received 20 (omega arith) h,
        get32-Below b b' received 24 (omega arith) h,
      )
      refl

type-request_blk :
    (fresh : Buffer) (name : List ℕ) (start end : ℕ)
    → IsName name
    → get_msg_type (build_request_blk fresh name start end).buff ≡ type_code req_blk_msg
unfolding build_request_blk
type-request_blk fresh name start end ok =
    let header : Buffer =
      fill_msg_header fresh req_blk_msg (file_name_size name) (named_size req_blk_msg name) in
    let h =
      headed req_blk_msg (put32 (put32 header 20 start) 24 end) name ok fresh (omega arith) (λ j lt.
        put32-Below (put32 header 20 start) 24 end j (omega arith)
        ∙ put32-Below header 20 start j lt) in
    h.has_type

-- The size of the request, with room for its fields and the name.
pub size-request_blk :
    (fresh : Buffer) (name : List ℕ) (start end : ℕ)
    → IsName name
    → (build_request_blk fresh name start end).size ≡ 29 + length name
unfolding build_request_blk
size-request_blk fresh name start end ok = omega (arith, ok.short)

-- The bytes of a request in a buffer of the server's have its type, and are parsed to its name and
-- its blocks.
pub request_received :
    (fresh junk : Buffer) (name : List ℕ) (start end : ℕ)
    → IsName name
    → start < u32
    → end < u32
    → (let p : Packet = build_request_blk fresh name start end in
        let b : Buffer = put_bytes junk 0 (get_bytes p.buff 0 p.size) in
        (get_msg_type b ≡ type_code req_blk_msg)
        × (parse_request_blk b p.size ≡ record { name = name; start = start; end = end }))
request_received fresh junk name start end ok hs he =
    let p : Packet = build_request_blk fresh name start end in
    let b : Buffer = put_bytes junk 0 (get_bytes p.buff 0 p.size) in
    let size : p.size ≡ 29 + length name = size-request_blk fresh name start end ok in
    let same : Below b p.buff p.size =
      λ j lt. put_bytes-get_bytes junk p.buff p.size 0 j (omega arith) (omega (arith, lt)) in
    (
      get32-Below b p.buff p.size 8 (omega (arith, size)) same
          ∙ type-request_blk fresh name start end ok,
      parse_request_blk-Below b p.buff p.size (omega (arith, size)) same
          ∙ (parse-request_blk fresh name start end ok hs he).1,
    )
