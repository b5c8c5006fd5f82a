-- ===== src/Message/Blocks.antt =====
-- The two messages that carry data behind the name: `sendWriteMsg` and `sendSendBlkMsg`.
use tazer.Base.{
  ℕ, ◌+◌, ◌-◌, ◌%◌, ◌^◌, ◌<◌, ◌≡◌, true, List, length, arith, refl, ◌==◌, ==_refl, ==_iff,
  Bool-cases, ap, ◌∙◌, sym, update, inl, inr,
}
use tazer.Message.Bytes.{
  Buffer, Below, put32, put64, get32, get64, put_bytes, put_bytes-Below, put_name, put_name-Below,
  c_string, c_string-put_name, get32-put32, get32-put32_apart, get64-put64, get32-Below,
  get64-Below,
}
use tazer.Message.Layout.{
  u32, write_msg, send_blk_msg, struct_size, fill_msg_header, check_msg, file_name_size,
}
use tazer.Message.Build.{Packet, build_write, build_send_blk}
use tazer.Message.Parse.{parse_write}
use tazer.Message.Header.{
  put32-Below, put64-Below, IsHeader, IsHeader-Below, fill_msg_header-IsHeader, check_msg-IsHeader,
}
use tazer.Message.RoundTrip.{IsName}

-- `checkMsg` accepts what `sendWriteMsg` sends, and `parseWriteMsg` reads the name, the position,
-- both sizes and the place of the data back: the data starts right behind the name's zero. The
-- name has no zero byte, the sizes add up within 32 bits, and the position has 64 bits.
pub parse-write :
    (pkt : Buffer) (name : List ℕ) (data_size comp_size fp sn : ℕ)
    → IsName name
    → length name + 41 + data_size < u32
    → comp_size < u32
    → fp < 2 ^ 64
    → (let p : Packet = build_write pkt name data_size comp_size fp sn in
        (check_msg p.buff p.size ≡ true)
        × (parse_write p.buff p.size ≡ record {
          name = name;
          data_at = 41 + length name;
          data_size = data_size;
          comp_size = comp_size;
          fp = fp;
        }))
unfolding build_write parse_write
parse-write pkt name dsize comp_size fp sn ok fits hc hf =
    let name_size : ℕ = file_name_size name in
    let size : ℕ = (struct_size write_msg + name_size + dsize) % u32 in
    let header : Buffer = fill_msg_header pkt write_msg name_size size in
    let f1 : Buffer = put32 header 20 dsize in
    let f2 : Buffer = put32 f1 24 comp_size in
    let f3 : Buffer = put64 f2 28 fp in
    let fields : Buffer = put32 f3 36 sn in
    let w : Buffer = update (put_bytes fields 40 name) (40 + name_size - 1) 0 in
    let e : w ≡ put_name fields 40 name =
      unfold put_name in
      ap (λ k. update (put_bytes fields 40 name) k 0)
        (let e : 40 + name_size - 1 ≡ 40 + length name = omega arith in e) in
    let keep : Below w fields 40 = λ j lt. ap (λ b. b j) e ∙ put_name-Below fields 40 name j lt in
    let keep3 : Below w f3 36 = λ j lt. keep j (omega arith) ∙ put32-Below f3 36 sn j lt in
    let keep2 : Below w f2 28 = λ j lt. keep3 j (omega arith) ∙ put64-Below f2 28 fp j lt in
    let keep1 : Below w f1 24 = λ j lt. keep2 j (omega arith) ∙ put32-Below f1 24 comp_size j lt in
    let below : Below w header 20 =
      λ j lt. keep1 j (omega arith) ∙ put32-Below header 20 dsize j lt in
    let is : IsHeader w 9 name_size size =
      IsHeader-Below w header _ _ _ below
        (fill_msg_header-IsHeader pkt write_msg name_size size (omega arith) (omega arith)) in
    let d : get32 w 20 ≡ dsize =
      get32-Below w f1 24 20 (omega arith) keep1 ∙ get32-put32 header 20 dsize (omega arith) in
    let c : get32 w 24 ≡ comp_size =
      get32-Below w f2 28 24 (omega arith) keep2 ∙ get32-put32 f1 24 comp_size hc in
    let f : get64 w 28 ≡ fp =
      get64-Below w f3 36 28 (omega arith) keep3 ∙ get64-put64 f2 28 fp hf in
    let n : c_string (size - 40) w 40 ≡ name =
      rw e (c_string-put_name fields 40 _ name ok.bytes (omega arith)) in
    let at : 40 + get32 w 12 ≡ 41 + length name = omega (arith, is.has_name) in
    (
      check_msg-IsHeader w write_msg _ _ is
          ∙ rw d
              (let s : (name_size + 40 + dsize) % u32 ≡ size = omega arith in rw s (==_refl size)),
      rw (n, at, d, c, f) refl,
    )

same_test : (a b c d : ℕ) → ((a ≡ b) → c ≡ d) → ((c ≡ d) → a ≡ b) → (a == b) ≡ (c == d)
same_test a b c d f g = elim (Bool-cases (a == b)) [
  | inl e ↦ let t : (c == d) ≡ true = (==_iff c d).1 (f ((==_iff a b).0 e)) in e ∙ sym t
  | inr e ↦ elim (Bool-cases (c == d)) [
    | inl e' ↦
        let t : (a == b) ≡ true = (==_iff a b).1 (g ((==_iff c d).0 e')) in absurd (cc (sym t ∙ e))
    | inr e' ↦ e ∙ sym e'
  ]
]

get32-fill_msg_header :
    (b : Buffer) (name_size size : ℕ)
    → get32 (fill_msg_header b send_blk_msg name_size size) 28 ≡ get32 b 28
unfolding fill_msg_header put64
get32-fill_msg_header b name_size size =
    get32-put32_apart _ 16 28 size (inr (omega arith))
    ∙ get32-put32_apart _ 12 28 name_size (inr (omega arith))
    ∙ get32-put32_apart _ 8 28 4 (inr (omega arith))
    ∙ get32-put32_apart _ 4 28 _ (inr (omega arith))
    ∙ get32-put32_apart b 0 28 _ (inr (omega arith))

-- What `sendSendBlkMsg` sends passes `checkMsg` exactly if the bytes of `dataSize`, which it never
-- writes, happened to hold the size of the block already: for every name without a zero byte and
-- every block whose sizes add up within 32 bits.
pub check-send_blk :
    (fresh : Buffer) (name : List ℕ) (blk : ℕ) (block : List ℕ)
    → length name + 33 + length block < u32
    → get32 fresh 28 < u32
    → (let p : Packet = build_send_blk fresh name blk block in
        check_msg p.buff p.size ≡ (get32 fresh 28 == length block))
unfolding build_send_blk
check-send_blk fresh name blk block fits small =
    let name_size : ℕ = file_name_size name in
    let size : ℕ = (struct_size send_blk_msg + name_size + length block) % u32 in
    let header : Buffer = fill_msg_header fresh send_blk_msg name_size size in
    let f1 : Buffer = put32 header 24 blk in
    let w1 : Buffer = update (put_bytes f1 32 name) (32 + length name) 0 in
    let w : Buffer = put_bytes w1 (33 + length name) block in
    let keep : Below w f1 32 = λ j lt.
      put_bytes-Below w1 (33 + length name) block j (omega arith)
      ∙ unfold put_name in put_name-Below f1 32 name j lt in
    let is : IsHeader w 4 name_size size =
      IsHeader-Below w header _ _ _
        (λ j lt. keep j (omega arith) ∙ put32-Below header 24 blk j (omega arith))
        (fill_msg_header-IsHeader fresh send_blk_msg name_size size (omega arith) (omega arith)) in
    let d : get32 w 28 ≡ get32 fresh 28 =
      get32-Below w f1 32 28 (omega arith) keep
      ∙ get32-put32_apart header 24 28 blk (inr (omega arith))
      ∙ get32-fill_msg_header fresh name_size size in
    check_msg-IsHeader w send_blk_msg _ _ is
    ∙ rw d (same_test _ _ _ _ (λ h. omega arith) (λ h. omega arith))
