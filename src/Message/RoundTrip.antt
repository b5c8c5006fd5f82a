-- ===== src/Message/RoundTrip.antt =====
-- What the senders of src/common/Message.cpp put together, `checkMsg` accepts and the parsers take
-- apart again.
use tazer.Base.{
  ℕ, ◌+◌, ◌-◌, ◌%◌, ◌^◌, ◌≤◌, ◌<◌, ◌≡◌, ◌≢◌, Bool, true, false, not, List, length, arith, refl,
  ◌==◌, ==_refl, ap, ◌∙◌, All,
}
use tazer.Message.Bytes.{
  Buffer, Below, put8, put32, put64, get32, get64, put_name-Below, c_string, get32-put32,
  get64-put64, get32-Below, get64-Below, c_string-put_name,
}
use tazer.Message.Layout.{
  u32, MsgType, open_file_msg, file_size_msg, req_blk_msg, type_code, struct_size, fill_msg_header,
  check_msg, file_name_size, named_size, end_name,
}
use tazer.Message.Build.{Packet, of_bool, build_open_file, build_request_blk, build_file_size}
use tazer.Message.Parse.{parse_open_file, parse_request_blk, parse_file_size}
use tazer.Message.Header.{
  put8-Below, put32-Below, put64-Below, IsHeader, IsHeader-Below, fill_msg_header-IsHeader,
  check_msg-IsHeader, end_name-put_name, data_size, struct_size-le,
}

-- A file name that a message can carry: no zero byte, and short of the 32-bit sizes.
pub record IsName (name : List ℕ) : Type 0 where
  pub bytes : All (λ x. x ≢ 0) name
  pub short : length name + 41 < u32

put8_self : (b : Buffer) (o v : ℕ) → v < 256 → put8 b o v o ≡ v
unfolding put8
put8_self b o v h = ground arith

module _ (type : MsgType) (fields : Buffer) (name : List ℕ) (ok : IsName name) where
  abbrev pub whole : Buffer
  whole = end_name type fields name (named_size type name)

  whole-Below : Below whole fields (struct_size type)
  whole-Below j h =
      ap (λ b. b j) (end_name-put_name type fields name ok.short)
      ∙ put_name-Below fields (struct_size type) name j h

  -- The name is read back from behind the fields.
  pub named : c_string (named_size type name - struct_size type) whole (struct_size type) ≡ name
  named = rw (end_name-put_name type fields name ok.short) (
      c_string-put_name fields (struct_size type) _ name ok.bytes
        (omega (arith, struct_size-le type, ok.short)))

  pub headed :
      (fresh : Buffer)
      → 20 ≤ struct_size type
      → Below fields (fill_msg_header fresh type (file_name_size name) (named_size type name)) 20
      → IsHeader whole (type_code type) (file_name_size name) (named_size type name)
  headed fresh le below =
      IsHeader-Below whole (fill_msg_header fresh type (file_name_size name) (named_size type name))
        _ _ _ (λ j h. whole-Below j (omega arith) ∙ below j h)
        (fill_msg_header-IsHeader fresh type (file_name_size name) (named_size type name)
          (omega arith) (omega arith))

  -- And the header is accepted, where nothing but the name stands behind the fields.
  pub checked :
      (fresh : Buffer)
      → 20 ≤ struct_size type
      → Below fields (fill_msg_header fresh type (file_name_size name) (named_size type name)) 20
      → data_size type whole ≡ 0
      → check_msg whole (named_size type name) ≡ true
  checked fresh le below empty =
      check_msg-IsHeader whole type _ _ (headed fresh le below)
      ∙ rw empty (
          let e : (file_name_size name + struct_size type + 0) % u32 ≡ named_size type name =
            omega arith in
          rw e (==_refl (named_size type name)))

of_bool-small : (b : Bool) → of_bool b < 256
of_bool-small true = omega arith
of_bool-small false = omega arith

of_bool-flag : (b : Bool) → not (of_bool b == 0) ≡ b
of_bool-flag true = refl
of_bool-flag false = refl

-- `checkMsg` accepts what `sendOpenFileMsg` sends, and `parseOpenFileMsg` reads the name, the block
-- size and the two flags back, for every name without a zero byte whose length leaves the 32-bit
-- sizes room and every 32-bit block size, whatever the fresh buffer held.
pub parse-open_file :
    (fresh : Buffer) (name : List ℕ) (blk_size : ℕ) (compress output : Bool)
    → IsName name
    → blk_size < u32
    → (let p : Packet = build_open_file fresh name blk_size compress output in
        (check_msg p.buff p.size ≡ true)
        × (parse_open_file p.buff p.size
            ≡ record { name = name; blk_size = blk_size; compress = compress; output = output }))
unfolding build_open_file parse_open_file
parse-open_file fresh name blk_size compress output ok h =
    let header : Buffer =
      fill_msg_header fresh open_file_msg (file_name_size name) (named_size open_file_msg name) in
    let f1 : Buffer = put32 header 20 blk_size in
    let f2 : Buffer = put8 f1 24 (of_bool compress) in
    let fields : Buffer = put8 f2 25 (of_bool output) in
    let w : Buffer = whole open_file_msg fields name ok in
    let keep : Below w fields 26 = whole-Below open_file_msg fields name ok in
    let size : get32 w 20 ≡ blk_size =
      get32-Below w f1 24 20 (omega arith) (λ j lt.
        keep j (omega arith) ∙ put8-Below f2 25 _ j (omega arith) ∙ put8-Below f1 24 _ j lt)
      ∙ get32-put32 header 20 blk_size h in
    let comp : w 24 ≡ of_bool compress =
      keep 24 (omega arith)
      ∙ put8-Below f2 25 _ 24 (omega arith)
      ∙ put8_self f1 24 _ (of_bool-small compress) in
    let out : w 25 ≡ of_bool output =
      keep 25 (omega arith) ∙ put8_self f2 25 _ (of_bool-small output) in
    (
      checked open_file_msg fields name ok fresh (omega arith)
          (λ j lt.
            put8-Below f2 25 _ j (omega arith)
            ∙ put8-Below f1 24 _ j (omega arith)
            ∙ put32-Below header 20 blk_size j lt)
          refl,
      rw
          (
            named open_file_msg fields name ok,
            size,
            comp,
            out,
            of_bool-flag compress,
            of_bool-flag output,
          )
          refl,
    )

-- `checkMsg` accepts what `sendRequestBlkMsg` sends, and `parseRequestBlkMsg` reads the name and
-- the two block numbers back, for every name without a zero byte whose length leaves the 32-bit
-- sizes room and all 32-bit block numbers, whatever the fresh buffer held.
pub parse-request_blk :
    (fresh : Buffer) (name : List ℕ) (start end : ℕ)
    → IsName name
    → start < u32
    → end < u32
    → (let p : Packet = build_request_blk fresh name start end in
        (check_msg p.buff p.size ≡ true)
        × (parse_request_blk p.buff p.size ≡ record { name = name; start = start; end = end }))
unfolding build_request_blk parse_request_blk
parse-request_blk fresh name start end ok hs he =
    let header : Buffer =
      fill_msg_header fresh req_blk_msg (file_name_size name) (named_size req_blk_msg name) in
    let f1 : Buffer = put32 header 20 start in
    let fields : Buffer = put32 f1 24 end in
    let w : Buffer = whole req_blk_msg fields name ok in
    let keep : Below w fields 28 = whole-Below req_blk_msg fields name ok in
    let first : get32 w 20 ≡ start =
      get32-Below w f1 24 20 (omega arith)
        (λ j lt. keep j (omega arith) ∙ put32-Below f1 24 end j lt)
      ∙ get32-put32 header 20 start hs in
    let last : get32 w 24 ≡ end =
      get32-Below w fields 28 24 (omega arith) keep ∙ get32-put32 f1 24 end he in
    (
      checked req_blk_msg fields name ok fresh (omega arith)
          (λ j lt. put32-Below f1 24 end j (omega arith) ∙ put32-Below header 20 start j lt) refl,
      rw (named req_blk_msg fields name ok, first, last) refl,
    )

-- `checkMsg` accepts what `sendFileSizeMsg` sends, and `parseFileSizeMsg` reads the name, the
-- 64-bit size and the open mark back, for every name without a zero byte whose length leaves the
-- 32-bit sizes room, every 64-bit size and every mark of one byte, whatever the fresh buffer held.
parse-file_size :
    (fresh : Buffer) (name : List ℕ) (file_size opened : ℕ)
    → IsName name
    → file_size < 2 ^ 64
    → opened < 256
    → (let p : Packet = build_file_size fresh name file_size opened in
        (check_msg p.buff p.size ≡ true)
        × (parse_file_size p.buff p.size
            ≡ record { name = name; file_size = file_size; opened = opened }))
unfolding build_file_size parse_file_size
parse-file_size fresh name file_size opened ok hs ho =
    let header : Buffer =
      fill_msg_header fresh file_size_msg (file_name_size name) (named_size file_size_msg name) in
    let f1 : Buffer = put64 header 20 file_size in
    let fields : Buffer = put8 f1 28 opened in
    let w : Buffer = whole file_size_msg fields name ok in
    let keep : Below w fields 29 = whole-Below file_size_msg fields name ok in
    let size : get64 w 20 ≡ file_size =
      get64-Below w f1 28 20 (omega arith)
        (λ j lt. keep j (omega arith) ∙ put8-Below f1 28 opened j lt)
      ∙ get64-put64 header 20 file_size hs in
    let mark : w 28 ≡ opened = keep 28 (omega arith) ∙ put8_self f1 28 opened ho in
    (
      checked file_size_msg fields name ok fresh (omega arith)
          (λ j lt. put8-Below f1 28 opened j (omega arith) ∙ put64-Below header 20 file_size j lt)
          refl,
      rw (named file_size_msg fields name ok, size, mark) refl,
    )
