-- ===== src/Message/Names.antt =====
-- The messages that carry a name alone, or nothing but a header.
use tazer.Base.{ℕ, ◌≡◌, true, List, arith, refl, ==_refl, ◌∙◌}
use tazer.Message.Bytes.{Buffer, get32, put32, get32-put32}
use tazer.Message.Layout.{
  MsgType, close_file_msg, req_file_size_msg, ack_msg, type_code, fill_msg_header, check_msg,
  file_name_size, named_size,
}
use tazer.Message.Build.{Packet, build_close_file, build_request_file_size, build_ack}
use tazer.Message.Parse.{parse_name}
use tazer.Message.Header.{
  IsHeader, IsHeader-Below, fill_msg_header-IsHeader, check_msg-IsHeader, put32-Below, type_code-le,
}
use tazer.Message.RoundTrip.{IsName, named, checked}

-- `checkMsg` accepts what `sendCloseFileMsg` and `sendRequestFileSizeMsg` send, and their parsers
-- read the name back, for every name without a zero byte whose length leaves the 32-bit sizes
-- room, whatever the fresh buffer held.
pub parse_name-built :
    (fresh : Buffer) (name : List ℕ)
    → IsName name
    → (let c : Packet = build_close_file fresh name in
        let r : Packet = build_request_file_size fresh name in
        (check_msg c.buff c.size ≡ true)
        × (parse_name c.buff c.size ≡ name)
        × (check_msg r.buff r.size ≡ true)
        × (parse_name r.buff r.size ≡ name))
unfolding build_close_file build_request_file_size parse_name
parse_name-built fresh name ok = (
  checked close_file_msg
      (fill_msg_header fresh close_file_msg (file_name_size name) (named_size close_file_msg name))
      name ok fresh (omega arith) (λ j lt. refl) refl,
  named close_file_msg
      (fill_msg_header fresh close_file_msg (file_name_size name) (named_size close_file_msg name))
      name ok,
  checked req_file_size_msg
      (fill_msg_header fresh req_file_size_msg (file_name_size name)
        (named_size req_file_size_msg name))
      name ok fresh (omega arith) (λ j lt. refl) refl,
  named req_file_size_msg
      (fill_msg_header fresh req_file_size_msg (file_name_size name)
        (named_size req_file_size_msg name))
      name ok,
)

-- `checkMsg` accepts the acknowledgement that `sendAckMsg` sends, which carries the type that it
-- acknowledges behind the header, whatever the fresh buffer held.
check-ack :
    (fresh : Buffer) (type : MsgType)
    → (let p : Packet = build_ack fresh type in
        (check_msg p.buff p.size ≡ true) × (get32 p.buff 20 ≡ type_code type))
unfolding build_ack
check-ack fresh type =
    let header : Buffer = fill_msg_header fresh ack_msg 0 24 in
    let is : IsHeader (put32 header 20 (type_code type)) 10 0 24 =
      IsHeader-Below _ header _ _ _ (λ j lt. put32-Below header 20 (type_code type) j lt)
        (fill_msg_header-IsHeader fresh ack_msg 0 24 (omega arith) (omega arith)) in
    (
      check_msg-IsHeader (put32 header 20 (type_code type)) ack_msg 0 24 is ∙ ==_refl 24,
      get32-put32 header 20 (type_code type) (omega (arith, type_code-le type)),
    )
