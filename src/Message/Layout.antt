-- ===== src/Message/Layout.antt =====
-- The message types, struct sizes, header and validity check of inc/tazer/Message.h and
-- src/common/Message.cpp. A buffer from `new` holds arbitrary bytes, the argument `fresh`.
use tazer.Base.{ℕ, ◌+◌, ◌-◌, ◌%◌, ◌^◌, Bool, false, List, length, if◌then◌else◌, ◌==◌, leb, update}
use tazer.Message.Bytes.{Buffer, put32, put64, get32, get64, put_bytes}

abbrev pub u32 : ℕ
u32 = 2 ^ 32

abbrev pub magic : ℕ
magic = 0x32ab4fd

pub data MsgType : Type 0 where
  open_file_msg req_file_size_msg file_size_msg req_blk_msg send_blk_msg close_file_msg : MsgType
  close_con_msg close_server_msg ping_msg write_msg ack_msg : MsgType

abbrev pub type_code : MsgType → ℕ
type_code open_file_msg = 0
type_code req_file_size_msg = 1
type_code file_size_msg = 2
type_code req_blk_msg = 3
type_code send_blk_msg = 4
type_code close_file_msg = 5
type_code close_con_msg = 6
type_code close_server_msg = 7
type_code ping_msg = 8
type_code write_msg = 9
type_code ack_msg = 10

-- `sizeof` of the packed structs: the offset of the name or the data behind the fields.
abbrev pub struct_size : MsgType → ℕ
struct_size open_file_msg = 26
struct_size req_file_size_msg = 20
struct_size file_size_msg = 29
struct_size req_blk_msg = 28
struct_size send_blk_msg = 32
struct_size close_file_msg = 20
struct_size close_con_msg = 20
struct_size close_server_msg = 20
struct_size ping_msg = 20
struct_size write_msg = 40
struct_size ack_msg = 24

-- `fillMsgHeader`.
unfoldable pub fill_msg_header : Buffer → MsgType → ℕ → ℕ → Buffer
fill_msg_header buff type file_name_size size =
    put32 (put32 (put32 (put64 buff 0 magic) 8 (type_code type)) 12 file_name_size) 16 size

-- `getMsgType`, as the stored number.
abbrev pub get_msg_type : Buffer → ℕ
get_msg_type pkt = get32 pkt 8

-- The size that `checkMsg` computes for a message of a type in range.
unfoldable pub expected_size : Buffer → ℕ → ℕ
expected_size pkt type =
    let name = get32 pkt 12 in
    if type == 0
    then (name + 26) % u32
    else if type == 1
    then (name + 20) % u32
    else if type == 2
    then (name + 29) % u32
    else if type == 3
    then (name + 28) % u32
    else if type == 4
    then (name + 32 + get32 pkt 28) % u32
    else if type == 5
    then (name + 20) % u32
    else if type == 6
    then (name + 20) % u32
    else if type == 9
    then (name + 40 + get32 pkt 20) % u32
    else if type == 8
    then (name + 20) % u32
    else if type == 10
    then (name + 24) % u32
    else if type == 7
    then (name + 20) % u32
    else 0

-- `checkMsg`.
unfoldable pub check_msg : Buffer → ℕ → Bool
check_msg pkt size =
    if get64 pkt 0 == magic
    then if leb (get_msg_type pkt) 10
      then if size == get32 pkt 16 then expected_size pkt (get_msg_type pkt) == size else false
      else false
    else false

-- `name.size() + 1` as an `unsigned int`.
abbrev pub file_name_size : List ℕ → ℕ
file_name_size name = (length name + 1) % u32

abbrev pub named_size : MsgType → List ℕ → ℕ
named_size type name = (struct_size type + file_name_size name) % u32

-- `name.copy(...)` behind the fields, and the zero in the last byte.
abbrev pub end_name : MsgType → Buffer → List ℕ → ℕ → Buffer
end_name type buff name size = update (put_bytes buff (struct_size type) name) (size - 1) 0
