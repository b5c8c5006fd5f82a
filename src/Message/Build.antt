-- ===== src/Message/Build.antt =====
-- The messages that the senders of src/common/Message.cpp put together, with their sizes.
use tazer.Base.{ℕ, ◌+◌, ◌-◌, ◌%◌, Bool, List, length, if◌then◌else◌, update}
use tazer.Message.Bytes.{Buffer, put8, put32, put64, put_bytes}
use tazer.Message.Layout.{
  u32, type_code, MsgType, open_file_msg, req_file_size_msg, file_size_msg, req_blk_msg,
  send_blk_msg, close_file_msg, write_msg, ack_msg, struct_size, fill_msg_header, file_name_size,
  named_size, end_name,
}

pub record Packet : Type 0 where
  pub buff : Buffer
  pub size : ℕ

abbrev pub of_bool : Bool → ℕ
of_bool b = if b then 1 else 0

-- `sendOpenFileMsg`.
unfoldable pub build_open_file : Buffer → List ℕ → ℕ → Bool → Bool → Packet
unfolding fill_msg_header
build_open_file fresh name blk_size compress output =
    let size = named_size open_file_msg name in
    let header = fill_msg_header fresh open_file_msg (file_name_size name) size in
    record {
      buff =
          end_name open_file_msg
            (put8 (put8 (put32 header 20 blk_size) 24 (of_bool compress)) 25 (of_bool output)) name
            size;
      size = size;
    }

-- `sendRequestBlkMsg`.
unfoldable pub build_request_blk : Buffer → List ℕ → ℕ → ℕ → Packet
unfolding fill_msg_header
build_request_blk fresh name start end =
    let size = named_size req_blk_msg name in
    let header = fill_msg_header fresh req_blk_msg (file_name_size name) size in
    record {
      buff = end_name req_blk_msg (put32 (put32 header 20 start) 24 end) name size;
      size = size;
    }

-- `sendCloseFileMsg`.
unfoldable pub build_close_file : Buffer → List ℕ → Packet
unfolding fill_msg_header
build_close_file fresh name =
    let size = named_size close_file_msg name in
    record {
      buff =
          end_name close_file_msg (fill_msg_header fresh close_file_msg (file_name_size name) size)
            name size;
      size = size;
    }

-- `sendRequestFileSizeMsg`.
unfoldable pub build_request_file_size : Buffer → List ℕ → Packet
unfolding fill_msg_header
build_request_file_size fresh name =
    let size = named_size req_file_size_msg name in
    record {
      buff =
          end_name req_file_size_msg
            (fill_msg_header fresh req_file_size_msg (file_name_size name) size) name size;
      size = size;
    }

-- `sendCloseConMsg`, `sendCloseServerMsg` and `sendPingMsg`: a header alone.
unfoldable pub build_header : Buffer → MsgType → Packet
unfolding fill_msg_header
build_header fresh type = record { buff = fill_msg_header fresh type 0 20; size = 20 }

-- `sendAckMsg`.
unfoldable pub build_ack : Buffer → MsgType → Packet
unfolding fill_msg_header
build_ack fresh ack_type = record {
  buff = put32 (fill_msg_header fresh ack_msg 0 24) 20 (type_code ack_type);
  size = 24;
}

-- `sendFileSizeMsg`.
unfoldable pub build_file_size : Buffer → List ℕ → ℕ → ℕ → Packet
unfolding fill_msg_header
build_file_size fresh name file_size opened =
    let size = named_size file_size_msg name in
    let header = fill_msg_header fresh file_size_msg (file_name_size name) size in
    record {
      buff = end_name file_size_msg (put8 (put64 header 20 file_size) 28 opened) name size;
      size = size;
    }

-- `sendWriteMsg`: the caller's packet already holds the data behind the name; the fields, the name
-- and its zero are written in front of it.
unfoldable pub build_write : Buffer → List ℕ → ℕ → ℕ → ℕ → ℕ → Packet
unfolding fill_msg_header
build_write pkt name data_size comp_size fp sn =
    let name_size = file_name_size name in
    let size = (struct_size write_msg + name_size + data_size) % u32 in
    let header = fill_msg_header pkt write_msg name_size size in
    let fields = put32 (put64 (put32 (put32 header 20 data_size) 24 comp_size) 28 fp) 36 sn in
    record { buff = update (put_bytes fields 40 name) (40 + name_size - 1) 0; size = size }

-- `sendSendBlkMsg`: `blk`, the name, a zero and the data; `compression` and `dataSize` keep what
-- the fresh buffer holds.
unfoldable pub build_send_blk : Buffer → List ℕ → ℕ → List ℕ → Packet
unfolding fill_msg_header
build_send_blk fresh name blk block =
    let name_size = file_name_size name in
    let size = (struct_size send_blk_msg + name_size + length block) % u32 in
    let header = fill_msg_header fresh send_blk_msg name_size size in
    let named = update (put_bytes (put32 header 24 blk) 32 name) (32 + length name) 0 in
    record { buff = put_bytes named (33 + length name) block; size = size }
