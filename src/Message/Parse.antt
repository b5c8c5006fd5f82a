-- ===== src/Message/Parse.antt =====
-- The parsers of src/common/Message.cpp. The bytes that were received bound the search for the
-- zero that ends a name.
use tazer.Base.{ℕ, ◌+◌, ◌-◌, Bool, not, List, ◌==◌}
use tazer.Message.Bytes.{Buffer, get32, get64, c_string}

pub record OpenFile : Type 0 where
  pub name : List ℕ
  pub blk_size : ℕ
  pub compress : Bool
  pub output : Bool

-- `parseOpenFileMsg`.
unfoldable pub parse_open_file : Buffer → ℕ → OpenFile
parse_open_file pkt received = record {
  name = c_string (received - 26) pkt 26;
  blk_size = get32 pkt 20;
  compress = not (pkt 24 == 0);
  output = not (pkt 25 == 0);
}

pub record RequestBlk : Type 0 where
  pub name : List ℕ
  pub start : ℕ
  pub end : ℕ

-- `parseRequestBlkMsg`.
unfoldable pub parse_request_blk : Buffer → ℕ → RequestBlk
parse_request_blk pkt received = record {
  name = c_string (received - 28) pkt 28;
  start = get32 pkt 20;
  end = get32 pkt 24;
}

-- `parseCloseFileMsg` and `parseRequestFileSizeMsg`.
unfoldable pub parse_name : Buffer → ℕ → List ℕ
parse_name pkt received = c_string (received - 20) pkt 20

pub record FileSize : Type 0 where
  pub name : List ℕ
  pub file_size : ℕ
  pub opened : ℕ

-- `parseFileSizeMsg`.
unfoldable pub parse_file_size : Buffer → ℕ → FileSize
parse_file_size pkt received = record {
  name = c_string (received - 29) pkt 29;
  file_size = get64 pkt 20;
  opened = pkt 28;
}

pub record Write : Type 0 where
  pub name : List ℕ
  pub data_at : ℕ
  pub data_size : ℕ
  pub comp_size : ℕ
  pub fp : ℕ

-- `parseWriteMsg`; the data is given by its offset in the packet.
unfoldable pub parse_write : Buffer → ℕ → Write
parse_write pkt received = record {
  name = c_string (received - 40) pkt 40;
  data_at = 40 + get32 pkt 12;
  data_size = get32 pkt 20;
  comp_size = get32 pkt 24;
  fp = get64 pkt 28;
}
