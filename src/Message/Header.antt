-- ===== src/Message/Header.antt =====
-- The header of a message, and what `checkMsg` says of a message with a given header.
use tazer.Base.{
  ℕ, ◌+◌, ◌-◌, ◌/◌, ◌%◌, ◌^◌, ◌≤◌, ◌<◌, ◌≡◌, List, length, arith, update, refl, ◌==◌, ==_refl,
  le→leb, inl, ap, ◌∙◌,
}
use tazer.Message.Bytes.{
  Buffer, Below, put8, put32, put64, get32, get64, put_bytes, put_name, get32-put32,
  get32-put32_apart, get64-put64, get32-Below, get64-Below,
}
use tazer.Message.Layout.{
  u32, magic, MsgType, open_file_msg, send_blk_msg, write_msg, type_code, struct_size,
  fill_msg_header, expected_size, check_msg, named_size, end_name,
}

pub put8-Below : (b : Buffer) (o v j : ℕ) → j < o → put8 b o v j ≡ b j
unfolding put8
put8-Below b o v j h = ground arith

pub put32-Below : (b : Buffer) (o v j : ℕ) → j < o → put32 b o v j ≡ b j
unfolding put32
put32-Below b o v j h = ground arith

pub put64-Below : (b : Buffer) (o v j : ℕ) → j < o → put64 b o v j ≡ b j
unfolding put64
put64-Below b o v j h =
    put32-Below (put32 b o (v % 2 ^ 32)) (o + 4) (v / 2 ^ 32) j (omega arith)
    ∙ put32-Below b o (v % 2 ^ 32) j h

pub record IsHeader (b : Buffer) (type name_size size : ℕ) : Type 0 where
  pub has_magic : get64 b 0 ≡ magic
  pub has_type : get32 b 8 ≡ type
  pub has_name : get32 b 12 ≡ name_size
  pub has_size : get32 b 16 ≡ size

pub type_code-le : (type : MsgType) → type_code type ≤ 10
type_code-le open_file_msg = omega arith
type_code-le type = omega arith

pub struct_size-le : (type : MsgType) → struct_size type ≤ 40
struct_size-le open_file_msg = omega arith
struct_size-le type = omega arith

pub fill_msg_header-IsHeader :
    (b : Buffer) (type : MsgType) (name_size size : ℕ)
    → name_size < u32
    → size < u32
    → IsHeader (fill_msg_header b type name_size size) (type_code type) name_size size
unfolding fill_msg_header
fill_msg_header-IsHeader b type name_size size hn hs = record {
  has_magic =
      get64-Below _ (put64 b 0 magic) 8 0 (omega arith) (λ j h.
        put32-Below _ 16 size j (omega arith)
        ∙ put32-Below _ 12 name_size j (omega arith)
        ∙ put32-Below _ 8 (type_code type) j h)
      ∙ get64-put64 b 0 magic (omega arith);
  has_type =
      get32-put32_apart _ 16 8 size (inl (omega arith))
      ∙ get32-put32_apart _ 12 8 name_size (inl (omega arith))
      ∙ get32-put32 _ 8 (type_code type) (omega (arith, type_code-le type));
  has_name = get32-put32_apart _ 16 12 size (inl (omega arith)) ∙ get32-put32 _ 12 name_size hn;
  has_size = get32-put32 _ 16 size hs;
}

-- What is written from the fields on leaves the header alone.
pub IsHeader-Below :
    (b b' : Buffer) (type name_size size : ℕ)
    → Below b b' 20
    → IsHeader b' type name_size size
    → IsHeader b type name_size size
IsHeader-Below b b' type name_size size below h = record {
  has_magic = get64-Below b b' 20 0 (omega arith) below ∙ h.has_magic;
  has_type = get32-Below b b' 20 8 (omega arith) below ∙ h.has_type;
  has_name = get32-Below b b' 20 12 (omega arith) below ∙ h.has_name;
  has_size = get32-Below b b' 20 16 (omega arith) below ∙ h.has_size;
}

-- The bytes of the data behind the name, in the two messages that have some.
abbrev pub data_size : MsgType → Buffer → ℕ
data_size send_blk_msg b = get32 b 28
data_size write_msg b = get32 b 20
data_size _ b = 0

expected_size-eq :
    (b : Buffer) (type : MsgType)
    → expected_size b (type_code type) ≡ (get32 b 12 + struct_size type + data_size type b) % u32
unfolding expected_size
expected_size-eq b open_file_msg = omega arith
expected_size-eq b type = omega arith

-- `checkMsg` accepts a message exactly if its sizes add up.
pub check_msg-IsHeader :
    (b : Buffer) (type : MsgType) (name_size size : ℕ)
    → IsHeader b (type_code type) name_size size
    → check_msg b size ≡ ((name_size + struct_size type + data_size type b) % u32 == size)
unfolding check_msg
check_msg-IsHeader b type name_size size h =
    rw
      (
        h.has_magic,
        h.has_type,
        h.has_size,
        le→leb _ _ (type_code-le type),
        ==_refl size,
        expected_size-eq b type,
        h.has_name,
        check_msg,
      )
      refl

-- Without overflow the zero that ends the name stands right behind it.
pub end_name-put_name :
    (type : MsgType) (b : Buffer) (name : List ℕ)
    → length name + 41 < u32
    → end_name type b name (named_size type name) ≡ put_name b (struct_size type) name
unfolding put_name
end_name-put_name type b name h =
    ap (λ k. update (put_bytes b (struct_size type) name) k 0)
      (let e : named_size type name - 1 ≡ struct_size type + length name =
          omega (arith, struct_size-le type) in
        e)
