-- ===== src/OpCode.antt =====
-- src/op_code.rs: the opcode in the last four bytes of a header.
use mongod_proxy.Prelude.{◌≡◌, refl, ℤ, pos, if◌then◌else◌, Result, ok, err}
use mongod_proxy.Bytes.Defs.{Bytes, eq_bytes, i32_to_le_bytes, i32_at, le_bytes, to_pattern}

pub data OpCode : Type 0 where
  msg query reply : OpCode

pub data OpCodeParseError : Type 0 where
  unsupported_op_code : ℤ → OpCodeParseError

abbrev op_reply : Bytes
op_reply = i32_to_le_bytes (pos 1)

abbrev op_query : Bytes
op_query = i32_to_le_bytes (pos 2004)

abbrev op_msg : Bytes
op_msg = i32_to_le_bytes (pos 2013)

-- `bytes` holds four bytes.
unfoldable pub from_le_bytes : Bytes → Result OpCodeParseError OpCode
from_le_bytes bytes =
    if eq_bytes bytes op_msg
    then ok msg
    else if eq_bytes bytes op_query
    then ok query
    else if eq_bytes bytes op_reply
    then ok reply
    else err (unsupported_op_code (i32_at 0 bytes))

unfoldable pub to_le_bytes : OpCode → Bytes
to_le_bytes msg = op_msg
to_le_bytes query = op_query
to_le_bytes reply = op_reply

pub from_le_bytes-to_le_bytes : (c : OpCode) → from_le_bytes (to_le_bytes c) ≡ ok c
unfolding from_le_bytes to_le_bytes i32_to_le_bytes le_bytes to_pattern eq_bytes
from_le_bytes-to_le_bytes msg = refl
from_le_bytes-to_le_bytes query = refl
from_le_bytes-to_le_bytes reply = refl
