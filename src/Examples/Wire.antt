-- ===== src/Examples/Wire.antt =====
-- Messages, queries and replies at concrete bytes.
use mongod_proxy.Bytes.Text.{is_utf8}
use mongod_proxy.Bytes.Defs.{AreBytes, Bytes}
use mongod_proxy.Bytes.Text.{cstring_new, ascii}
use mongod_proxy.Header.Defs
use mongod_proxy.Header.Defs.{MessageHeader, IsHeader}
use mongod_proxy.Header.Parse.{write_bytes-from_bytes, from_bytes-IsHeader}
use mongod_proxy.OpCode.{OpCode}
use mongod_proxy.Operation
use mongod_proxy.Operation.OpMsg
use mongod_proxy.Operation.OpQuery
use mongod_proxy.Operation.OpReply
use mongod_proxy.Operation.OpMsg.Defs.{OperationMessage, OpMsgSection}
use mongod_proxy.Operation.OpQuery.Defs.{OperationQuery}
use mongod_proxy.Operation.OpReply.Defs.{OperationReply}
use mongod_proxy.Examples.Codec.{written, six_bson, six_bson-IsBson}
use mongod_proxy.Prelude.{
  take, ◌≢◌, ◌++◌, ℕ, ◌≡◌, arith, ◌∷◌, out_of_fuel, ok, negsuc, pos, [], none, some, false, true,
  refl,
}

abbrev header_bytes : Bytes
header_bytes = 16 ∷ 0 ∷ 0 ∷ 0 ∷ 1 ∷ 0 ∷ 0 ∷ 0 ∷ 0 ∷ 0 ∷ 0 ∷ 0 ∷ 0xDD ∷ 7 ∷ 0 ∷ 0 ∷ 99 ∷ []

abbrev small_header : MessageHeader
small_header = record {
  message_length = pos 16;
  request_id = pos 1;
  response_to = none;
  op_code = OpCode.msg;
}

header_bytes-AreBytes : AreBytes header_bytes
header_bytes-AreBytes = ground arith

header_bytes-parsed : Defs.from_bytes header_bytes ≡ ok small_header
unfolding Defs.from_bytes mongod_proxy.Ids.MessageLength.try_new mongod_proxy.Bytes.Defs.i32_at
    mongod_proxy.Bytes.Defs.from_pattern mongod_proxy.Bytes.Defs.from_le
    mongod_proxy.OpCode.from_le_bytes mongod_proxy.Bytes.Defs.eq_bytes
    mongod_proxy.Bytes.Defs.i32_to_le_bytes mongod_proxy.Bytes.Defs.le_bytes
    mongod_proxy.Bytes.Defs.to_pattern
header_bytes-parsed = refl

write_bytes-from_bytes_example : Defs.write_bytes small_header [] ≡ take 16 header_bytes
write_bytes-from_bytes_example =
    write_bytes-from_bytes header_bytes header_bytes-AreBytes header_bytes-parsed

from_bytes-IsHeader_example : IsHeader small_header
from_bytes-IsHeader_example =
    from_bytes-IsHeader header_bytes header_bytes-AreBytes header_bytes-parsed

-- A message with both kinds of section and a checksum.
abbrev pub ping : OperationMessage ℕ
ping = record {
  flags = record { checksum_present = false; more_to_come = true; exhaust_allowed = false };
  sections = OpMsgSection.body 7 ∷ OpMsgSection.document_sequence (ascii "docs") (1 ∷ 2 ∷ []) ∷ [];
  checksum = some 5;
}

abbrev pub ping_sections : Bytes
ping_sections =
    (0 ∷ written 7) ++ ((1 ∷ 21 ∷ 0 ∷ 0 ∷ 0 ∷ ascii "docs") ++ ((0 ∷ written 1) ++ written 2))

pub ping-valid : OpMsg.Defs.IsOperationMessage ping
unfolding is_utf8
ping-valid = record { sections_valid = (tt, (refl, tt)); checksum_valid = omega arith }

pub ping_encodes : OpMsg.Write.write_sections six_bson ping.sections [] ≡ ok ping_sections
unfolding OpMsg.Write.write_sections cstring_new mongod_proxy.Header.Length.i32_try_from
    mongod_proxy.Bytes.Defs.i32_to_le_bytes mongod_proxy.Bytes.Defs.le_bytes
    mongod_proxy.Bytes.Defs.to_pattern
ping_encodes = refl

parse_documents-ne-out_of_fuel_example :
    OpMsg.Parse.parse_documents six_bson 9 (written 3 ++ (6 ∷ 0 ∷ 0 ∷ [])) ≢ out_of_fuel
parse_documents-ne-out_of_fuel_example =
    OpMsg.Documents.parse_documents-ne-out_of_fuel six_bson six_bson-IsBson 9
      (written 3 ++ (6 ∷ 0 ∷ 0 ∷ [])) (omega arith)

abbrev find : OperationQuery ℕ
find = record {
  flags = record {
    tailable_cursor = false;
    slave_ok = true;
    oplog_replay = false;
    no_cursor_timeout = false;
    await_data = false;
    exhaust = false;
    partial = true;
  };
  full_collection_name = ascii "db.c";
  number_to_skip = pos 2;
  number_to_return = negsuc 0;
  query = 5;
  return_fields_selector = some 6;
}

find-valid : OpQuery.Defs.IsOperationQuery find
unfolding is_utf8
find-valid = record { name_valid = refl; skip_valid = omega arith; return_valid = omega arith }

find_selector : OpQuery.Defs.write_selector six_bson find.return_fields_selector ≡ ok (written 6)
unfolding OpQuery.Defs.write_selector
find_selector = refl

find_name : cstring_new find.full_collection_name ≡ ok (ascii "db.c")
unfolding cstring_new
find_name = refl

abbrev batch : OperationReply ℕ
batch = record {
  flags = record {
    cursor_not_found = false;
    query_failure = false;
    shard_config_stale = false;
    await_capable = true;
  };
  cursor_id = negsuc 11;
  starting_from = pos 4;
  documents = 8 ∷ 9 ∷ [];
}

batch-valid : OpReply.Defs.IsOperationReply batch
batch-valid = record { cursor_valid = omega arith; start_valid = omega arith }

batch_documents :
    OpReply.Defs.write_documents six_bson batch.documents [] ≡ ok (written 8 ++ written 9)
unfolding OpReply.Defs.write_documents
batch_documents = refl

pub ping-encoded :
    Operation.RoundTrip.encoded six_bson (Operation.Defs.message ping)
    ≡ ok (OpMsg.RoundTrip.body_bytes ping ping_sections)
ping-encoded = rw ping_encodes

from_bytes-encoded_example :
    Operation.Defs.from_bytes six_bson OpCode.msg (OpMsg.RoundTrip.body_bytes ping ping_sections)
    ≡ ok (Operation.RoundTrip.normalised (Operation.Defs.message ping))
from_bytes-encoded_example =
    Operation.RoundTrip.from_bytes-encoded six_bson six_bson-IsBson (Operation.Defs.message ping)
      ping-valid (omega arith) ping-encoded
