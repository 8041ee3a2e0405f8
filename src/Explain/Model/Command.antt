-- ===== src/Explain/Model/Command.antt =====
-- `Command` of src/serve/explain/model/open_vocab.rs. The variant for other names keeps them in
-- lower case; which letters that maps is a parameter, a table of the standard library.
use mongod_proxy.Bytes.Text.{ascii}
use mongod_proxy.Prelude.{Option, if◌then◌else◌, ◌∷◌, [], none, some}
use mongod_proxy.Bytes.Defs.{Bytes, one_of}

pub data Command : Type 0 where
  find : Command
  aggregate : Command
  count : Command
  distinct : Command
  update : Command
  delete : Command
  find_and_modify : Command
  other : Bytes → Command

module _ (to_lowercase : Bytes → Bytes) where
  unfoldable pub from_wire_str : Bytes → Command
  unfolding one_of
  from_wire_str s =
      if one_of s (ascii "find" ∷ [])
      then find
      else if one_of s (ascii "aggregate" ∷ [])
      then aggregate
      else if one_of s (ascii "count" ∷ [])
      then count
      else if one_of s (ascii "distinct" ∷ [])
      then distinct
      else if one_of s (ascii "update" ∷ [])
      then update
      else if one_of s (ascii "delete" ∷ [])
      then delete
      else if one_of s (ascii "findAndModify" ∷ ascii "findandmodify" ∷ [])
      then find_and_modify
      else other (to_lowercase s)

abbrev known : Command → Option Command
known (other name) = none
known find = some find
known aggregate = some aggregate
known count = some count
known distinct = some distinct
known update = some update
known delete = some delete
known find_and_modify = some find_and_modify

unfoldable pub from_command_name : (Bytes → Bytes) → Bytes → Option Command
unfolding from_wire_str
from_command_name to_lowercase s = known (from_wire_str to_lowercase s)
