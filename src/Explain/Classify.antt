-- ===== src/Explain/Classify.antt =====
-- `classify` of src/serve/explain/classify.rs: whether a request can be explained, and what of it
-- the explain is built from.
use mongod_proxy.Bytes.Text.{ascii}
use mongod_proxy.Explain.Model.Namespace.{Database, database_try_new}
use mongod_proxy.Message.Defs.{Message}
use mongod_proxy.Prelude.{List, if◌then◌else◌, Option, out_of_fuel, err, ok, none, some}
use mathlib.Core.Option
use mongod_proxy.Bson.{Bson}
use mongod_proxy.Bson.Documents.{Documents}
use mongod_proxy.Bytes.Defs.{Bytes}
use mongod_proxy.Operation.Defs.{Operation}
use mongod_proxy.Operation.OpMsg
use mongod_proxy.Operation.OpMsg.Defs.{OperationMessage, OpMsgSection}
use mongod_proxy.Explain.Model.Command.{Command, from_command_name}

pub record ClassifiedRequest (Document : Type 0) : Type 0 where
  pub command : Command
  pub database : Database
  pub body : Document
  pub doc_sequences : List (OpMsgSection Document)

module _ (bson : Bson) (docs : Documents bson.Document) (to_lowercase : Bytes → Bytes) where
  open bson use {Document}

  -- `Document::get_str(..).ok()`.
  unfoldable pub get_str : Document → Bytes → Option Bytes
  get_str doc key = Option.bind (docs.get doc key) docs.as_str

  unfoldable pub with_database :
      Command
      → Document
      → List (OpMsgSection Document)
      → Bytes
      → Option (ClassifiedRequest Document)
  unfolding database_try_new
  with_database command body sections db_str = elim (database_try_new db_str) [
    | ok database ↦
        some
          (record { command = command; database = database; body = body; doc_sequences = sections })
    | err e ↦ none
    | out_of_fuel ↦ none
  ]

  unfoldable pub classify_message : OperationMessage Document → Option (ClassifiedRequest Document)
  unfolding get_str with_database
  classify_message m = Option.bind (OpMsg.Parse.command_name bson m) λ raw_name.
      Option.bind (from_command_name to_lowercase raw_name) λ command.
        Option.bind (OpMsg.Parse.find_body bson m.sections) λ body.
          Option.bind (get_str body (ascii "$db"))
            λ db_str. with_database command body m.sections db_str

  unfoldable pub classify_operation : Operation Document → Option (ClassifiedRequest Document)
  unfolding classify_message
  classify_operation (Operation.message m) =
      if (m.flags).more_to_come then none else classify_message m
  classify_operation (Operation.query q) = none
  classify_operation (Operation.reply p) = none

  unfoldable pub classify : Message Document → Option (ClassifiedRequest Document)
  unfolding classify_operation
  classify req = classify_operation req.operation
