-- ===== src/Explain/Model/Event.antt =====
-- The public types of src/serve/explain/model/event.rs, and the errors of src/serve/explain/error.rs.
-- The count newtypes are integers and durations are milliseconds.
use mongod_proxy.Explain.Build.{UnsupportedShape}
use mongod_proxy.Ids.ExplainRequestId.{ExplainRequestId}
use mongod_proxy.Ids.{RequestId}
use mongod_proxy.Explain.RequestId.{RequestIdExhausted}
use mongod_proxy.Prelude.{List, ℕ, Option, ℤ}
use mongod_proxy.Bytes.Defs.{Bytes}
use mongod_proxy.Explain.Model.Command.{Command}
use mongod_proxy.Explain.Model.Details.{KeyPattern, IndexBounds, Filter}
use mongod_proxy.Explain.Model.OpenVocab.{Direction, ErrorLabel, ServerErrorCodeName}
use mongod_proxy.Explain.Model.Stage.{Stage}
use mongod_proxy.Explain.Model.Namespace.{Namespace, NamespaceParseError}

-- The fields that the wire form of a plan node has as the typed one does.
pub record StageDetails (Document : Type 0) : Type 0 where
  pub stage : Stage
  pub n_returned : ℤ
  pub docs_examined : Option ℤ
  pub keys_examined : Option ℤ
  pub index_name : Option Bytes
  pub key_pattern : Option KeyPattern
  pub index_bounds : Option IndexBounds
  pub filter : Option (Filter Document)

-- A node has its time, its direction, the other fields and its children.
mutual
  pub data PlanNode (Document : Type 0) : Type 0 where
    plan_node :
        Option ℕ → Option Direction → StageDetails Document → PlanNodes Document → PlanNode Document

  pub data PlanNodes (Document : Type 0) : Type 0 where
    no_nodes : PlanNodes Document
    nodes : PlanNode Document → PlanNodes Document → PlanNodes Document

pub record ExplainTotals : Type 0 where
  pub n_returned : ℤ
  pub docs_examined : ℤ
  pub keys_examined : ℤ
  pub execution_time : ℕ

pub record ExplainEvent (Document : Type 0) : Type 0 where
  pub command : Command
  pub namespace : Namespace
  pub total : ExplainTotals
  pub plan : PlanNode Document
  pub client_request_id : RequestId
  pub explain_request_id : Option ExplainRequestId

-- The `ElementType` of the `bson` crate is a number here.
pub data MalformedOkShape : Type 0 where
  missing : MalformedOkShape
  null : MalformedOkShape
  string_value : MalformedOkShape
  bool : MalformedOkShape
  array_value : MalformedOkShape
  document_value : MalformedOkShape
  non_finite : MalformedOkShape
  other_type : ℕ → MalformedOkShape

pub record NegativeDurationError : Type 0 where
  pub field : Bytes
  pub ms : ℤ

-- `E` is the error of the `bson` crate.
pub data ExplainParseError (E : Type 0) : Type 0 where
  missing_body : ExplainParseError E
  malformed_ok : MalformedOkShape → ExplainParseError E
  deserialise : Bytes → E → ExplainParseError E
  malformed_server_error : Bytes → E → ExplainParseError E
  both_children_shapes_present : ℕ → ExplainParseError E
  bad_namespace : NamespaceParseError → ExplainParseError E
  negative_duration : NegativeDurationError → ExplainParseError E

pub data ExplainServerError : Type 0 where
  rejected : Bytes → Option ℤ → Option ServerErrorCodeName → List ErrorLabel → ExplainServerError

-- `S` is the error of the inner service.
pub data ExplainError (S E : Type 0) : Type 0 where
  inner_service : S → ExplainError S E
  parse_failed : ExplainParseError E → ExplainError S E
  server : ExplainServerError → ExplainError S E
  id_space_exhausted : RequestIdExhausted → ExplainError S E
  unsupported : UnsupportedShape → ExplainError S E
