-- ===== src/Explain/Model/OpenVocab.antt =====
-- The enumerations of src/serve/explain/model/open_vocab.rs that replies are read into: the names
-- that the source lists, and a variant that keeps any other name in lower case. The table of lower
-- case letters is the standard library's, a parameter.
use mongod_proxy.Bytes.Text.{ascii}
use mongod_proxy.Prelude.{if◌then◌else◌, List, ◌∷◌, []}
use mongod_proxy.Bytes.Defs.{Bytes, eq_bytes}

-- A `match` of a text against literals, with what the last arm gives.
unfoldable pub from_arms : {A : Type 0} → Bytes → A → List (Bytes × A) → A
unfolding eq_bytes
from_arms s otherwise [] = otherwise
from_arms s otherwise ((name, a) ∷ arms) =
    let rest = from_arms s otherwise arms in if eq_bytes s name then a else rest

pub data ErrorLabel : Type 0 where
  transient_transaction_error : ErrorLabel
  retryable_write_error : ErrorLabel
  no_writes_performed : ErrorLabel
  resumable_change_stream_error : ErrorLabel
  network_error : ErrorLabel
  other_label : Bytes → ErrorLabel

pub data Direction : Type 0 where
  forward : Direction
  backward : Direction
  other_direction : Bytes → Direction

pub data ServerErrorCodeName : Type 0 where
  namespace_not_found : ServerErrorCodeName
  unauthorized : ServerErrorCodeName
  interrupted : ServerErrorCodeName
  interrupted_at_shutdown : ServerErrorCodeName
  not_master : ServerErrorCodeName
  write_conflict : ServerErrorCodeName
  duplicate_key : ServerErrorCodeName
  query_plan_killed : ServerErrorCodeName
  other_code_name : Bytes → ServerErrorCodeName

module _ (to_lowercase : Bytes → Bytes) where
  unfoldable pub error_label : Bytes → ErrorLabel
  unfolding from_arms
  error_label s = from_arms s (other_label (to_lowercase s)) (
      (ascii "TransientTransactionError", transient_transaction_error)
      ∷ (ascii "RetryableWriteError", retryable_write_error)
      ∷ (ascii "NoWritesPerformed", no_writes_performed)
      ∷ (ascii "ResumableChangeStreamError", resumable_change_stream_error)
      ∷ (ascii "NetworkError", network_error)
      ∷ [])

  unfoldable pub direction : Bytes → Direction
  unfolding from_arms
  direction s =
      from_arms s (other_direction (to_lowercase s))
        ((ascii "forward", forward) ∷ (ascii "backward", backward) ∷ [])

  unfoldable pub server_error_code_name : Bytes → ServerErrorCodeName
  unfolding from_arms
  server_error_code_name s = from_arms s (other_code_name (to_lowercase s)) (
      (ascii "NamespaceNotFound", namespace_not_found)
      ∷ (ascii "Unauthorized", unauthorized)
      ∷ (ascii "Interrupted", interrupted)
      ∷ (ascii "InterruptedAtShutdown", interrupted_at_shutdown)
      ∷ (ascii "NotMaster", not_master)
      ∷ (ascii "NotWritablePrimary", not_master)
      ∷ (ascii "WriteConflict", write_conflict)
      ∷ (ascii "DuplicateKey", duplicate_key)
      ∷ (ascii "QueryPlanKilled", query_plan_killed)
      ∷ [])
