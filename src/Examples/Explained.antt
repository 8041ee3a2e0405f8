-- ===== src/Examples/Explained.antt =====
-- A request that is explained, and the readers of its parts, at concrete inputs.
use mongod_proxy.Explain.Model.Stage.{collscan}
use mongod_proxy.Explain.Model.Event.{StageDetails, PlanNode}
use mongod_proxy.Prelude.{
  ℕ, refl, ◌++◌, ◌⊎◌, ◌≤◌, length, ◌↔◌, ◌≡◌, ◌∷◌, err, ok, pos, [], none, some,
}
use mongod_proxy.Bytes.Defs.{Bytes}
use mongod_proxy.Bytes.Text.{ascii}
use mongod_proxy.Examples.Fields.{Fields, text_bson, text_docs, text_docs-IsDocuments}
use mongod_proxy.Examples.Inspector.{with_body, member}
use mongod_proxy.Explain.Layer.{layer, ExplainService, handle_request}
use mongod_proxy.Explain.Model.Halves
use mongod_proxy.Explain.Model.Ranges
use mongod_proxy.Explain.Model.Details.{
  parse_range, IndexBoundRange, inclusive, exclusive, literal, min_key,
}
use mongod_proxy.Explain.Model.Namespace
use mongod_proxy.Explain.Parse.{int32, ReplyReader}
use mongod_proxy.Explain.Plan.{no_children, input_stage, raw_plan_node, RawPlanNode, to_plan_node}
use mongod_proxy.Explain.PlanShape
use mongod_proxy.Explain.Preview
use mongod_proxy.Explain.Recorded
use mongod_proxy.Explain.Transparent
use mongod_proxy.Message.Defs.{Message}
use mongod_proxy.Redact.Defs
use mongod_proxy.Redact.Defs.{
  no_entries, shown_code, code_with_scope, entry, render_fields, no_fields, field, scalar,
}

abbrev details : StageDetails Fields
details = record {
  stage = collscan;
  n_returned = pos 1;
  docs_examined = some (pos 2);
  keys_examined = none;
  index_name = none;
  key_pattern = none;
  index_bounds = none;
  filter = none;
}

-- A fetch over a scan, with its time on the scan.
abbrev raw_plan : RawPlanNode Fields
raw_plan =
    raw_plan_node none none details
      (input_stage (raw_plan_node (some (pos 3)) (some (ascii "forward")) details no_children))

abbrev plan : PlanNode Fields
plan = PlanShape.plan_of Fields (λ s. s) raw_plan

to_plan_node-IsPlan_example :
    (to_plan_node Fields Bytes (λ s. s) raw_plan 0 ≡ ok plan)
    ↔ (PlanShape.IsPlan Fields raw_plan × (PlanShape.plan_of Fields (λ s. s) raw_plan ≡ plan))
to_plan_node-IsPlan_example = PlanShape.to_plan_node-IsPlan Fields (λ s. s) Bytes raw_plan 0 plan

truncate_doc_preview-IsCut_example :
    ((Preview.truncate_doc_preview (ascii "Document" ∷ ascii "({})" ∷ []) 10
        ≡ Preview.rendered (ascii "Document" ∷ ascii "({})" ∷ []))
      × (length (Preview.rendered (ascii "Document" ∷ ascii "({})" ∷ [])) ≤ 10))
    ⊎ ((buf : Bytes) × (Preview.truncate_doc_preview (ascii "Document" ∷ ascii "({})" ∷ []) 10
          ≡ buf ++ Preview.marker)
        × Preview.IsCut 10 (Preview.rendered (ascii "Document" ∷ ascii "({})" ∷ [])) buf)
truncate_doc_preview-IsCut_example =
    Preview.truncate_doc_preview-IsCut (ascii "Document" ∷ ascii "({})" ∷ []) 10

parse-IsOutcome_example : Halves.IsOutcome (ascii "db.coll.x") (Namespace.parse (ascii "db.coll.x"))
parse-IsOutcome_example = Halves.parse-IsOutcome (ascii "db.coll.x")

-- A log line of an authentication, with its secret.
abbrev login : ℕ → mongod_proxy.Redact.Defs.Fields ℕ
login secret = field (ascii "Payload") (scalar secret) (field (ascii "ok") (scalar 1) no_fields)

-- Both logins look the same.
login_redacted : render_fields (login 7) ≡ render_fields (login 8)
unfolding render_fields mongod_proxy.Bytes.Defs.eq_bytes
login_redacted = refl

-- A password in the scope of a JavaScript code is shown.
abbrev scoped : mongod_proxy.Redact.Defs.Fields ℕ
scoped =
    field (ascii "f")
      (code_with_scope (ascii "g()") (field (ascii "password") (scalar 7) no_fields)) no_fields

scope_shown :
    render_fields scoped
    ≡ entry
        (ascii "f")
        (shown_code (ascii "g()") (field (ascii "password") (scalar 7) no_fields))
        no_entries
unfolding render_fields mongod_proxy.Bytes.Defs.eq_bytes
scope_shown = refl

abbrev pub reader : ReplyReader Fields Bytes (Unit {0})
reader = record {
  ok_value = λ v. int32 (pos 1);
  deserialize_server_error = λ d. err tt;
  deserialize_reply = λ d. ok (record {
    namespace = ascii "db.c";
    execution_time_millis = pos 4;
    n_returned = pos 1;
    total_docs_examined = pos 2;
    total_keys_examined = pos 0;
    execution_stages = raw_plan;
  });
  debug_pieces = λ d. [];
}

abbrev find : Message Fields
find = with_body ((ascii "find", ascii "c") ∷ (ascii "$db", ascii "db") ∷ [])

abbrev idle : ExplainService text_bson text_docs reader (λ s. s) Bytes member
idle = layer text_bson text_docs reader (λ s. s) Bytes member 0

handle_request-IsForwarded_example :
    Transparent.IsCollected
      (member.call 0 find).0
      (handle_request text_bson text_docs reader (λ s. s) Bytes member idle find).0
    × Transparent.IsForwarded text_bson text_docs text_docs-IsDocuments reader
        (λ s. s)
        Bytes
        member
        0
        find
        (handle_request text_bson text_docs reader (λ s. s) Bytes member idle find).1.state
handle_request-IsForwarded_example =
    Transparent.handle_request-IsForwarded text_bson text_docs text_docs-IsDocuments reader (λ s. s)
      Bytes member idle find

handle_request-IsRecorded_example :
    Recorded.IsRecorded text_bson text_docs text_docs-IsDocuments reader
      (λ s. s)
      Bytes
      member
      (pos 5)
      []
      (handle_request text_bson text_docs reader (λ s. s) Bytes member idle find).1.sink
handle_request-IsRecorded_example =
    Recorded.handle_request-IsRecorded text_bson text_docs text_docs-IsDocuments reader (λ s. s)
      Bytes member idle find

-- `[MinKey, "a, b")`, whose upper bound has a comma.
abbrev range : IndexBoundRange
range = record {
  lower = min_key;
  lower_inclusivity = inclusive;
  upper = literal (34 ∷ 97 ∷ 44 ∷ 32 ∷ 98 ∷ 34 ∷ []);
  upper_inclusivity = exclusive;
}

range-IsBound : Ranges.IsBound range.upper
unfolding mongod_proxy.Explain.Model.Text.trim mongod_proxy.Bytes.Defs.eq_bytes
range-IsBound = (refl, refl, refl, refl, refl)

parse_range-render_range_example : parse_range (Ranges.render_range range) ≡ some (ok range)
parse_range-render_range_example =
    Ranges.parse_range-render_range range tt range-IsBound
      (refl, (refl, (refl, (refl, (refl, (refl, tt))))))
