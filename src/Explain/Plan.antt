-- ===== src/Explain/Plan.antt =====
-- `to_plan_node` of src/serve/explain/parse.rs: the plan tree of a reply, out of its wire form in
-- src/serve/explain/wire.rs.
use mongod_proxy.Bytes.Text.{ascii}
use mathlib.Core.Option
use mongod_proxy.Bytes.Defs.{Bytes}
use mongod_proxy.Prelude.{
  ◌+◌, map_err, Result, Option, ℕ, ℤ, err, ok, negsuc, pos, none, some, ◌>>=◌,
}
use mongod_proxy.Explain.Model.OpenVocab.{direction}
use mongod_proxy.Explain.Model.Event.{
  negative_duration, both_children_shapes_present, ExplainParseError, NegativeDurationError,
  PlanNode, PlanNodes, plan_node, nodes, no_nodes, StageDetails,
}

-- `RawPlanNode`: its time in milliseconds, its direction, the other fields, and the two optional
-- fields for children: both present, `inputStage` alone, `inputStages` alone, or neither.
mutual
  pub data RawPlanNode (Document : Type 0) : Type 0 where
    raw_plan_node :
        Option ℤ
        → Option Bytes
        → StageDetails Document
        → RawChildren Document
        → RawPlanNode Document

  pub data RawChildren (Document : Type 0) : Type 0 where
    both_shapes : RawPlanNode Document → RawPlanNodes Document → RawChildren Document
    input_stage : RawPlanNode Document → RawChildren Document
    input_stages : RawPlanNodes Document → RawChildren Document
    no_children : RawChildren Document

  pub data RawPlanNodes (Document : Type 0) : Type 0 where
    no_raw : RawPlanNodes Document
    raws : RawPlanNode Document → RawPlanNodes Document → RawPlanNodes Document

unfoldable pub i64_ms_to_duration : Bytes → ℤ → Result NegativeDurationError ℕ
i64_ms_to_duration field (pos n) = ok n
i64_ms_to_duration field (negsuc n) = err (record { field = field; ms = negsuc n })

module _ {E : Type 0} where
  unfoldable pub node_time : Option ℤ → Result (ExplainParseError E) (Option ℕ)
  unfolding i64_ms_to_duration
  node_time none = ok none
  node_time (some ms) = do
    t ← map_err negative_duration (i64_ms_to_duration (ascii "executionTimeMillisEstimate") ms)
    ok (some t)

module _ (Document E : Type 0) (to_lowercase : Bytes → Bytes) where
  unfoldable mutual
    unfolding node_time

    pub to_plan_node : RawPlanNode Document → ℕ → Result (ExplainParseError E) (PlanNode Document)
    to_plan_node (raw_plan_node ms dir details children) depth = do
      time ← node_time ms
      kids ← to_children children depth
      ok (plan_node time (Option.map (direction to_lowercase) dir) details kids)

    pub to_children : RawChildren Document → ℕ → Result (ExplainParseError E) (PlanNodes Document)
    to_children (both_shapes s v) depth = err (both_children_shapes_present depth)
    to_children (input_stage s) depth = do p ← to_plan_node s (depth + 1); ok (nodes p no_nodes)
    to_children (input_stages v) depth = to_plan_nodes v (depth + 1)
    to_children no_children depth = ok no_nodes

    pub to_plan_nodes :
        RawPlanNodes Document → ℕ → Result (ExplainParseError E) (PlanNodes Document)
    to_plan_nodes no_raw depth = ok no_nodes
    to_plan_nodes (raws r rs) depth = do
      p ← to_plan_node r depth
      ps ← to_plan_nodes rs depth
      ok (nodes p ps)
