-- ===== src/Explain/PlanShape.antt =====
-- Which plans `to_plan_node` of src/serve/explain/parse.rs accepts, and what it makes of them.
use mathlib.Core.Option
use mongod_proxy.Bytes.Defs.{Bytes}
use mongod_proxy.Prelude.{
  ap, ◌+◌, ◌∙◌, ◌↔◌, ℤ, ◌≡◌, Option, ℕ, ok, negsuc, pos, none, some, refl, >>=-eq-ok, ok-same,
}
use mongod_proxy.Explain.Model.OpenVocab.{direction}
use mongod_proxy.Explain.Model.Event.{PlanNode, PlanNodes, plan_node, nodes, no_nodes}
use mongod_proxy.Explain.Plan.{
  no_children, no_raw, to_plan_nodes, raws, RawPlanNodes, input_stages, input_stage, both_shapes,
  to_children, RawChildren, i64_ms_to_duration, raw_plan_node, RawPlanNode, to_plan_node, node_time,
}

abbrev pub IsTime : Option ℤ → Type 0
IsTime none = Unit
IsTime (some (pos n)) = Unit
IsTime (some (negsuc n)) = ⊥

abbrev pub time_of : Option ℤ → Option ℕ
time_of none = none
time_of (some (pos n)) = some n
time_of (some (negsuc n)) = none

module _ (Document : Type 0) where
  -- No negative time, and no node with both forms of children.
  unfoldable mutual
    pub IsPlan : RawPlanNode Document → Type 0
    IsPlan (raw_plan_node ms dir details children) = IsTime ms × HasChildren children

    pub HasChildren : RawChildren Document → Type 0
    HasChildren (both_shapes s v) = ⊥
    HasChildren (input_stage s) = IsPlan s
    HasChildren (input_stages v) = ArePlans v
    HasChildren no_children = Unit

    pub ArePlans : RawPlanNodes Document → Type 0
    ArePlans no_raw = Unit
    ArePlans (raws r rs) = IsPlan r × ArePlans rs

  module _ (to_lowercase : Bytes → Bytes) where
    -- The tree node by node, with every child under one list.
    unfoldable mutual
      pub plan_of : RawPlanNode Document → PlanNode Document
      plan_of (raw_plan_node ms dir details children) =
          plan_node (time_of ms) (Option.map (direction to_lowercase) dir) details
            (children_of children)

      pub children_of : RawChildren Document → PlanNodes Document
      children_of (both_shapes s v) = no_nodes
      children_of (input_stage s) = nodes (plan_of s) no_nodes
      children_of (input_stages v) = plans_of v
      children_of no_children = no_nodes

      pub plans_of : RawPlanNodes Document → PlanNodes Document
      plans_of no_raw = no_nodes
      plans_of (raws r rs) = nodes (plan_of r) (plans_of rs)

    module _ (E : Type 0) where
      node_time_ok : (ms : Option ℤ) → IsTime ms → node_time {E = E} ms ≡ ok (time_of ms)
      unfolding node_time i64_ms_to_duration
      node_time_ok none h = refl
      node_time_ok (some (pos n)) h = refl
      node_time_ok (some (negsuc n)) h = absurd h

      node_time-eq-ok :
          (ms : Option ℤ) {t : Option ℕ}
          → node_time {E = E} ms ≡ ok t
          → IsTime ms × (time_of ms ≡ t)
      unfolding node_time i64_ms_to_duration
      node_time-eq-ok none h = (tt, ok-same h)
      node_time-eq-ok (some (pos n)) h = (tt, ok-same h)
      node_time-eq-ok (some (negsuc n)) h = cc

      mutual
        unfolding to_plan_node IsPlan plan_of

        accepted :
            (r : RawPlanNode Document) (depth : ℕ)
            → IsPlan r
            → to_plan_node Document E to_lowercase r depth ≡ ok (plan_of r)
        accepted (raw_plan_node ms dir details children) depth (t, c) =
            rw (node_time_ok ms t, accepted_children children depth c) refl

        accepted_children :
            (c : RawChildren Document) (depth : ℕ)
            → HasChildren c
            → to_children Document E to_lowercase c depth ≡ ok (children_of c)
        accepted_children (both_shapes s v) depth h = absurd h
        accepted_children (input_stage s) depth h = rw (accepted s (depth + 1) h) refl
        accepted_children (input_stages v) depth h = accepted_nodes v (depth + 1) h
        accepted_children no_children depth h = refl

        accepted_nodes :
            (rs : RawPlanNodes Document) (depth : ℕ)
            → ArePlans rs
            → to_plan_nodes Document E to_lowercase rs depth ≡ ok (plans_of rs)
        accepted_nodes no_raw depth h = refl
        accepted_nodes (raws r rs) depth (h, hs) =
            rw (accepted r depth h, accepted_nodes rs depth hs) refl

      mutual
        unfolding to_plan_node IsPlan plan_of

        planned :
            (r : RawPlanNode Document) (depth : ℕ) {p : PlanNode Document}
            → to_plan_node Document E to_lowercase r depth ≡ ok p
            → IsPlan r × (plan_of r ≡ p)
        planned (raw_plan_node ms dir details children) depth e =
            let (t, e1, e2) = >>=-eq-ok (node_time ms) _ e in
            let (ks, e3, e4) =
              >>=-eq-ok (to_children Document E to_lowercase children depth) _ e2 in
            let (timed, te) = node_time-eq-ok ms e1 in
            let (kids, ke) = planned_children children depth e3 in
            ((timed, kids), rw (te, ke) (ok-same e4))

        planned_children :
            (c : RawChildren Document) (depth : ℕ) {ps : PlanNodes Document}
            → to_children Document E to_lowercase c depth ≡ ok ps
            → HasChildren c × (children_of c ≡ ps)
        planned_children (both_shapes s v) depth e = cc
        planned_children (input_stage s) depth e =
            let (p, e1, e2) = >>=-eq-ok (to_plan_node Document E to_lowercase s (depth + 1)) _ e in
            let (h, pe) = planned s (depth + 1) e1 in (h, rw pe (ok-same e2))
        planned_children (input_stages v) depth e = planned_nodes v (depth + 1) e
        planned_children no_children depth e = (tt, ok-same e)

        planned_nodes :
            (rs : RawPlanNodes Document) (depth : ℕ) {ps : PlanNodes Document}
            → to_plan_nodes Document E to_lowercase rs depth ≡ ok ps
            → ArePlans rs × (plans_of rs ≡ ps)
        planned_nodes no_raw depth e = (tt, ok-same e)
        planned_nodes (raws r rs) depth e =
            let (p, e1, e2) = >>=-eq-ok (to_plan_node Document E to_lowercase r depth) _ e in
            let (qs, e3, e4) = >>=-eq-ok (to_plan_nodes Document E to_lowercase rs depth) _ e2 in
            let (h, pe) = planned r depth e1 in
            let (hs, qe) = planned_nodes rs depth e3 in ((h, hs), rw (pe, qe) (ok-same e4))

      -- A raw plan gives a plan node exactly when it has no negative time and no node with both
      -- forms of children, and what it gives then is the tree that mirrors it node by node.
      pub to_plan_node-IsPlan :
          (r : RawPlanNode Document) (depth : ℕ) (p : PlanNode Document)
          → (to_plan_node Document E to_lowercase r depth ≡ ok p) ↔ (IsPlan r × (plan_of r ≡ p))
      to_plan_node-IsPlan r depth p =
          (λ e. planned r depth e, λ (h, e). accepted r depth h ∙ ap (λ q. ok q) e)
