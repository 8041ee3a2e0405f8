-- ===== src/Explain/Model/Stage.antt =====
-- `Stage` of src/serve/explain/model/stage.rs: the kinds of plan stages, by their names on the wire.
use mongod_proxy.Bytes.Text.{ascii}
use mongod_proxy.Explain.Model.OpenVocab.{from_arms}
use mongod_proxy.Prelude.{List, ◌∷◌, []}
use mongod_proxy.Bytes.Defs.{Bytes}

pub data ProjectionKind : Type 0 where
  default : ProjectionKind
  simple : ProjectionKind
  covered : ProjectionKind

pub data AndKind : Type 0 where
  sorted : AndKind
  hash : AndKind

pub data Stage : Type 0 where
  collscan : Stage
  ixscan : Stage
  fetch : Stage
  sort : Stage
  sort_merge : Stage
  limit : Stage
  skip : Stage
  group : Stage
  project : ProjectionKind → Stage
  or : Stage
  and : AndKind → Stage
  subplan : Stage
  sharding_filter : Stage
  return_key : Stage
  count : Stage
  count_scan : Stage
  distinct_scan : Stage
  update_stage : Stage
  delete_stage : Stage
  sbe_scan : Stage
  sbe_ixscan : Stage
  sbe_ixseek : Stage
  sbe_fetch : Stage
  sbe_filter : Stage
  sbe_project : Stage
  sbe_group : Stage
  sbe_sort : Stage
  sbe_limit : Stage
  sbe_skip : Stage
  sbe_or : Stage
  sbe_unwind : Stage
  sbe_hash_lookup : Stage
  sbe_merge : Stage
  express_ixscan : Stage
  express_clustered_ixscan : Stage
  express_update : Stage
  express_delete : Stage
  other : Bytes → Stage

-- The arms of the `match`, in order.
abbrev pub stage_arms : List (Bytes × Stage)
stage_arms =
    (ascii "COLLSCAN", collscan)
    ∷ (ascii "IXSCAN", ixscan)
    ∷ (ascii "FETCH", fetch)
    ∷ (ascii "SORT", sort)
    ∷ (ascii "SORT_MERGE", sort_merge)
    ∷ (ascii "LIMIT", limit)
    ∷ (ascii "SKIP", skip)
    ∷ (ascii "GROUP", group)
    ∷ (ascii "PROJECTION_DEFAULT", project default)
    ∷ (ascii "PROJECTION_SIMPLE", project simple)
    ∷ (ascii "PROJECTION_COVERED", project covered)
    ∷ (ascii "OR", or)
    ∷ (ascii "AND_SORTED", and sorted)
    ∷ (ascii "AND_HASH", and hash)
    ∷ (ascii "SUBPLAN", subplan)
    ∷ (ascii "SHARDING_FILTER", sharding_filter)
    ∷ (ascii "RETURN_KEY", return_key)
    ∷ (ascii "COUNT", count)
    ∷ (ascii "COUNT_SCAN", count_scan)
    ∷ (ascii "DISTINCT_SCAN", distinct_scan)
    ∷ (ascii "UPDATE", update_stage)
    ∷ (ascii "DELETE", delete_stage)
    ∷ (ascii "scan", sbe_scan)
    ∷ (ascii "ixscan", sbe_ixscan)
    ∷ (ascii "ixseek", sbe_ixseek)
    ∷ (ascii "fetch", sbe_fetch)
    ∷ (ascii "filter", sbe_filter)
    ∷ (ascii "project", sbe_project)
    ∷ (ascii "group", sbe_group)
    ∷ (ascii "sort", sbe_sort)
    ∷ (ascii "limit", sbe_limit)
    ∷ (ascii "skip", sbe_skip)
    ∷ (ascii "or", sbe_or)
    ∷ (ascii "unwind", sbe_unwind)
    ∷ (ascii "hash_lookup", sbe_hash_lookup)
    ∷ (ascii "merge", sbe_merge)
    ∷ (ascii "EXPRESS_IXSCAN", express_ixscan)
    ∷ (ascii "express_ixscan", express_ixscan)
    ∷ (ascii "EXPRESS_CLUSTERED_IXSCAN", express_clustered_ixscan)
    ∷ (ascii "express_clustered_ixscan", express_clustered_ixscan)
    ∷ (ascii "EXPRESS_UPDATE", express_update)
    ∷ (ascii "express_update", express_update)
    ∷ (ascii "EXPRESS_DELETE", express_delete)
    ∷ (ascii "express_delete", express_delete)
    ∷ []

unfoldable pub from_wire_str : (Bytes → Bytes) → Bytes → Stage
unfolding from_arms
from_wire_str to_lowercase s = from_arms s (other (to_lowercase s)) stage_arms
