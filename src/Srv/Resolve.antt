-- ===== src/Srv/Resolve.antt =====
-- `resolve_with` of src/srv.rs and the helpers that it calls. The lookup is the DNS library's; its
-- failures and the random numbers are parameters.
use mongod_proxy.Bytes.Text.{ascii}
use mongod_proxy.Bytes.Defs.{Bytes, eq_bytes}
use mongod_proxy.Probe.Defs.{ProbeOutcome, SrvHost}
use mongod_proxy.Srv.Order.{RawSrvRecord, order_by_priority_weight}
use mongod_proxy.Srv.Random.{WeightedRng}
use mongod_proxy.Uri.Text.{split}
use mongod_proxy.Prelude.{
  ◌-◌, drop, length, ◌==◌, ◌++◌, ltb, guard, map_err, leb, ◌&&◌, if◌then◌else◌, Bool, List, Option,
  Result, ◌∷◌, out_of_fuel, err, ok, [], none, some, false, true, ◌>>=◌,
}

-- `L` is the lookup's failure and `P` that of a probe.
pub data SrvResolveError (L P : Type 0) : Type 0 where
  resolver_init : L → SrvResolveError L P
  lookup_failed : Bytes → Bytes → L → SrvResolveError L P
  no_records : Bytes → Bytes → SrvResolveError L P
  domain_mismatch : Bytes → Bytes → Bytes → SrvResolveError L P
  no_primary_of : Bytes → List (SrvHost × ProbeOutcome P) → SrvResolveError L P

-- `s.split('.').collect()`.
unfoldable pub labels : Bytes → List Bytes
unfolding split
labels s = let (first, others) = split 46 s in first ∷ others

-- `labels.join(".")`.
unfoldable pub join : List Bytes → Bytes
join [] = []
join (l ∷ []) = l
join (l ∷ m ∷ ls) = l ++ (ascii "." ++ join (m ∷ ls))

unfoldable pub strip_trailing_dot : Bytes → Bytes
strip_trailing_dot [] = []
strip_trailing_dot (b ∷ []) = if b == 46 then [] else b ∷ []
strip_trailing_dot (b ∷ c ∷ s) = b ∷ strip_trailing_dot (c ∷ s)

unfoldable pub parent_domain : Bytes → Bytes
unfolding labels join
parent_domain hostname =
    let all_labels = labels hostname in
    if leb 3 (length all_labels) then join (drop 1 all_labels) else hostname

unfoldable pub eq_labels : List Bytes → List Bytes → Bool
unfolding eq_bytes
eq_labels [] [] = true
eq_labels [] (y ∷ ys) = false
eq_labels (x ∷ xs) [] = false
eq_labels (x ∷ xs) (y ∷ ys) = eq_bytes x y && eq_labels xs ys

-- `xs.ends_with(ys)` of two slices.
unfoldable pub ends_with : List Bytes → List Bytes → Bool
unfolding eq_labels
ends_with xs ys = leb (length ys) (length xs) && eq_labels (drop (length xs - length ys) xs) ys

unfoldable pub target_in_parent_domain : Bytes → Bytes → Bool
unfolding labels ends_with
target_in_parent_domain target parent =
    if ltb (length (labels target)) 2
    then false
    else ends_with (drop 1 (labels target)) (labels parent)

abbrev pub default_srv_service_name : Bytes
default_srv_service_name = ascii "mongodb"

unfoldable pub query_name : Bytes → Bytes → Bytes
query_name service_name srv_hostname =
    ascii "_" ++ (service_name ++ (ascii "._tcp." ++ srv_hostname))

module _ {L P : Type 0} where
  -- The loop over the records.
  unfoldable pub hosts_of_records :
      Bytes → Bytes → List RawSrvRecord → Result (SrvResolveError L P) (List SrvHost)
  unfolding strip_trailing_dot target_in_parent_domain
  hosts_of_records srv_hostname parent [] = ok []
  hosts_of_records srv_hostname parent (r ∷ rs) =
      let host = strip_trailing_dot r.target in
      (do
        _ ← guard (target_in_parent_domain host parent) (domain_mismatch srv_hostname parent host)
        hosts ← hosts_of_records srv_hostname parent rs
        ok (record { host = host; port = r.port } ∷ hosts))

  unfoldable pub some_hosts :
      Bytes → Bytes → List SrvHost → Result (SrvResolveError L P) (List SrvHost)
  some_hosts srv_hostname service_name [] = err (no_records srv_hostname service_name)
  some_hosts srv_hostname service_name (h ∷ hs) = ok (h ∷ hs)

  -- `none` stands for a panic of the ordering.
  abbrev pub ordered_or_panic :
      Option (List RawSrvRecord) → Result (SrvResolveError L P) (List RawSrvRecord)
  ordered_or_panic none = out_of_fuel
  ordered_or_panic (some records) = ok records

  module _ (rng : WeightedRng) (entropy : rng.Rng) where
    unfoldable pub resolve_with :
        Bytes
        → Bytes
        → (Bytes → Result L (List RawSrvRecord))
        → Result (SrvResolveError L P) (List SrvHost)
    unfolding query_name order_by_priority_weight parent_domain hosts_of_records some_hosts
    resolve_with srv_hostname service_name lookup = do
      raw ←
          map_err (lookup_failed srv_hostname service_name)
            (lookup (query_name service_name srv_hostname))
      ordered ← ordered_or_panic (order_by_priority_weight rng raw entropy).0
      hosts ← hosts_of_records srv_hostname (parent_domain srv_hostname) ordered
      some_hosts srv_hostname service_name hosts
