-- ===== src/Srv/Resolved.antt =====
-- Which hosts `resolve_with` of src/srv.rs gives.
use mongod_proxy.Bytes.Text.{ascii}
use mathlib.Core.List
use mathlib.Core.List.{Perm}
use mongod_proxy.Bytes.Defs.{Bytes}
use mongod_proxy.Probe.Defs.{SrvHost}
use mongod_proxy.Srv.Domains.{
  IsUndotted, strip_trailing_dot-IsUndotted, IsParent, IsInside, parent_domain-IsParent,
  target_in_parent_domain-IsInside,
}
use mongod_proxy.Srv.Order.{RawSrvRecord, order_by_priority_weight}
use mongod_proxy.Srv.Ordered.{order_by_priority_weight-Ends, Ends}
use mongod_proxy.Srv.Random.{WeightedRng}
use mongod_proxy.Srv.Resolve.{
  ordered_or_panic, domain_mismatch, lookup_failed, parent_domain, target_in_parent_domain,
  query_name, hosts_of_records, strip_trailing_dot, some_hosts, resolve_with,
}
use mongod_proxy.Prelude.{
  ◌++◌, none, some, map_err-eq-ok, ap, ◌∙◌, subst, sym, ok-same, map_err, ◌≢◌, All, ◌≡◌, guard,
  Result, List, Bool, ◌∷◌, ok, [], false, true, refl, inl, inr, >>=-eq-ok,
}

abbrev pub host_of : RawSrvRecord → SrvHost
host_of r = record { host = strip_trailing_dot r.target; port = r.port }

-- The names of the records without a trailing dot, and their ports, one for one and in order.
abbrev pub AreTaken : List RawSrvRecord → List SrvHost → Type 0
AreTaken [] [] = Unit
AreTaken [] (h ∷ hs) = ⊥
AreTaken (r ∷ rs) [] = ⊥
AreTaken (r ∷ rs) (h ∷ hs) = IsUndotted r.target h.host × (h.port ≡ r.port) × AreTaken rs hs

host_of-AreTaken : (rs : List RawSrvRecord) → AreTaken rs (List.map host_of rs)
host_of-AreTaken [] = tt
host_of-AreTaken (r ∷ rs) = (strip_trailing_dot-IsUndotted r.target, refl, host_of-AreTaken rs)

-- The hosts are those of a permutation of the records, each behind a label and a dot in front of the
-- parent domain, and at least one.
pub record IsResolved (srv_hostname : Bytes) (raw : List RawSrvRecord) (hosts : List SrvHost)
    : Type 0 where
  pub ordered : List RawSrvRecord
  pub permuted : Perm ordered raw
  pub taken : AreTaken ordered hosts
  pub parent : Bytes
  pub is_parent : IsParent srv_hostname parent
  pub inside : All (λ (h : SrvHost). IsInside h.host parent) hosts
  pub some_host : hosts ≢ []

all_inside :
    (parent : Bytes) (hosts : List SrvHost)
    → All (λ (h : SrvHost). target_in_parent_domain h.host parent ≡ true) hosts
    → All (λ (h : SrvHost). IsInside h.host parent) hosts
all_inside parent [] h = tt
all_inside parent (x ∷ xs) (h, hs) =
    (target_in_parent_domain-IsInside x.host parent h, all_inside parent xs hs)

guarded : {E : Type 0} (b : Bool) (e : E) {u : Unit {0}} → guard b e ≡ ok u → b ≡ true
guarded true e h = refl
guarded false e h = cc

module _ {L P : Type 0} where
  hosts_of_records-eq-ok :
      (name parent : Bytes) (records : List RawSrvRecord) {hosts : List SrvHost}
      → hosts_of_records {L = L} {P = P} name parent records ≡ ok hosts
      → (hosts ≡ List.map host_of records)
        × All (λ (h : SrvHost). target_in_parent_domain h.host parent ≡ true) hosts
  unfolding hosts_of_records
  hosts_of_records-eq-ok name parent [] h =
      let same = ok-same h in
      (
        sym same,
        subst (λ l. All (λ (h : SrvHost). target_in_parent_domain h.host parent ≡ true) l) same tt,
      )
  hosts_of_records-eq-ok name parent (r ∷ rs) h =
      let host = strip_trailing_dot r.target in
      let (_, e1, e2) =
        >>=-eq-ok (guard (target_in_parent_domain host parent) (domain_mismatch name parent host)) _
          h in
      let (hosts, e3, e4) = >>=-eq-ok (hosts_of_records name parent rs) _ e2 in
      let (taken, inside) = hosts_of_records-eq-ok name parent rs e3 in
      let same = ok-same e4 in
      (
        sym same ∙ ap (λ (l : List SrvHost). host_of r ∷ l) taken,
        subst (λ l. All (λ (h : SrvHost). target_in_parent_domain h.host parent ≡ true) l) same
            (
              guarded (target_in_parent_domain host parent) (domain_mismatch name parent host) e1,
              inside,
            ),
      )

  some_hosts-eq-ok :
      (name service : Bytes) (found : List SrvHost) {hosts : List SrvHost}
      → some_hosts {L = L} {P = P} name service found ≡ ok hosts
      → (found ≡ hosts) × (hosts ≢ [])
  unfolding some_hosts
  some_hosts-eq-ok name service [] h = cc
  some_hosts-eq-ok name service (x ∷ xs) h = (ok-same h, subst (λ l. l ≢ []) (ok-same h) (λ e. cc))

  module _ (rng : WeightedRng) (entropy : rng.Rng) where
    ordered-Perm :
        (raw ordered : List RawSrvRecord)
        → Ends rng raw [] (order_by_priority_weight rng raw entropy)
        → ordered_or_panic {L = L} {P = P} (order_by_priority_weight rng raw entropy).0 ≡ ok ordered
        → Perm ordered raw
    ordered-Perm raw ordered (inl (xs, s', e, p)) h =
        let given : ordered_or_panic {L = L} {P = P} (some xs) ≡ ok ordered =
          subst (λ o. ordered_or_panic {L = L} {P = P} (o.0) ≡ ok ordered) e h in
        subst (λ l. Perm l raw) (ok-same given) p
    ordered-Perm raw ordered (inr (over, (s', e))) h =
        let given : ordered_or_panic {L = L} {P = P} none ≡ ok ordered =
          subst (λ o. ordered_or_panic {L = L} {P = P} (o.0) ≡ ok ordered) e h in
        absurd cc

    -- When resolving gives hosts, then the lookup of the query name gave records, and the hosts
    -- are those of a permutation of the records without a trailing dot, at least one, each of
    -- which ends in a dot and the parent domain: the host name without its first label, or as it
    -- stands if it has fewer than three labels.
    pub resolve_with-IsResolved :
        (name service : Bytes) (lookup : Bytes → Result L (List RawSrvRecord))
        (hosts : List SrvHost)
        → resolve_with {L = L} {P = P} rng entropy name service lookup ≡ ok hosts
        → (raw : List RawSrvRecord) × (lookup (ascii "_" ++ (service ++ (ascii "._tcp." ++ name)))
            ≡ ok raw)
          × IsResolved name raw hosts
    unfolding resolve_with query_name
    resolve_with-IsResolved name service lookup hosts h =
        let (raw, e1, e2) =
          >>=-eq-ok (map_err (lookup_failed name service) (lookup (query_name service name))) _ h in
        let (ordered, e3, e4) =
          >>=-eq-ok (ordered_or_panic (order_by_priority_weight rng raw entropy).0) _ e2 in
        let (found, e5, e6) = >>=-eq-ok (hosts_of_records name (parent_domain name) ordered) _ e4 in
        let (taken, inside) = hosts_of_records-eq-ok name (parent_domain name) ordered e5 in
        let (same, some_host) = some_hosts-eq-ok name service found e6 in
        let permuted =
          ordered-Perm raw ordered (order_by_priority_weight-Ends rng raw entropy) e3 in
        (
          raw,
          map_err-eq-ok (lookup_failed name service) (lookup (query_name service name)) e1,
          record {
            ordered = ordered;
            permuted = permuted;
            taken = subst (AreTaken ordered) (sym taken ∙ same) (host_of-AreTaken ordered);
            parent = parent_domain name;
            is_parent = parent_domain-IsParent name;
            inside = all_inside (parent_domain name) hosts (
                subst
                  (λ l.
                    All
                      (λ (h : SrvHost). target_in_parent_domain h.host (parent_domain name) ≡ true)
                      l)
                  same inside);
            some_host = some_host;
          },
        )
