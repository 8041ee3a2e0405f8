-- ===== src/Proxy/Routes.antt =====
-- Which upstream a connection string leads to, and that the routes of src/serve/service.rs lose
-- nothing that the parser found.
use mongod_proxy.Bytes.Text.{ascii}
use mongod_proxy.Uri
use mathlib.Core.List.{Mem}
use mathlib.Core.List.Perm
use mongod_proxy.Bson.{Bson}
use mongod_proxy.Bson.Documents.{Documents}
use mongod_proxy.Service.Dial.{Dialer}
use mongod_proxy.Probe.Answered
use mongod_proxy.Probe.Hello.{Build, HelloError}
use mongod_proxy.Uri.Parsed.{parse-IsParsed, IsHost, IsPort}
use mongod_proxy.Bytes.Defs.{Bytes}
use mongod_proxy.Srv.Resolve.{no_primary_of, default_srv_service_name}
use mathlib.Core.List
use mongod_proxy.Probe.Defs.{no_primary, primary, Selection, SrvHost, select_primary}
use mongod_proxy.Proxy.Defs.{
  FromUriError, srv_failed, no_primary_among, srv, seed_list, single, route, UriRoute, route_by,
  with_default_port, target_of, selected, Target, select_target,
}
use mongod_proxy.Proxy.Startup.{
  probing, IsNetwork, Proxy, with_target, from_route, from_uri, from_seed_list, from_srv_inner,
  resolve_with_service_name, Network,
}
use mongod_proxy.Uri.Defs.{HostSpec, ParsedConnectionUri, Scheme}
use mongod_proxy.Prelude.{
  subst, unwrap_or, unwrap_or, unwrap_or, unwrap_or, unwrap_or, unwrap_or, unwrap_or, unwrap_or,
  unwrap_or, unwrap_or, unwrap_or, unwrap_or, unwrap_or, unwrap_or, unwrap_or, unwrap_or, unwrap_or,
  unwrap_or, unwrap_or, unwrap_or, unwrap_or, unwrap_or, unwrap_or, unwrap_or, unwrap_or,
  map_err-eq-ok, ap, map_err, sym, arith, ◌>>=◌, >>=-eq-ok, length, ◌≤◌, ℕ, All, Option, ◌≢◌, none,
  some, ok-same, Bool, ◌≡◌, List, ◌∷◌, ok, [], false, true, refl,
}

selected-eq-ok :
    {P : Type 0} (s : Selection P) {t : Target}
    → selected s ≡ ok t
    → (h : SrvHost) × (s ≡ primary h) × (target_of h ≡ t)
unfolding selected
selected-eq-ok (primary h) e = (h, refl, ok-same e)
selected-eq-ok (no_primary attempts) e = cc

-- TLS is off for the plain scheme and on for the other, when the string does not say.
abbrev pub default_tls : Scheme → Bool
default_tls Scheme.mongodb = false
default_tls Scheme.mongodb_srv = true

module _ (bson : Bson) (docs : Documents bson.Document) (build : Build docs.Value)
    (dialer : Dialer bson) (get_bool : bson.Document → Bytes → Option Bool) {L : Type 0}
    (net : Network L) where
  abbrev P : Type 0
  P = HelloError bson docs build dialer get_bool

  -- A host of the string, at port 27017 without one.
  abbrev seed : HostSpec → SrvHost
  seed h = record { host = h.host; port = unwrap_or 27017 h.port }

  -- One of some hosts that was dialled, and whose first reply says that it is the primary.
  abbrev pub IsPicked : Bool → List SrvHost → Target → Type 0
  IsPicked tls hosts target =
      (picked : SrvHost) × Mem picked hosts
      × Answered.Answered bson docs build dialer get_bool tls picked true
      × (target_of picked ≡ target)

  -- A single host is taken as it is written; of several hosts, or of those that the lookup gives,
  -- one that answered as the primary.
  abbrev pub IsUpstream : Scheme → List HostSpec → Bool → Option Bytes → Target → Type 0
  IsUpstream scheme [] tls name target = ⊥
  IsUpstream Scheme.mongodb (h ∷ []) tls name target = target ≡ target_of (seed h)
  IsUpstream Scheme.mongodb (h ∷ g ∷ hs) tls name target =
      IsPicked tls (List.map seed (h ∷ g ∷ hs)) target
  IsUpstream Scheme.mongodb_srv (h ∷ hs) tls name target =
      (hosts : List SrvHost) × (resolve_with_service_name bson docs build dialer get_bool net h.host
          (unwrap_or (ascii "mongodb") name)
        ≡ ok hosts)
      × IsPicked tls hosts target

  abbrev pub Leads : Scheme → List HostSpec → Option Bool → Option Bytes → Proxy → Type 0
  Leads scheme hosts tls name p =
      IsUpstream scheme hosts p.tls name p.target × (p.tls ≡ unwrap_or (default_tls scheme) tls)

  module _ (laws : IsNetwork net) where
    select_target-IsPicked :
        (tls : Bool) (hosts : List SrvHost) {t : Target}
        → select_target (probing bson docs build dialer get_bool net tls hosts) ≡ ok t
        → IsPicked tls hosts t
    unfolding select_target probing
    select_target-IsPicked tls hosts e =
        let probes = probing bson docs build dialer get_bool net tls hosts in
        let (h, e1, e2) = selected-eq-ok (select_primary probes) e in
        let (member, said) =
          Answered.select_primary-Answered bson docs build dialer get_bool net.in_time tls
            (net.settle_order hosts) h e1 in
        (h, (Perm.mem_iff (laws.each_once hosts)).0 member, said, e2)

    with_target-IsPicked :
        (tls : Bool) (hosts : List SrvHost) (t : Target) {p : Proxy}
        → IsPicked tls hosts t
        → ◌≡◌ {A = Proxy} (with_target t tls) p
        → IsPicked p.tls hosts p.target × (p.tls ≡ tls)
    unfolding with_target
    with_target-IsPicked tls hosts t h same =
        subst (λ (p : Proxy). IsPicked p.tls hosts p.target × (p.tls ≡ tls)) same (h, refl)

    from_seed_list-IsPicked :
        (hosts : List SrvHost) (tls : Bool) {p : Proxy}
        → from_seed_list bson docs build dialer get_bool net hosts tls ≡ ok p
        → IsPicked p.tls hosts p.target × (p.tls ≡ tls)
    unfolding from_seed_list
    from_seed_list-IsPicked hosts tls e =
        let chosen = select_target (probing bson docs build dialer get_bool net tls hosts) in
        let (t, e1, e2) = >>=-eq-ok (map_err no_primary_among chosen) _ e in
        with_target-IsPicked tls hosts t
          (select_target-IsPicked tls hosts (map_err-eq-ok no_primary_among chosen e1)) (ok-same e2)

    from_srv_inner-IsPicked :
        (name service : Bytes) (tls : Bool) {p : Proxy}
        → from_srv_inner bson docs build dialer get_bool net name service tls ≡ ok p
        → ((hosts : List SrvHost) × (resolve_with_service_name bson docs build dialer get_bool net
                name service
              ≡ ok hosts)
            × IsPicked p.tls hosts p.target)
          × (p.tls ≡ tls)
    unfolding from_srv_inner
    from_srv_inner-IsPicked name service tls e =
        let (hosts, e1, e2) =
          >>=-eq-ok (resolve_with_service_name bson docs build dialer get_bool net name service) _
            e in
        let chosen = select_target (probing bson docs build dialer get_bool net tls hosts) in
        let (t, e3, e4) = >>=-eq-ok (map_err (no_primary_of name) chosen) _ e2 in
        let (picked, same) =
          with_target-IsPicked tls hosts t
            (select_target-IsPicked tls hosts (map_err-eq-ok (no_primary_of name) chosen e3))
            (ok-same e4) in
        ((hosts, e1, picked), same)

    route_by-Leads :
        (scheme : Scheme) (hosts : List HostSpec) (tls : Option Bool) (name : Option Bytes)
        (p : Proxy)
        → (route_by {L = L} {P = P} scheme hosts tls name
            >>= from_route bson docs build dialer get_bool net)
          ≡ ok p
        → Leads scheme hosts tls name p
    unfolding route_by from_route with_target with_default_port
    route_by-Leads Scheme.mongodb [] tls name p e = cc
    route_by-Leads Scheme.mongodb_srv [] tls name p e = cc
    route_by-Leads Scheme.mongodb (h ∷ []) tls name p e =
        let same = ok-same e in
        (sym (ap (λ (p : Proxy). p.target) same), sym (ap (λ (p : Proxy). p.tls) same))
    route_by-Leads Scheme.mongodb (h ∷ g ∷ hs) tls name p e =
        from_seed_list-IsPicked (List.map with_default_port (h ∷ g ∷ hs)) (unwrap_or false tls) e
    route_by-Leads Scheme.mongodb_srv (h ∷ hs) tls name p e =
        let service = unwrap_or default_srv_service_name name in
        from_srv_inner-IsPicked h.host service (unwrap_or true tls) (
          map_err-eq-ok srv_failed
            (from_srv_inner bson docs build dialer get_bool net h.host service (unwrap_or true tls))
            e)

    -- When the probes settle each once, a proxy made from a connection string has a string that
    -- parses; its target is the single host of the plain scheme with port 27017 by default, or
    -- one of the several hosts, or of those that the lookup of the one `mongodb+srv` host gives
    -- under the service name, `mongodb` by default, and that one was dialled and said in its
    -- first reply that it is the primary; TLS is as the string says, and otherwise on only with
    -- `mongodb+srv`.
    pub from_uri-Leads :
        (uri : Bytes) (p : Proxy)
        → from_uri bson docs build dialer get_bool net uri ≡ ok p
        → (u : ParsedConnectionUri) × (Uri.Defs.parse uri ≡ ok u)
          × Leads u.scheme u.hosts u.tls u.srv_service_name p
    unfolding from_uri route
    from_uri-Leads uri p e =
        let (u, e1, e2) = >>=-eq-ok (map_err FromUriError.parse_failed (Uri.Defs.parse uri)) _ e in
        (
          u,
          map_err-eq-ok FromUriError.parse_failed (Uri.Defs.parse uri) e1,
          route_by-Leads u.scheme u.hosts u.tls u.srv_service_name p e2,
        )

-- A host has a name and a port below 65536, and a seed list has two hosts at least.
abbrev pub IsSrvHost : SrvHost → Type 0
IsSrvHost h = (h.host ≢ []) × (h.port ≤ 65535)

abbrev pub IsRoute : UriRoute → Type 0
IsRoute (single host port use_tls) = (host ≢ []) × (port ≤ 65535)
IsRoute (seed_list hosts use_tls) = (2 ≤ length hosts) × All IsSrvHost hosts
IsRoute (srv hostname use_tls service_name) = hostname ≢ []

port_le : (o : Option ℕ) → IsPort o → unwrap_or 27017 o ≤ 65535
port_le none h = omega arith
port_le (some p) h = h

defaults : (hs : List HostSpec) → All IsHost hs → All IsSrvHost (List.map with_default_port hs)
unfolding with_default_port
defaults [] h = tt
defaults (x ∷ xs) (h, hs) = ((h.named, port_le x.port h.port_valid), defaults xs hs)

module _ {L P : Type 0} where
  routed :
      (scheme : Scheme) (hosts : List HostSpec) (tls : Option Bool) (name : Option Bytes)
      → All IsHost hosts
      → hosts ≢ []
      → (r : UriRoute) × (route_by {L = L} {P = P} scheme hosts tls name ≡ ok r) × IsRoute r
  unfolding route_by
  routed scheme [] tls name h some_host = absurd (some_host refl)
  routed Scheme.mongodb (x ∷ []) tls name (h, hs) some_host =
      (_, refl, (h.named, port_le x.port h.port_valid))
  routed Scheme.mongodb (x ∷ y ∷ xs) tls name h some_host =
      (_, refl, (omega arith, defaults (x ∷ y ∷ xs) h))
  routed Scheme.mongodb_srv (x ∷ xs) tls name (h, hs) some_host = (_, refl, h.named)

  -- A connection string that parses has a route: a host with a name and a port below 65536, a
  -- seed list of two such hosts at least, or a name for the lookup.
  pub route-IsRoute :
      (uri : Bytes) (u : ParsedConnectionUri)
      → Uri.Defs.parse uri ≡ ok u
      → (r : UriRoute) × (route {L = L} {P = P} u ≡ ok r) × IsRoute r
  unfolding route
  route-IsRoute uri u e =
      let v = parse-IsParsed uri e in
      routed u.scheme u.hosts u.tls u.srv_service_name v.hosts_valid v.some_host
