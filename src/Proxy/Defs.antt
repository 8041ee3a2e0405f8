-- ===== src/Proxy/Defs.antt =====
-- The route of a connection string and the upstream target of src/serve/service.rs. Durations are
-- milliseconds.
use mongod_proxy.Prelude.{
  unwrap_or, ◌==◌, if◌then◌else◌, ◌&&◌, ℕ, Option, Bool, List, Result, ◌∷◌, err, ok, [], none, some,
  false, true,
}
use mathlib.Core.List
use mongod_proxy.Bytes.Defs.{Bytes, eq_bytes}
use mongod_proxy.Probe.Defs.{
  no_primary, primary, Selection, SrvHost, ProbeOutcome, Settled, select_primary,
}
use mongod_proxy.Srv.Resolve.{SrvResolveError}
use mongod_proxy.Uri.Defs.{missing_host, ParsedConnectionUri, HostSpec, Scheme, ConnectionUriError}

pub record Target : Type 0 where
  pub host : Bytes
  pub port : ℕ

abbrev pub target_of : SrvHost → Target
target_of h = record { host = h.host; port = h.port }

unfoldable pub eq_target : Target → Target → Bool
unfolding eq_bytes
eq_target a b = eq_bytes a.host b.host && (a.port == b.port)

-- Whether the target was swapped, and what it is then.
unfoldable pub apply_primary : Target → SrvHost → Bool × Target
unfolding eq_target
apply_primary target picked =
    if eq_target target (target_of picked) then (false, target) else (true, target_of picked)

pub record FailoverConfig : Type 0 where
  pub reprobe_interval : Option ℕ
  pub probe_timeout : ℕ

abbrev pub default_reprobe_interval : ℕ
default_reprobe_interval = 60000

abbrev pub default_probe_timeout : ℕ
default_probe_timeout = 5000

unfoldable pub default_failover : FailoverConfig
default_failover = record {
  reprobe_interval = some default_reprobe_interval;
  probe_timeout = default_probe_timeout;
}

unfoldable pub every : ℕ → FailoverConfig
unfolding default_failover
every interval = record default_failover { reprobe_interval = some interval }

unfoldable pub disabled : FailoverConfig
unfolding default_failover
disabled = record default_failover { reprobe_interval = none }

unfoldable pub with_probe_timeout : FailoverConfig → ℕ → FailoverConfig
with_probe_timeout config probe_timeout = record config { probe_timeout = probe_timeout }

pub data UriRoute : Type 0 where
  single : Bytes → ℕ → Bool → UriRoute
  seed_list : List SrvHost → Bool → UriRoute
  srv : Bytes → Bool → Option Bytes → UriRoute

-- `L` is the failure of the DNS lookup and `P` that of a probe.
pub data FromUriError (L P : Type 0) : Type 0 where
  parse_failed : ConnectionUriError → FromUriError L P
  srv_failed : SrvResolveError L P → FromUriError L P
  no_primary_among : List (SrvHost × ProbeOutcome P) → FromUriError L P

unfoldable pub with_default_port : HostSpec → SrvHost
with_default_port h = record { host = h.host; port = unwrap_or 27017 h.port }

module _ {L P : Type 0} where
  unfoldable pub route_by :
      Scheme → List HostSpec → Option Bool → Option Bytes → Result (FromUriError L P) UriRoute
  unfolding with_default_port
  route_by Scheme.mongodb [] tls name = err (parse_failed missing_host)
  route_by Scheme.mongodb (h ∷ []) tls name =
      ok (single h.host (unwrap_or 27017 h.port) (unwrap_or false tls))
  route_by Scheme.mongodb (h ∷ g ∷ hs) tls name =
      ok (seed_list (List.map with_default_port (h ∷ g ∷ hs)) (unwrap_or false tls))
  route_by Scheme.mongodb_srv [] tls name = err (parse_failed missing_host)
  route_by Scheme.mongodb_srv (h ∷ hs) tls name = ok (srv h.host (unwrap_or true tls) name)

  unfoldable pub route : ParsedConnectionUri → Result (FromUriError L P) UriRoute
  unfolding route_by
  route parsed = route_by parsed.scheme parsed.hosts parsed.tls parsed.srv_service_name

-- The probes in the order in which they settle.
unfoldable pub selected :
    {P : Type 0} → Selection P → Result (List (SrvHost × ProbeOutcome P)) Target
selected (primary h) = ok (target_of h)
selected (no_primary attempts) = err attempts

unfoldable pub select_target :
    {P : Type 0} → List (SrvHost × Settled P) → Result (List (SrvHost × ProbeOutcome P)) Target
unfolding selected select_primary
select_target probes = selected (select_primary probes)
