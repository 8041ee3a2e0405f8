-- ===== src/Proxy/Startup.antt =====
-- `Proxy::from_uri` of src/serve/service.rs and the constructors that it calls. The resolver's set-up
-- and its lookups, the random numbers, the sockets, and the order in which the probes settle come
-- from outside. The re-probe loop
-- that a constructor starts at the end is in Proxy.Failover.
use mongod_proxy.Bytes.Defs.{Bytes}
use mathlib.Core.List.{Perm}
use mongod_proxy.Bson.{Bson}
use mongod_proxy.Bson.Documents.{Documents}
use mongod_proxy.Service.Dial.{Dialer}
use mongod_proxy.Probe.Hello.{Build, HelloError, probe_all}
use mongod_proxy.Probe.Defs.{SrvHost, Settled}
use mongod_proxy.Proxy.Defs.{
  parse_failed, srv_failed, srv, seed_list, no_primary_among, single, FromUriError, Target,
  UriRoute, route, select_target,
}
use mongod_proxy.Srv.Order.{RawSrvRecord}
use mongod_proxy.Srv.Random.{WeightedRng}
use mongod_proxy.Srv.Resolve.{
  default_srv_service_name, no_primary_of, resolver_init, SrvResolveError, resolve_with,
}
use mongod_proxy.Uri.Defs
use mongod_proxy.Uri
use mongod_proxy.Prelude.{
  unwrap_or, unwrap_or, unwrap_or, unwrap_or, unwrap_or, unwrap_or, unwrap_or, unwrap_or, unwrap_or,
  unwrap_or, unwrap_or, unwrap_or, unwrap_or, unwrap_or, unwrap_or, unwrap_or, unwrap_or, unwrap_or,
  unwrap_or, unwrap_or, unwrap_or, unwrap_or, unwrap_or, unwrap_or, unwrap_or, map_err, Result,
  List, Bool, Option, ok, true, ◌>>=◌,
}

-- `tls` says whether connections are encrypted; the connector itself belongs to rustls.
pub record Proxy : Type 0 where
  pub target : Target
  pub tls : Bool
  pub rewrite_hello : Bool

unfoldable pub with_target : Target → Bool → Proxy
with_target target tls = record { target = target; tls = tls; rewrite_hello = true }

pub record Network (L : Type 0) : Type 1 where
  pub rng : WeightedRng
  pub entropy : rng.Rng
  -- `HickorySrvLookup::from_system_config`, and then `lookup`.
  pub from_system_config : Result L (Bytes → Result L (List RawSrvRecord))
  -- The hosts in the order in which their probes settle, and which of them settle in time.
  pub settle_order : List SrvHost → List SrvHost
  pub in_time : SrvHost → Bool

-- `FuturesUnordered` gives each of its futures once.
pub record IsNetwork {L : Type 0} (net : Network L) : Type 0 where
  pub each_once : (hosts : List SrvHost) → Perm (net.settle_order hosts) hosts

module _ (bson : Bson) (docs : Documents bson.Document) (build : Build docs.Value)
    (dialer : Dialer bson) (get_bool : bson.Document → Bytes → Option Bool) {L : Type 0}
    (net : Network L) where
  abbrev P : Type 0
  P = HelloError bson docs build dialer get_bool

  -- The probes of `select_primary`, by `HelloProbe::new`.
  unfoldable pub probing : Bool → List SrvHost → List (SrvHost × Settled P)
  unfolding probe_all
  probing tls hosts =
      probe_all bson docs build dialer get_bool net.in_time tls (net.settle_order hosts)

  unfoldable pub resolve_with_service_name :
      Bytes → Bytes → Result (SrvResolveError L P) (List SrvHost)
  unfolding resolve_with
  resolve_with_service_name srv_hostname service_name = do
    lookup ← map_err resolver_init net.from_system_config
    resolve_with net.rng net.entropy srv_hostname service_name lookup

  unfoldable pub from_seed_list : List SrvHost → Bool → Result (FromUriError L P) Proxy
  unfolding probing select_target with_target
  from_seed_list hosts use_tls = do
    target ← map_err no_primary_among (select_target (probing use_tls hosts))
    ok (with_target target use_tls)

  unfoldable pub from_srv_inner : Bytes → Bytes → Bool → Result (SrvResolveError L P) Proxy
  unfolding resolve_with_service_name probing select_target with_target
  from_srv_inner srv_hostname service_name tls = do
    hosts ← resolve_with_service_name srv_hostname service_name
    target ← map_err (no_primary_of srv_hostname) (select_target (probing tls hosts))
    ok (with_target target tls)

  unfoldable pub from_route : UriRoute → Result (FromUriError L P) Proxy
  unfolding with_target from_seed_list from_srv_inner
  from_route (single host port use_tls) =
      ok (with_target (record { host = host; port = port }) use_tls)
  from_route (seed_list hosts use_tls) = from_seed_list hosts use_tls
  from_route (srv hostname use_tls service_name) =
      map_err srv_failed
        (from_srv_inner hostname (unwrap_or default_srv_service_name service_name) use_tls)

  unfoldable pub from_uri : Bytes → Result (FromUriError L P) Proxy
  unfolding Uri.Defs.parse route from_route
  from_uri uri = do
    parsed ← map_err parse_failed (Uri.Defs.parse uri)
    found ← route parsed
    from_route found
