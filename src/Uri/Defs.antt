-- ===== src/Uri/Defs.antt =====
-- `parse` and the helpers that it calls.
use mongod_proxy.Bytes.Defs.{Bytes, eq_bytes}
use mongod_proxy.Bytes.Text.{ascii}
use mongod_proxy.Uri.Text.{
  parse_u16, eq_ignore_ascii_case, to_ascii_lowercase, rsplit_once, split, split_once,
}
use mongod_proxy.Prelude.{
  ◌&&◌, ◌==◌, not, guard, ℕ, if◌then◌else◌, Bool, List, Option, ok_or, ◌∷◌, err, ok, [], none, some,
  false, true, ◌>>=◌, Result,
}

pub data Scheme : Type 0 where
  mongodb : Scheme
  mongodb_srv : Scheme

pub record HostSpec : Type 0 where
  pub host : Bytes
  pub port : Option ℕ

pub record ParsedConnectionUri : Type 0 where
  pub scheme : Scheme
  pub hosts : List HostSpec
  pub tls : Option Bool
  pub srv_service_name : Option Bytes

pub data ConnectionUriError : Type 0 where
  missing_scheme : ConnectionUriError
  unsupported_scheme : Bytes → ConnectionUriError
  missing_host : ConnectionUriError
  invalid_port : Bytes → ConnectionUriError
  invalid_tls_value : Bytes → Bytes → ConnectionUriError
  conflicting_tls_ssl : Bool → Bool → ConnectionUriError
  invalid_srv_host : ConnectionUriError
  srv_service_name_on_non_srv : Bytes → ConnectionUriError
  invalid_host : Bytes → ConnectionUriError

-- The loop over the `&`-separated pairs; a later value replaces an earlier one.
unfoldable pub service_name_from : Option Bytes → List Bytes → Option Bytes
service_name_from value [] = value
service_name_from value (pair ∷ pairs) = elim (split_once (ascii "=") pair) [
  | none ↦ service_name_from value pairs
  | some (k, v) ↦
      let named = eq_ignore_ascii_case k (ascii "srvServiceName") && not (eq_bytes v []) in
      service_name_from (if named then some v else value) pairs
]

unfoldable pub parse_srv_service_name : Option Bytes → Result ConnectionUriError (Option Bytes)
unfolding service_name_from
parse_srv_service_name none = ok none
parse_srv_service_name (some query) =
    let (first, others) = split 38 query in ok (service_name_from none (first ∷ others))

-- The arm with a port.
unfoldable pub parse_port : Bytes → Bytes → Result ConnectionUriError (Bytes × Option ℕ)
parse_port host port_str = do
  port ← ok_or (parse_u16 port_str) (invalid_port port_str)
  ok (host, some port)

-- The `match` on the text split at its last colon.
unfoldable pub match_port :
    Bytes → Option (Bytes × Bytes) → Result ConnectionUriError (Bytes × Option ℕ)
unfolding parse_port
match_port s none = ok (s, none)
match_port s (some ([], port_str)) = err missing_host
match_port s (some (h ∷ hs, port_str)) = parse_port (h ∷ hs) port_str

unfoldable pub parse_host_port : Bytes → Result ConnectionUriError (Bytes × Option ℕ)
unfolding match_port
parse_host_port [] = err missing_host
parse_host_port (b ∷ bs) =
    if b == 91 then err (invalid_host (b ∷ bs)) else match_port (b ∷ bs) (rsplit_once 58 (b ∷ bs))

unfoldable pub parse_bool : Bytes → Bytes → Result ConnectionUriError Bool
parse_bool key value =
    let lower = to_ascii_lowercase value in
    if eq_bytes lower (ascii "true")
    then ok true
    else if eq_bytes lower (ascii "false")
    then ok false
    else err (invalid_tls_value key value)

-- The body of the loop over the pairs: the values of `tls` and of `ssl` so far.
unfoldable pub tls_pair :
    Option Bool → Option Bool → Bytes → Result ConnectionUriError (Option Bool × Option Bool)
unfolding parse_bool
tls_pair tls ssl pair = elim (split_once (ascii "=") pair) [
  | none ↦ ok (tls, ssl)
  | some (k, v) ↦
      let key = to_ascii_lowercase k in
      if eq_bytes key (ascii "tls")
      then (do b ← parse_bool (ascii "tls") v; ok (some b, ssl))
      else if eq_bytes key (ascii "ssl")
      then (do b ← parse_bool (ascii "ssl") v; ok (tls, some b))
      else ok (tls, ssl)
]

unfoldable pub tls_from :
    Option Bool → Option Bool → List Bytes → Result ConnectionUriError (Option Bool × Option Bool)
unfolding tls_pair
tls_from tls ssl [] = ok (tls, ssl)
tls_from tls ssl (pair ∷ pairs) = do (tls', ssl') ← tls_pair tls ssl pair; tls_from tls' ssl' pairs

-- The `match` behind the loop.
unfoldable pub resolve_tls : Option Bool → Option Bool → Result ConnectionUriError (Option Bool)
resolve_tls none none = ok none
resolve_tls (some t) none = ok (some t)
resolve_tls none (some s) = ok (some s)
resolve_tls (some true) (some true) = ok (some true)
resolve_tls (some false) (some false) = ok (some false)
resolve_tls (some true) (some false) = err (conflicting_tls_ssl true false)
resolve_tls (some false) (some true) = err (conflicting_tls_ssl false true)

unfoldable pub parse_tls_option : Option Bytes → Result ConnectionUriError (Option Bool)
unfolding tls_from resolve_tls
parse_tls_option none = ok none
parse_tls_option (some query) = do
  (tls, ssl) ← (let (first, others) = split 38 query in tls_from none none (first ∷ others))
  resolve_tls tls ssl

unfoldable pub parse_scheme : Bytes → Result ConnectionUriError Scheme
parse_scheme s =
    if eq_bytes s (ascii "mongodb")
    then ok mongodb
    else if eq_bytes s (ascii "mongodb+srv")
    then ok mongodb_srv
    else err (unsupported_scheme s)

-- An explicit port on a host of a `mongodb+srv://` string is an error.
unfoldable pub check_srv_port : Scheme → Option ℕ → Result ConnectionUriError (Unit {0})
check_srv_port mongodb_srv (some port) = err invalid_srv_host
check_srv_port scheme port = ok tt

-- The loop over the hosts.
unfoldable pub parse_hosts : Scheme → List Bytes → Result ConnectionUriError (List HostSpec)
unfolding parse_host_port check_srv_port
parse_hosts scheme [] = ok []
parse_hosts scheme (spec ∷ specs) = do
  (host, port) ← parse_host_port spec
  _ ← check_srv_port scheme port
  rest ← parse_hosts scheme specs
  ok (record { host = host; port = port } ∷ rest)

-- Only one host may stand in a `mongodb+srv://` string.
unfoldable pub check_srv_hosts : Scheme → List Bytes → Result ConnectionUriError (Unit {0})
check_srv_hosts mongodb_srv (other ∷ others) = err invalid_srv_host
check_srv_hosts scheme others = ok tt

unfoldable pub check_service_name : Scheme → Option Bytes → Result ConnectionUriError (Option Bytes)
check_service_name mongodb (some value) = err (srv_service_name_on_non_srv value)
check_service_name scheme name = ok name

-- The last `@` ends the user and the password.
unfoldable pub behind_user : Bytes → Bytes
behind_user before_query = elim (rsplit_once 64 before_query) [
  | none ↦ before_query
  | some (user, rest) ↦ rest
]

-- The user and the password, and the database, are cut off.
unfoldable pub hosts_of : Bytes → Bytes
unfolding behind_user
hosts_of before_query =
    let hosts_and_db = behind_user before_query in
    elim (split_once (ascii "/") hosts_and_db) [ none ↦ hosts_and_db | some (hosts, db) ↦ hosts ]

unfoldable pub split_query : Bytes → Bytes × Option Bytes
split_query after_scheme = elim (split_once (ascii "?") after_scheme) [
  | none ↦ (after_scheme, none)
  | some (before, query) ↦ (before, some query)
]

-- The part of `parse` behind the scheme.
unfoldable pub parse_after_scheme : Scheme → Bytes → Result ConnectionUriError ParsedConnectionUri
unfolding split_query hosts_of check_srv_hosts parse_hosts parse_tls_option parse_srv_service_name
    check_service_name
parse_after_scheme scheme after_scheme =
    let (before_query, query) = split_query after_scheme in
    let hosts_str = hosts_of before_query in
    let (first, others) = split 44 hosts_str in
    (do
      _ ← guard (not (eq_bytes hosts_str [])) missing_host
      _ ← check_srv_hosts scheme others
      hosts ← parse_hosts scheme (first ∷ others)
      tls ← parse_tls_option query
      name ← parse_srv_service_name query
      name' ← check_service_name scheme name
      ok (record { scheme = scheme; hosts = hosts; tls = tls; srv_service_name = name' }))

unfoldable pub parse : Bytes → Result ConnectionUriError ParsedConnectionUri
unfolding parse_scheme parse_after_scheme
parse uri = do
  (scheme_str, after_scheme) ← ok_or (split_once (ascii "://") uri) missing_scheme
  scheme ← parse_scheme scheme_str
  parse_after_scheme scheme after_scheme
