-- ===== src/Uri/Parsed.antt =====
-- The results of `parse` in src/uri.rs, and what the comments on their fields ask of them.
use mongod_proxy.Bytes.Text.{ascii}
use mongod_proxy.Bytes.Defs.{eq_bytes, Bytes}
use mongod_proxy.Uri.Text.{split, split_once, parse_u16, u16_digits}
use mongod_proxy.Uri.Defs.{
  parse_srv_service_name, parse_tls_option, missing_host, hosts_of, split_query, parse_scheme,
  missing_scheme, parse_after_scheme, check_service_name, match_port, check_srv_hosts,
  check_srv_port, parse_hosts, parse_host_port, parse_port, Scheme, HostSpec, ParsedConnectionUri,
  parse,
}
use mongod_proxy.Prelude.{
  err-ne-ok, ok-same, none-ne-some, not, guard, ap, ok_or, length, sym, ok_or-eq-ok, suc, refl,
  ◌&&◌, leb, ◌-◌, subst, ◌+◌, ◌*◌, ◌==◌, Bool-cases, arith, ◌≡◌, ◌≤◌, Option, List, ◌≢◌, ℕ, All,
  ◌∷◌, ok, inr, inl, [], none, some, >>=-eq-ok,
}

abbrev pub IsPort : Option ℕ → Type 0
IsPort none = Unit {0}
IsPort (some p) = p ≤ 65535

-- A host has a name, and its port is a `u16`.
pub record IsHost (h : HostSpec) : Type 0 where
  pub named : h.host ≢ []
  pub port_valid : IsPort h.port

-- What the comments on the fields say of a scheme: with `mongodb+srv` one host and no port, and
-- without it no service name.
abbrev pub Fits : Scheme → List HostSpec → Option Bytes → Type 0
Fits Scheme.mongodb hosts name = name ≡ none
Fits Scheme.mongodb_srv hosts name = (h : HostSpec) × ((hosts ≡ h ∷ []) × (h.port ≡ none))

pub record IsParsed (u : ParsedConnectionUri) : Type 0 where
  pub hosts_valid : All IsHost u.hosts
  pub some_host : u.hosts ≢ []
  pub fits : Fits u.scheme u.hosts u.srv_service_name

u16_digits-le : (acc : ℕ) (s : Bytes) {n : ℕ} → acc ≤ 65535 → u16_digits acc s ≡ some n → n ≤ 65535
unfolding u16_digits
u16_digits-le acc [] h e = ground arith
u16_digits-le acc (b ∷ bs) h e =
    let next = acc * 10 + (b - 48) in
    elim (Bool-cases (leb 48 b && leb b 57 && leb next 65535)) [
      | inl t ↦ u16_digits-le next bs (ground arith) (rw t at e)
      | inr f ↦ absurd (none-ne-some (rw f at e))
    ]

parse_u16-le : (s : Bytes) {n : ℕ} → parse_u16 s ≡ some n → n ≤ 65535
unfolding parse_u16
parse_u16-le [] e = ground arith
parse_u16-le (b ∷ []) e = u16_digits-le 0 (b ∷ []) (omega arith) e
parse_u16-le (b ∷ c ∷ bs) e = elim (Bool-cases (b == 43)) [
  | inl t ↦ u16_digits-le 0 (c ∷ bs) (omega arith) (rw t at e)
  | inr f ↦ u16_digits-le 0 (b ∷ c ∷ bs) (omega arith) (rw f at e)
]

Named : Bytes × Option ℕ → Type 0
Named (host, port) = IsHost (record { host = host; port = port })

parse_port-Named :
    (h : ℕ) (hs port_str : Bytes) {r : Bytes × Option ℕ}
    → parse_port (h ∷ hs) port_str ≡ ok r
    → Named r
unfolding parse_port Named
parse_port-Named h hs port_str e =
    let (p, q, same) = >>=-eq-ok _ _ e in
    let valid : Named (h ∷ hs, some p) = record {
      named = λ k. ground arith;
      port_valid = parse_u16-le port_str (ok_or-eq-ok _ _ q);
    } in
    subst Named (ok-same same) valid

match_port-Named :
    (b : ℕ) (bs : Bytes) (o : Option (Bytes × Bytes)) {r : Bytes × Option ℕ}
    → match_port (b ∷ bs) o ≡ ok r
    → Named r
unfolding match_port Named
match_port-Named b bs none e =
    let valid : Named (b ∷ bs, none) = record { named = λ k. ground arith; port_valid = tt } in
    subst Named (ok-same e) valid
match_port-Named b bs (some ([], port_str)) e = absurd (err-ne-ok e)
match_port-Named b bs (some (h ∷ hs, port_str)) e = parse_port-Named h hs port_str e

parse_host_port-Named : (s : Bytes) {r : Bytes × Option ℕ} → parse_host_port s ≡ ok r → Named r
unfolding parse_host_port
parse_host_port-Named [] e = absurd (err-ne-ok e)
parse_host_port-Named (b ∷ bs) e = elim (Bool-cases (b == 91)) [
  | inl t ↦ absurd (err-ne-ok (rw t at e))
  | inr f ↦ match_port-Named b bs _ (rw f at e)
]

-- Every host that the loop gives is valid, and there are as many as texts.
parse_hosts-IsHost :
    (scheme : Scheme) (specs : List Bytes) {hosts : List HostSpec}
    → parse_hosts scheme specs ≡ ok hosts
    → All IsHost hosts × (length hosts ≡ length specs)
unfolding parse_hosts Named
parse_hosts-IsHost scheme [] {hosts} e =
    subst (λ hs. All IsHost hs × (length hs ≡ 0)) (ok-same e) (tt, refl)
parse_hosts-IsHost scheme (spec ∷ specs) {hosts} e =
    let (host, first, e1) = >>=-eq-ok (parse_host_port spec) _ e in
    let (_, _, e2) = >>=-eq-ok (check_srv_port scheme host.1) _ e1 in
    let (rest, e3, e4) = >>=-eq-ok (parse_hosts scheme specs) _ e2 in
    let (valid, n) = parse_hosts-IsHost scheme specs e3 in
    let both : Named host × All IsHost rest = (parse_host_port-Named spec first, valid) in
    let counted : suc (length rest) ≡ suc (length specs) = omega arith in
    subst (λ hs. All IsHost hs × (length hs ≡ suc (length specs))) (ok-same e4) (both, counted)

-- With `mongodb+srv` no host has a port.
check_srv_port-eq-ok :
    (port : Option ℕ) {u : Unit {0}} → check_srv_port Scheme.mongodb_srv port ≡ ok u → port ≡ none
unfolding check_srv_port
check_srv_port-eq-ok none e = refl
check_srv_port-eq-ok (some p) e = absurd (err-ne-ok e)

only_host :
    (spec : Bytes) {hosts : List HostSpec}
    → parse_hosts Scheme.mongodb_srv (spec ∷ []) ≡ ok hosts
    → (h : HostSpec) × ((hosts ≡ h ∷ []) × (h.port ≡ none))
unfolding parse_hosts
only_host spec e =
    let (p, first, e1) = >>=-eq-ok (parse_host_port spec) _ e in
    let (_, no_port, e2) = >>=-eq-ok (check_srv_port Scheme.mongodb_srv p.1) _ e1 in
    (record { host = p.0; port = p.1 }, (sym (ok-same e2), check_srv_port-eq-ok p.1 no_port))

fits_lem :
    (scheme : Scheme) (first : Bytes) (others : List Bytes) (name : Option Bytes) {u : Unit {0}}
    {hosts : List HostSpec} {name' : Option Bytes}
    → check_srv_hosts scheme others ≡ ok u
    → parse_hosts scheme (first ∷ others) ≡ ok hosts
    → check_service_name scheme name ≡ ok name'
    → Fits scheme hosts name'
unfolding check_srv_hosts check_service_name
fits_lem Scheme.mongodb first others none h p c = sym (ok-same c)
fits_lem Scheme.mongodb first others (some v) h p c = absurd (err-ne-ok c)
fits_lem Scheme.mongodb_srv first [] name h p c = only_host first p
fits_lem Scheme.mongodb_srv first (o ∷ os) name h p c = absurd (err-ne-ok h)

after_scheme-IsParsed :
    (scheme : Scheme) (after : Bytes) {u : ParsedConnectionUri}
    → parse_after_scheme scheme after ≡ ok u
    → IsParsed u
unfolding parse_after_scheme
after_scheme-IsParsed scheme after e =
    let (before_query, query) = split_query after in
    let hosts_str = hosts_of before_query in
    let (first, others) = split 44 hosts_str in
    let (_, _, e3) = >>=-eq-ok (guard (not (eq_bytes hosts_str [])) missing_host) _ e in
    let (_, one, e4) = >>=-eq-ok (check_srv_hosts scheme others) _ e3 in
    let (hosts, p, e5) = >>=-eq-ok (parse_hosts scheme (first ∷ others)) _ e4 in
    let (tls, _, e6) = >>=-eq-ok (parse_tls_option query) _ e5 in
    let (name, _, e7) = >>=-eq-ok (parse_srv_service_name query) _ e6 in
    let (name', c, e8) = >>=-eq-ok (check_service_name scheme name) _ e7 in
    let (valid, n) = parse_hosts-IsHost scheme (first ∷ others) p in
    subst IsParsed (ok-same e8) (record {
      hosts_valid = valid;
      some_host = λ k. omega (arith, n, ap (λ (hs : List HostSpec). length hs) k);
      fits = fits_lem scheme first others name one p c;
    })

-- A connection string that parses gives at least one host; every host has a name and every
-- explicit port is at most 65535; with `mongodb+srv` there is exactly one host and it has no
-- port, and with `mongodb` there is no service name.
pub parse-IsParsed : (uri : Bytes) {u : ParsedConnectionUri} → parse uri ≡ ok u → IsParsed u
unfolding parse
parse-IsParsed uri e =
    let (p, _, e1) = >>=-eq-ok (ok_or (split_once (ascii "://") uri) missing_scheme) _ e in
    let (scheme, _, e2) = >>=-eq-ok (parse_scheme p.0) _ e1 in after_scheme-IsParsed scheme p.1 e2
