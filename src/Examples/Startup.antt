-- ===== src/Examples/Startup.antt =====
-- Connection strings, the order of SRV records and the choice of the primary, run.
use mongod_proxy.Srv.ZeroWeights.{order_by_priority_weight_zero}
use mongod_proxy.Bytes.Defs.{Bytes}
use mongod_proxy.Bytes.Text.{ascii}
use mongod_proxy.Uri.Defs.{ParsedConnectionUri, parse, Scheme}
use mongod_proxy.Uri.Parsed.{IsParsed, parse-IsParsed}
use mongod_proxy.Srv.Random.{split_mix_64-IsWeightedRng, SplitMix64, split_mix_64}
use mongod_proxy.Srv.Order.{RawSrvRecord, order_by_priority_weight}
use mongod_proxy.Srv.Ordered.{Ends, order_by_priority_weight-Ends}
use mongod_proxy.Probe.Defs.{SrvHost, Settled, Selection, select_primary, ProbeOutcome}
use mongod_proxy.Probe.Race.{Rejected, select_primary-first, select_primary-Rejected}
use mongod_proxy.Prelude.{ℕ, List, ◌≡◌, ◌++◌, ◌∷◌, ok, [], none, some, false, true, refl}

abbrev uri : Bytes
uri = ascii "mongodb://u:p@a:1,b/db?TLS=true"

abbrev seeds : ParsedConnectionUri
seeds = record {
  scheme = Scheme.mongodb;
  hosts =
      record { host = ascii "a"; port = some 1 } ∷ record { host = ascii "b"; port = none } ∷ [];
  tls = some true;
  srv_service_name = none;
}

uri_parsed : parse uri ≡ ok seeds
unfolding parse mongod_proxy.Uri.Text.split_once mongod_proxy.Bytes.Defs.eq_bytes
    mongod_proxy.Uri.Text.rsplit_once mongod_proxy.Uri.Text.split mongod_proxy.Uri.Text.parse_u16
uri_parsed = refl

parse-IsParsed_example : IsParsed seeds
parse-IsParsed_example = parse-IsParsed uri uri_parsed

abbrev seed : SplitMix64
seed = record { state = 42 }

abbrev records : List RawSrvRecord
records =
    record { target = ascii "a"; port = 1; priority = 2; weight = 0 }
    ∷ record { target = ascii "b"; port = 2; priority = 1; weight = 5 }
    ∷ record { target = ascii "c"; port = 3; priority = 1; weight = 9 }
    ∷ []

order_by_priority_weight-Ends_example :
    Ends split_mix_64 records [] (order_by_priority_weight split_mix_64 records seed)
order_by_priority_weight-Ends_example = order_by_priority_weight-Ends split_mix_64 records seed

abbrev light : List RawSrvRecord
light =
    record { target = ascii "a"; port = 1; priority = 2; weight = 0 }
    ∷ record { target = ascii "b"; port = 2; priority = 1; weight = 0 }
    ∷ []

abbrev light_sorted : List RawSrvRecord
light_sorted =
    record { target = ascii "b"; port = 2; priority = 1; weight = 0 }
    ∷ record { target = ascii "a"; port = 1; priority = 2; weight = 0 }
    ∷ []

order_by_priority_weight_zero_example :
    (s' : SplitMix64) × (order_by_priority_weight split_mix_64 light seed ≡ (some light_sorted, s'))
order_by_priority_weight_zero_example =
    order_by_priority_weight_zero split_mix_64 split_mix_64-IsWeightedRng light seed
      (refl, (refl, tt))

abbrev host_a : SrvHost
host_a = record { host = ascii "a"; port = 1 }

abbrev host_b : SrvHost
host_b = record { host = ascii "b"; port = 2 }

abbrev probes : List (SrvHost × Settled ℕ)
probes = (host_a, Settled.elapsed) ∷ (host_b, Settled.answered false) ∷ []

probes-Rejected :
    Rejected probes ((host_a, ProbeOutcome.timed_out) ∷ (host_b, ProbeOutcome.not_primary) ∷ [])
unfolding mongod_proxy.Probe.Race.reason
probes-Rejected = Rejected.one_more refl (Rejected.one_more refl Rejected.all_seen)

select_primary-Rejected_example :
    select_primary probes
    ≡ Selection.no_primary
        ((host_a, ProbeOutcome.timed_out) ∷ (host_b, ProbeOutcome.not_primary) ∷ [])
select_primary-Rejected_example = select_primary-Rejected probes-Rejected

select_primary-first_example :
    select_primary (probes ++ ((host_b, Settled.answered true) ∷ (host_a, Settled.broke 3) ∷ []))
    ≡ Selection.primary host_b
select_primary-first_example =
    select_primary-first host_b ((host_a, Settled.broke 3) ∷ []) probes-Rejected
