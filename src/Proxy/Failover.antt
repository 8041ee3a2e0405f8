-- ===== src/Proxy/Failover.antt =====
-- The re-probe loop of src/serve/service.rs beside the connections that the proxy accepts. The
-- events stand in the order in which the target cell sees them.
use mongod_proxy.Bytes.Laws.{eq_bytes_refl, eq_bytes_iff}
use mongod_proxy.Prelude.{
  append_assoc, ap, ◌≢◌, subst, ◌∙◌, ==_iff, append-nil, Bool-cases, arith, ◌↔◌, sym, Option, ◌≡◌,
  List, ◌++◌, ◌∷◌, out_of_fuel, err, ok, inr, inl, [], none, some, false, true, refl,
}
use mongod_proxy.Bytes.Defs.{Bytes}
use mongod_proxy.Probe.Defs.{SrvHost, select_primary, into_primary}
use mongod_proxy.Proxy.Defs.{target_of, Target, apply_primary, eq_target}
use mongod_proxy.Proxy.Startup.{probing, Network, resolve_with_service_name}
use mongod_proxy.Bson.{Bson}
use mongod_proxy.Bson.Documents.{Documents}
use mongod_proxy.Service.Dial.{Dialer}
use mongod_proxy.Probe.Hello.{Build}
use mathlib.Core.Bool.{Bool}

module _ (bson : Bson) (docs : Documents bson.Document) (build : Build docs.Value)
    (dialer : Dialer bson) (get_bool : bson.Document → Bytes → Option Bool) {L : Type 0}
    (net : Network L) where
  unfoldable pub reselect_seed_list : Bool → List SrvHost → Option SrvHost
  unfolding probing select_primary into_primary
  reselect_seed_list tls hosts =
      into_primary (select_primary (probing bson docs build dialer get_bool net tls hosts))

  -- `tls` is whether the probe encrypts its connections.
  unfoldable pub resolve_and_select : Bool → Bytes → Bytes → Option SrvHost
  unfolding resolve_with_service_name probing select_primary into_primary
  resolve_and_select tls hostname service_name =
      elim (resolve_with_service_name bson docs build dialer get_bool net hostname service_name) [
        | ok hosts ↦
            into_primary (select_primary (probing bson docs build dialer get_bool net tls hosts))
        | err e ↦ none
        | out_of_fuel ↦ none
      ]

-- A tick of the loop with what its selection gave, or a connection that is accepted.
pub data Event : Type 0 where
  tick : Option SrvHost → Event
  accept : Event

-- The target cell, and the address that each connection was dialled to.
pub record Upstream : Type 0 where
  pub target : Target
  pub connections : List Target

unfoldable pub read_target : Target → Target
read_target target = record { host = target.host; port = target.port }

unfoldable pub on_event : Event → Upstream → Upstream
unfolding apply_primary read_target
on_event (tick none) s = s
on_event (tick (some picked)) s = record s { target = (apply_primary s.target picked).1 }
on_event accept s = record s { connections = s.connections ++ (read_target s.target ∷ []) }

unfoldable pub run : List Event → Upstream → Upstream
unfolding on_event
run [] s = s
run (e ∷ es) s = run es (on_event e s)

-- The target is the primary that was selected last, and each connection goes to the target of the
-- moment at which it was accepted.
abbrev pub latest : Target → Event → Target
latest target (tick none) = target
latest target (tick (some picked)) = target_of picked
latest target accept = target

abbrev pub last_target : Target → List Event → Target
last_target target [] = target
last_target target (e ∷ es) = last_target (latest target e) es

abbrev pub dialled : Target → List Event → List Target
dialled target [] = []
dialled target (tick picked ∷ es) = dialled (latest target (tick picked)) es
dialled target (accept ∷ es) = target ∷ dialled target es

eq_target-eq : (a b : Target) → eq_target a b ≡ true → a ≡ b
unfolding eq_target
eq_target-eq a b h = λ i. record {
  host = (eq_bytes_iff a.host b.host).0 (ground arith) i;
  port = (==_iff a.port b.port).0 (ground arith) i;
}

eq_target_refl : (a : Target) → eq_target a a ≡ true
unfolding eq_target
eq_target_refl a = ground (arith, eq_bytes_refl a.host)

true-ne-false : true ≢ false
true-ne-false e = cc

-- The target becomes the primary, and the answer is that nothing was swapped exactly when it was
-- the target before.
pub apply_primary-swaps :
    (target : Target) (picked : SrvHost)
    → ((apply_primary target picked).1 ≡ target_of picked)
      × (((apply_primary target picked).0 ≡ false) ↔ (target ≡ target_of picked))
unfolding apply_primary
apply_primary-swaps target picked = elim (Bool-cases (eq_target target (target_of picked))) [
  | inl t ↦
      rw (apply_primary, t)
        (
          eq_target-eq target (target_of picked) t,
          (λ e. eq_target-eq target (target_of picked) t, λ e. refl),
        )
  | inr f ↦
      rw (apply_primary, f)
        (
          refl,
          (
            λ e. cc,
            λ e. absurd (true-ne-false (sym (eq_target_refl target) ∙ ap (eq_target target) e ∙ f)),
          ),
        )
]

-- Behind any sequence of re-probe ticks and accepted connections, the target is the primary that
-- was selected last, or the first target without one, and the connections are those that stood
-- there, followed by one for each acceptance to the target of that moment.
pub run-refines :
    (es : List Event) (s : Upstream)
    → ((run es s).target ≡ last_target s.target es)
      × ((run es s).connections ≡ s.connections ++ dialled s.target es)
unfolding run on_event read_target
run-refines [] s = (refl, sym (append-nil s.connections))
run-refines (tick none ∷ es) s = run-refines es s
run-refines (tick (some picked) ∷ es) s =
    subst
      (λ (t : Target).
        ((run es (record s { target = t })).target ≡ last_target (target_of picked) es)
        × ((run es (record s { target = t })).connections
            ≡ s.connections ++ dialled (target_of picked) es))
      (sym (apply_primary-swaps s.target picked).0)
      (run-refines es (record s { target = target_of picked }))
run-refines (accept ∷ es) s =
    let (t, c) = run-refines es (record s { connections = s.connections ++ (s.target ∷ []) }) in
    (t, c ∙ append_assoc s.connections (s.target ∷ []) (dialled s.target es))
