-- ===== src/Service/Served.antt =====
-- Where the connections of a server are, behind any sequence of events.
use mongod_proxy.Prelude.{
  out_of_fuel, err, ok, ◌∙◌, ap, sym, subst, append-nil, ◌≡◌, append_assoc, refl, ◌^◌, ◌==◌,
  Bool-cases, ◌%◌, ◌+◌, ◌++◌, List, ℕ, ◌∷◌, inr, inl, [],
}
use mathlib.Core.List.{Perm, perm_append_comm, perm_append_singleton, perm_middle}
use mathlib.Core.List.Perm
use mongod_proxy.Service.Server.{
  serve, drain, spawn, drained_phase, by_phase, Connection, ServeEvent, only, Serve, reap,
  ServePhase, without, fail, run_until, accepting, draining, returned, shutdown, accepted,
  accept_failed, joined,
}

module _ {Addr S : Type 0} where
  without-perm-only : (n : ℕ) (cs : List (Connection Addr S)) → Perm (without n cs ++ only n cs) cs
  unfolding without only
  without-perm-only n [] = Perm.refl []
  without-perm-only n (c ∷ cs) = elim (Bool-cases (c.task == n)) [
    | inl t ↦
        rw t (
          Perm.trans (perm_middle (without n cs) (only n cs))
            (Perm.cons c (without-perm-only n cs)))
    | inr f ↦ rw f (Perm.cons c (without-perm-only n cs))
  ]

module _ {Addr IoError S M : Type 0} (make_service : M → Addr → S × M) where
  -- The connections whose acceptance stands before the first shutdown and the first failure to
  -- accept, numbered in that order.
  abbrev pub taken : M → ℕ → ℕ → List (ServeEvent Addr IoError) → List (Connection Addr S)
  taken m conn_id task [] = []
  taken m conn_id task (shutdown ∷ events) = []
  taken m conn_id task (accept_failed e ∷ events) = []
  taken m conn_id task (joined n ∷ events) = taken m conn_id task events
  taken m conn_id task (accepted addr ∷ events) =
      record {
        task = task;
        conn_id = conn_id;
        client_addr = addr;
        service = (make_service m addr).0;
      }
      ∷ taken (make_service m addr).1 ((conn_id + 1) % 2 ^ 64) (task + 1) events

  abbrev pub everyone : Serve Addr IoError S M → List (Connection Addr S)
  everyone s = s.connections ++ (s.finished ++ s.aborted)

  abbrev pub taken_in :
      ServePhase IoError
      → Serve Addr IoError S M
      → List (ServeEvent Addr IoError)
      → List (Connection Addr S)
  taken_in accepting s events = taken s.factory s.conn_ids s.tasks events
  taken_in draining s events = []
  taken_in (returned r) s events = []

  reap-perm :
      (n : ℕ) (s : Serve Addr IoError S M) → Perm (everyone (reap make_service n s)) (everyone s)
  unfolding reap
  reap-perm n s =
      Perm.trans
        (Perm.append_left (without n s.connections)
          (Perm.append_right s.aborted (perm_append_comm s.finished (only n s.connections))))
        (rw
          (
            append_assoc (only n s.connections) s.finished s.aborted,
            ← append_assoc (without n s.connections) (only n s.connections)
                (s.finished ++ s.aborted),
          )
          (Perm.append_right (s.finished ++ s.aborted) (without-perm-only n s.connections)))

  fail-perm :
      (e : IoError) (s : Serve Addr IoError S M)
      → Perm (everyone (fail make_service e s)) (everyone s)
  unfolding fail
  fail-perm e s =
      rw (← append_assoc s.finished s.aborted s.connections)
        (perm_append_comm (s.finished ++ s.aborted) s.connections)

  newcomer : Addr → Serve Addr IoError S M → Connection Addr S
  newcomer addr s = record {
    task = s.tasks;
    conn_id = s.conn_ids;
    client_addr = addr;
    service = (make_service s.factory addr).0;
  }

  spawn-perm :
      (addr : Addr) (s : Serve Addr IoError S M)
      → Perm (everyone (spawn make_service addr s)) (everyone s ++ (newcomer addr s ∷ []))
  unfolding spawn newcomer
  spawn-perm addr s =
      rw
        (
          append_assoc s.connections (newcomer addr s ∷ []) (s.finished ++ s.aborted),
          append_assoc s.connections (s.finished ++ s.aborted) (newcomer addr s ∷ []),
        )
        (Perm.append_left s.connections
          (Perm.symm (perm_append_singleton (newcomer addr s) (s.finished ++ s.aborted))))

  taken_in_nil : (p : ServePhase IoError) (s : Serve Addr IoError S M) → taken_in p s [] ≡ []
  taken_in_nil accepting s = refl
  taken_in_nil draining s = refl
  taken_in_nil (returned r) s = refl

  taken_in_drained :
      (cs : List (Connection Addr S)) (s : Serve Addr IoError S M)
      (events : List (ServeEvent Addr IoError))
      → taken_in (drained_phase cs) s events ≡ []
  unfolding drained_phase
  taken_in_drained [] s events = refl
  taken_in_drained (c ∷ cs) s events = refl

  quiet_drain :
      (events : List (ServeEvent Addr IoError)) (s : Serve Addr IoError S M)
      → Perm
          (everyone (drain make_service s)
            ++ taken_in (drain make_service s).phase (drain make_service s) events)
          (everyone s ++ [])
  unfolding drain
  quiet_drain events s =
      rw (taken_in_drained s.connections (drain make_service s) events)
        (Perm.refl (everyone s ++ []))

  unmoved :
      (p : ServePhase IoError) (events : List (ServeEvent Addr IoError))
      (s : Serve Addr IoError S M)
      → s.phase ≡ p
      → taken_in p s events ≡ []
      → Perm (everyone s ++ taken_in s.phase s events) (everyone s ++ [])
  unmoved p events s e f =
      subst (λ (l : List (Connection Addr S)). Perm (everyone s ++ l) (everyone s ++ []))
        (sym (ap (λ q. taken_in q s events) e ∙ f)) (Perm.refl (everyone s ++ []))

  -- One event, in each phase.
  by_phase-perm :
      (p : ServePhase IoError) (event : ServeEvent Addr IoError)
      (events : List (ServeEvent Addr IoError)) (s : Serve Addr IoError S M)
      → s.phase ≡ p
      → let t = by_phase make_service p event s in
        Perm (everyone t ++ taken_in t.phase t events) (everyone s ++ taken_in p s (event ∷ events))
  unfolding by_phase newcomer
  by_phase-perm accepting shutdown events s e = quiet_drain events s
  by_phase-perm accepting (accepted addr) events s e =
      subst
        (λ (q : ServePhase IoError).
          Perm
            (everyone (spawn make_service addr s) ++ taken_in q (spawn make_service addr s) events)
            (everyone s ++ taken_in accepting s (accepted addr ∷ events)))
        (sym e)
        (subst
          (λ (l : List (Connection Addr S)).
            Perm
              (everyone (spawn make_service addr s)
                ++ taken_in accepting (spawn make_service addr s) events)
              l)
          (append_assoc (everyone s) (newcomer addr s ∷ [])
            (taken_in accepting (spawn make_service addr s) events))
          (Perm.append_right (taken_in accepting (spawn make_service addr s) events)
            (spawn-perm addr s)))
  by_phase-perm accepting (accept_failed x) events s e = Perm.append_right [] (fail-perm x s)
  by_phase-perm accepting (joined n) events s e =
      subst
        (λ (q : ServePhase IoError).
          Perm (everyone (reap make_service n s) ++ taken_in q (reap make_service n s) events)
            (everyone s ++ taken_in accepting s (joined n ∷ events)))
        (sym e) (Perm.append_right (taken s.factory s.conn_ids s.tasks events) (reap-perm n s))
  by_phase-perm draining shutdown events s e = unmoved draining events s e refl
  by_phase-perm draining (accepted addr) events s e = unmoved draining events s e refl
  by_phase-perm draining (accept_failed x) events s e = unmoved draining events s e refl
  by_phase-perm draining (joined n) events s e =
      Perm.trans (quiet_drain events (reap make_service n s)) (Perm.append_right [] (reap-perm n s))
  by_phase-perm (returned r) event events s e = unmoved (returned r) events s e refl

  pub run_until-perm :
      (events : List (ServeEvent Addr IoError)) (s : Serve Addr IoError S M)
      → Perm (everyone (run_until make_service events s)) (everyone s ++ taken_in s.phase s events)
  unfolding run_until
  run_until-perm [] s =
      rw (taken_in_nil s.phase s, append-nil (everyone s)) (Perm.refl (everyone s))
  run_until-perm (event ∷ events) s =
      Perm.trans (run_until-perm events (by_phase make_service s.phase event s))
        (by_phase-perm s.phase event events s refl)

  -- What a phase says of the connections.
  abbrev pub IsPhase : ServePhase IoError → Serve Addr IoError S M → Type 0
  IsPhase accepting s = s.aborted ≡ []
  IsPhase draining s = s.aborted ≡ []
  IsPhase (returned (ok u)) s = (s.connections ≡ []) × (s.aborted ≡ [])
  IsPhase (returned (err e)) s = s.connections ≡ []
  IsPhase (returned out_of_fuel) s = ⊥

  drain-IsPhase :
      (cs : List (Connection Addr S)) (s : Serve Addr IoError S M)
      → s.connections ≡ cs
      → s.aborted ≡ []
      → IsPhase (drained_phase cs) s
  unfolding drained_phase
  drain-IsPhase [] s e a = (e, a)
  drain-IsPhase (c ∷ cs) s e a = a

  by_phase-IsPhase :
      (p : ServePhase IoError) (event : ServeEvent Addr IoError) (s : Serve Addr IoError S M)
      → s.phase ≡ p
      → IsPhase p s
      → let t = by_phase make_service p event s in IsPhase t.phase t
  unfolding by_phase
  by_phase-IsPhase accepting shutdown s e h =
      drain-IsPhase s.connections (drain make_service s) refl h
  by_phase-IsPhase accepting (accepted addr) s e h =
      subst (λ q. IsPhase q (spawn make_service addr s)) (sym e) h
  by_phase-IsPhase accepting (accept_failed x) s e h = refl
  by_phase-IsPhase accepting (joined n) s e h =
      subst (λ q. IsPhase q (reap make_service n s)) (sym e) h
  by_phase-IsPhase draining shutdown s e h = subst (λ q. IsPhase q s) (sym e) h
  by_phase-IsPhase draining (accepted addr) s e h = subst (λ q. IsPhase q s) (sym e) h
  by_phase-IsPhase draining (accept_failed x) s e h = subst (λ q. IsPhase q s) (sym e) h
  by_phase-IsPhase draining (joined n) s e h =
      drain-IsPhase (reap make_service n s).connections (drain make_service (reap make_service n s))
        refl h
  by_phase-IsPhase (returned r) event s e h = subst (λ q. IsPhase q s) (sym e) h

  pub run_until-IsPhase :
      (events : List (ServeEvent Addr IoError)) (s : Serve Addr IoError S M)
      → IsPhase s.phase s
      → IsPhase (run_until make_service events s).phase (run_until make_service events s)
  unfolding run_until
  run_until-IsPhase [] s h = h
  run_until-IsPhase (event ∷ events) s h =
      run_until-IsPhase events (by_phase make_service s.phase event s)
        (by_phase-IsPhase s.phase event s refl h)

  pub record IsServed (expected : List (Connection Addr S)) (s : Serve Addr IoError S M)
      : Type 0 where
    pub accounted : Perm (everyone s) expected
    pub phase_valid : IsPhase s.phase s

  -- Behind any sequence of events from the start of a server, the connections in flight, those
  -- that ended and those that were aborted are together, up to their order, the connections that
  -- were accepted before the first shutdown and the first failure to accept, with their numbers
  -- and services; none is aborted unless the server has returned an error, and none is in flight
  -- behind a return.
  pub run_until-IsServed :
      (events : List (ServeEvent Addr IoError)) (m : M) (conn_id : ℕ)
      → IsServed
          (taken m conn_id 0 events)
          (run_until make_service events (serve make_service m conn_id))
  unfolding serve
  run_until-IsServed events m conn_id = record {
    accounted = run_until-perm events (serve make_service m conn_id);
    phase_valid = run_until-IsPhase events (serve make_service m conn_id) refl;
  }
