-- ===== src/Service/Drained.antt =====
-- The shutdown of a server ends once every connection has ended.
use mongod_proxy.Service.Served.{run_until-perm, taken_in, run_until-IsPhase, IsPhase, everyone}
use mongod_proxy.Prelude.{
  subst, append-nil, ◌++◌, ap, ◌∙◌, ◌||◌, sym, ◌==◌, Result, ◌≡◌, Bool-cases, Bool, All, List, ℕ,
  ◌∷◌, ok, inr, inl, [], false, true, refl,
}
use mathlib.Core.List.{Perm}
use mongod_proxy.Service.Server.{
  reap, ServePhase, ServeError, drained_phase, drain, Serve, by_phase, ServeEvent, Connection,
  run_until, without, accepting, draining, returned, shutdown, accepted, accept_failed, joined,
}

module _ {Addr IoError S M : Type 0} (make_service : M → Addr → S × M) where
  -- Whether the end of a task stands among the events.
  abbrev pub ends : ℕ → List (ServeEvent Addr IoError) → Bool
  ends n [] = false
  ends n (joined k ∷ events) = (n == k) || ends n events
  ends n (shutdown ∷ events) = ends n events
  ends n (accepted addr ∷ events) = ends n events
  ends n (accept_failed e ∷ events) = ends n events

  abbrev pub AllEnd : List (Connection Addr S) → List (ServeEvent Addr IoError) → Type 0
  AllEnd cs events = All (λ (c : Connection Addr S). ends c.task events ≡ true) cs

  AllEnd-without :
      (n : ℕ) (cs : List (Connection Addr S)) (events : List (ServeEvent Addr IoError))
      → AllEnd cs (joined n ∷ events)
      → AllEnd (without n cs) events
  unfolding without
  AllEnd-without n [] events h = tt
  AllEnd-without n (c ∷ cs) events (h, hs) = elim (Bool-cases (c.task == n)) [
    | inl t ↦ rw t (AllEnd-without n cs events hs)
    | inr f ↦ rw f (sym (rw f refl) ∙ h, AllEnd-without n cs events hs)
  ]

  returned_stays :
      (events : List (ServeEvent Addr IoError)) (s : Serve Addr IoError S M)
      (r : Result (ServeError IoError) (Unit {0}))
      → s.phase ≡ returned r
      → run_until make_service events s ≡ s
  unfolding run_until by_phase
  returned_stays [] s r e = refl
  returned_stays (event ∷ events) s r e =
      ap
        (λ (p : ServePhase IoError).
          run_until make_service events (by_phase make_service p event s))
        e
      ∙ returned_stays events s r e

  -- A set that is not empty keeps the loop of the drain going.
  still :
      (c : Connection Addr S) (cs : List (Connection Addr S)) (event : ServeEvent Addr IoError)
      (events : List (ServeEvent Addr IoError)) (s : Serve Addr IoError S M)
      → s.connections ≡ c ∷ cs
      → (run_until make_service (event ∷ events) (drain make_service s)).phase
        ≡ (run_until make_service events
            (by_phase make_service draining event (drain make_service s))).phase
  unfolding run_until drain drained_phase
  still c cs event events s e =
      ap
        (λ (p : ServePhase IoError).
          (run_until make_service events
            (by_phase make_service p event (drain make_service s))).phase)
        (ap drained_phase e)

  -- The loop of the drain, from a set of connections that is known.
  drain_ends :
      (events : List (ServeEvent Addr IoError)) (s : Serve Addr IoError S M)
      (cs : List (Connection Addr S))
      → s.connections ≡ cs
      → AllEnd cs events
      → (run_until make_service events (drain make_service s)).phase ≡ returned (ok tt)
  unfolding run_until by_phase drain drained_phase
  drain_ends events s [] e h =
      ap (λ (t : Serve Addr IoError S M). t.phase)
        (returned_stays events (drain make_service s) (ok tt) (ap drained_phase e))
      ∙ ap drained_phase e
  drain_ends [] s (c ∷ cs) e h = cc (h.0)
  drain_ends (joined n ∷ events) s (c ∷ cs) e h =
      still c cs (joined n) events s e
      ∙ drain_ends events (reap make_service n (drain make_service s)) (without n (c ∷ cs))
          (ap (without n) e) (AllEnd-without n (c ∷ cs) events h)
  drain_ends (shutdown ∷ events) s (c ∷ cs) e h =
      still c cs shutdown events s e ∙ drain_ends events s (c ∷ cs) e h
  drain_ends (accepted addr ∷ events) s (c ∷ cs) e h =
      still c cs (accepted addr) events s e ∙ drain_ends events s (c ∷ cs) e h
  drain_ends (accept_failed x ∷ events) s (c ∷ cs) e h =
      still c cs (accept_failed x) events s e ∙ drain_ends events s (c ∷ cs) e h

  shutdown_returns :
      (s : Serve Addr IoError S M) (events : List (ServeEvent Addr IoError))
      → s.phase ≡ accepting
      → AllEnd s.connections events
      → (run_until make_service (shutdown ∷ events) s).phase ≡ returned (ok tt)
  unfolding run_until by_phase
  shutdown_returns s events e h =
      ap
        (λ (p : ServePhase IoError).
          (run_until make_service events (by_phase make_service p shutdown s)).phase)
        e
      ∙ drain_ends events s s.connections refl h

  everyone_unaborted :
      (s : Serve Addr IoError S M)
      → s.aborted ≡ []
      → everyone make_service s ≡ s.connections ++ s.finished
  everyone_unaborted s a =
      ap (λ (l : List (Connection Addr S)). s.connections ++ (s.finished ++ l)) a
      ∙ ap (λ (l : List (Connection Addr S)). s.connections ++ l) (append-nil s.finished)

  -- Everything is accounted for by what finished, when none is in flight and none was aborted.
  all_finished :
      (s t : Serve Addr IoError S M)
      → s.aborted ≡ []
      → (t.connections ≡ []) × (t.aborted ≡ [])
      → Perm (everyone make_service t) (everyone make_service s ++ [])
      → Perm t.finished (s.connections ++ s.finished)
  all_finished s t a (none_left, none_lost) perm =
      subst (λ (l : List (Connection Addr S)). Perm l (s.connections ++ s.finished))
        (everyone_unaborted t none_lost
          ∙ ap (λ (l : List (Connection Addr S)). l ++ t.finished) none_left)
        (subst (λ (l : List (Connection Addr S)). Perm (everyone make_service t) l)
          (append-nil (everyone make_service s) ∙ everyone_unaborted s a) perm)

  -- When a server that is accepting and has aborted nothing is told to shut down, and behind the
  -- shutdown, among any other events, the task of each connection in flight ends, then the server
  -- returns without an error, and the connections that finished are, up to their order, those
  -- that were in flight and those that had finished before.
  pub run_until-drains :
      (s : Serve Addr IoError S M) (events : List (ServeEvent Addr IoError))
      → s.phase ≡ accepting
      → s.aborted ≡ []
      → AllEnd s.connections events
      → let t = run_until make_service (shutdown ∷ events) s in
        (t.phase ≡ returned (ok tt)) × Perm t.finished (s.connections ++ s.finished)
  run_until-drains s events e a h =
      let t = run_until make_service (shutdown ∷ events) s in
      let done = shutdown_returns s events e h in
      let valid =
        subst (λ (p : ServePhase IoError). IsPhase make_service p t) done
          (run_until-IsPhase make_service (shutdown ∷ events) s
            (subst (λ (p : ServePhase IoError). IsPhase make_service p s) (sym e) a)) in
      (
        done,
        all_finished s t a valid (
            subst
              (λ (p : ServePhase IoError).
                Perm (everyone make_service t)
                  (everyone make_service s ++ taken_in make_service p s (shutdown ∷ events)))
              e (run_until-perm make_service (shutdown ∷ events) s)),
      )
