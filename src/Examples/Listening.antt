-- ===== src/Examples/Listening.antt =====
-- A server that accepts, finishes and drains connections, and a counter that calls share.
use mongod_proxy.Bytes.Defs.{Bytes}
use mongod_proxy.Prelude.{
  ◌-◌, ◌^◌, ◌++◌, ◌+◌, Bool, ◌≡◌, List, ℕ, ◌∷◌, ok, negsuc, [], false, true, refl,
}
use mongod_proxy.Service.Served
use mongod_proxy.Service.Drained
use mongod_proxy.Explain.Granted
use mongod_proxy.Explain.Progress
use mongod_proxy.Explain.Shared
use mathlib.Core.List.{Perm}
use mongod_proxy.Explain.Shared.{schedule, fresh}
use mongod_proxy.Service.Server.{
  serve, ServeEvent, run_until, Serve, accepting, returned, shutdown, accepted, joined,
}

-- Two clients; the first has gone when the server is told to stop, and a third comes too late.
abbrev visits : List (ServeEvent ℕ Bytes)
visits = accepted 7 ∷ accepted 8 ∷ joined 0 ∷ shutdown ∷ accepted 9 ∷ joined 1 ∷ []

-- The factory counts the services that it made.
abbrev make_service : ℕ → ℕ → ℕ × ℕ
make_service made addr = (made, made + 1)

run_until-IsServed_example :
    Served.IsServed make_service
      (Served.taken make_service 0 41 0 visits)
      (run_until make_service visits (serve make_service 0 41))
run_until-IsServed_example = Served.run_until-IsServed make_service visits 0 41

-- The last number wraps, and the second connection is still open at the end of the shutdown.
abbrev busy : Serve ℕ Bytes ℕ ℕ
busy = record {
  phase = accepting;
  factory = 2;
  conn_ids = 1;
  tasks = 2;
  connections =
      record { task = 0; conn_id = 2 ^ 64 - 1; client_addr = 7; service = 0 }
      ∷ record { task = 1; conn_id = 0; client_addr = 8; service = 1 }
      ∷ [];
  finished = [];
  aborted = [];
}

abbrev closing : List (ServeEvent ℕ Bytes)
closing = joined 1 ∷ accepted 9 ∷ joined 0 ∷ []

run_until-drains_example :
    ((run_until make_service (shutdown ∷ closing) busy).phase ≡ returned (ok tt))
    × Perm
        (run_until make_service (shutdown ∷ closing) busy).finished
        (busy.connections ++ busy.finished)
run_until-drains_example =
    Drained.run_until-drains make_service busy closing refl refl (refl, (refl, tt))

-- Two calls take turns, and one of them fails for no reason on the way.
abbrev turns : List (ℕ × Bool)
turns = (0, false) ∷ (1, false) ∷ (1, true) ∷ (0, false) ∷ (1, false) ∷ (1, false) ∷ []

schedule-IsGranted_example : (k : ℕ) × Granted.IsGranted k (schedule turns fresh)
schedule-IsGranted_example = Granted.schedule-IsGranted turns

schedule_alone_example :
    Progress.is_returned ((schedule ((3, false) ∷ (3, false) ∷ []) (schedule turns fresh)).calls 3)
    ≡ true
schedule_alone_example = Progress.schedule_alone (schedule turns fresh) 3

second_id : (schedule turns fresh).calls 1 ≡ Shared.returned (ok (negsuc 2))
unfolding schedule Shared.step_call
second_id = refl
