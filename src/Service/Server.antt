-- ===== src/Service/Server.antt =====
-- `Serve::run_until` of src/serve/mod.rs: the accept loop, its shutdown and the draining of the
-- connections. The events stand in the order in which `select!` takes them; an event that the loop
-- does not wait for at the time changes nothing.
use mongod_proxy.Prelude.{
  ◌==◌, ◌^◌, if◌then◌else◌, ◌%◌, Result, List, ◌+◌, ℕ, ◌++◌, ◌∷◌, err, ok, [],
}

-- The process-global allocator of connection ids, a `u64` that wraps.
unfoldable pub next_conn_id : ℕ → ℕ × ℕ
next_conn_id n = (n, (n + 1) % 2 ^ 64)

pub data ServeError (IoError : Type 0) : Type 0 where
  accept_error : IoError → ServeError IoError

-- What the loop waits for: the shutdown, `accept`, and `join_next`, which takes the handle of a task
-- that has ended out of the set; the runtime numbers the tasks, no two alike.
pub data ServeEvent (Addr IoError : Type 0) : Type 0 where
  shutdown : ServeEvent Addr IoError
  accepted : Addr → ServeEvent Addr IoError
  accept_failed : IoError → ServeEvent Addr IoError
  joined : ℕ → ServeEvent Addr IoError

pub data ServePhase (IoError : Type 0) : Type 0 where
  accepting : ServePhase IoError
  draining : ServePhase IoError
  returned : Result (ServeError IoError) (Unit {0}) → ServePhase IoError

-- A task with the service that it was given, and with the fields of its span.
pub record Connection (Addr S : Type 0) : Type 0 where
  pub task : ℕ
  pub conn_id : ℕ
  pub client_addr : Addr
  pub service : S

module _ {Addr S : Type 0} where
  unfoldable pub without : ℕ → List (Connection Addr S) → List (Connection Addr S)
  without n [] = []
  without n (c ∷ cs) = if c.task == n then without n cs else c ∷ without n cs

  unfoldable pub only : ℕ → List (Connection Addr S) → List (Connection Addr S)
  only n [] = []
  only n (c ∷ cs) = if c.task == n then c ∷ only n cs else only n cs

-- `finished` are the connections whose task ran to its end, and `aborted` those that were cut off
-- when the set of tasks was dropped.
pub record Serve (Addr IoError S M : Type 0) : Type 0 where
  pub phase : ServePhase IoError
  pub factory : M
  pub conn_ids : ℕ
  pub tasks : ℕ
  pub connections : List (Connection Addr S)
  pub finished : List (Connection Addr S)
  pub aborted : List (Connection Addr S)

unfoldable pub drained_phase :
    {Addr IoError S : Type 0} → List (Connection Addr S) → ServePhase IoError
drained_phase [] = returned (ok tt)
drained_phase (c ∷ cs) = draining

-- `make_service.call`, with the state of the factory: what the task of a client awaits its service
-- from.
module _ {Addr IoError S M : Type 0} (make_service : M → Addr → S × M) where
  unfoldable pub serve : M → ℕ → Serve Addr IoError S M
  serve make conn_ids = record {
    phase = accepting;
    factory = make;
    conn_ids = conn_ids;
    tasks = 0;
    connections = [];
    finished = [];
    aborted = [];
  }

  unfoldable pub spawn : Addr → Serve Addr IoError S M → Serve Addr IoError S M
  unfolding next_conn_id
  spawn addr s =
      let (conn_id, conn_ids) = next_conn_id s.conn_ids in
      let (service, factory) = make_service s.factory addr in
      record s {
        factory = factory;
        conn_ids = conn_ids;
        tasks = s.tasks + 1;
        connections =
            s.connections
            ++ (record { task = s.tasks; conn_id = conn_id; client_addr = addr; service = service }
                ∷ []);
      }

  unfoldable pub reap : ℕ → Serve Addr IoError S M → Serve Addr IoError S M
  unfolding without only
  reap n s = record s {
    connections = without n s.connections;
    finished = s.finished ++ only n s.connections;
  }

  -- `while connections.join_next().await.is_some() {}` and then `Ok(())`.
  unfoldable pub drain : Serve Addr IoError S M → Serve Addr IoError S M
  unfolding drained_phase
  drain s = record s { phase = drained_phase s.connections }

  -- A return drops the set of tasks, which aborts what is in it.
  unfoldable pub fail : IoError → Serve Addr IoError S M → Serve Addr IoError S M
  fail e s = record s {
    phase = returned (err (accept_error e));
    connections = [];
    aborted = s.aborted ++ s.connections;
  }

  unfoldable pub on_accepting :
      ServeEvent Addr IoError → Serve Addr IoError S M → Serve Addr IoError S M
  unfolding spawn reap drain fail
  on_accepting shutdown s = drain s
  on_accepting (accepted addr) s = spawn addr s
  on_accepting (accept_failed e) s = fail e s
  on_accepting (joined n) s = reap n s

  unfoldable pub on_draining :
      ServeEvent Addr IoError → Serve Addr IoError S M → Serve Addr IoError S M
  unfolding reap drain
  on_draining (joined n) s = drain (reap n s)
  on_draining shutdown s = s
  on_draining (accepted addr) s = s
  on_draining (accept_failed e) s = s

  unfoldable pub by_phase :
      ServePhase IoError → ServeEvent Addr IoError → Serve Addr IoError S M → Serve Addr IoError S M
  unfolding on_accepting on_draining
  by_phase accepting event s = on_accepting event s
  by_phase draining event s = on_draining event s
  by_phase (returned r) event s = s

  unfoldable pub run_until :
      List (ServeEvent Addr IoError) → Serve Addr IoError S M → Serve Addr IoError S M
  unfolding by_phase
  run_until [] s = s
  run_until (event ∷ events) s = run_until events (by_phase s.phase event s)
