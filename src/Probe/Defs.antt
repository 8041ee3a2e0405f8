-- ===== src/Probe/Defs.antt =====
-- `select_primary` over the probes in the order in which they settle, and the reading of a reply.
-- `ProbeError` comes from the network; the proxy only passes it on.
use mongod_proxy.Bytes.Text.{ascii}
use mongod_proxy.Bytes.Defs.{Bytes}
use mongod_proxy.Message.Defs.{Message}
use mongod_proxy.Operation.Defs.{Operation}
use mongod_proxy.Operation.OpMsg.Defs.{OpMsgSection}
use mongod_proxy.Prelude.{◌++◌, Bool, ℕ, Option, List, ◌∷◌, [], none, some, false, true}

pub record SrvHost : Type 0 where
  pub host : Bytes
  pub port : ℕ

pub data ProbeOutcome (ProbeError : Type 0) : Type 0 where
  not_primary : ProbeOutcome ProbeError
  failed : ProbeError → ProbeOutcome ProbeError
  timed_out : ProbeOutcome ProbeError

pub data Selection (ProbeError : Type 0) : Type 0 where
  primary : SrvHost → Selection ProbeError
  no_primary : List (SrvHost × ProbeOutcome ProbeError) → Selection ProbeError

unfoldable pub into_primary : {E : Type 0} → Selection E → Option SrvHost
into_primary (primary host) = some host
into_primary (no_primary rejected) = none

-- How a probe settles: with its answer or its error in time, or with the timeout.
pub data Settled (ProbeError : Type 0) : Type 0 where
  answered : Bool → Settled ProbeError
  broke : ProbeError → Settled ProbeError
  elapsed : Settled ProbeError

-- The loop over the settled probes; `rejected` is what has been pushed.
unfoldable pub race :
    {E : Type 0} → List (SrvHost × ProbeOutcome E) → List (SrvHost × Settled E) → Selection E
race rejected [] = no_primary rejected
race rejected ((host, answered true) ∷ probes) = primary host
race rejected ((host, answered false) ∷ probes) =
    race (rejected ++ ((host, not_primary) ∷ [])) probes
race rejected ((host, broke e) ∷ probes) = race (rejected ++ ((host, failed e) ∷ [])) probes
race rejected ((host, elapsed) ∷ probes) = race (rejected ++ ((host, timed_out) ∷ [])) probes

unfoldable pub select_primary : {E : Type 0} → List (SrvHost × Settled E) → Selection E
unfolding race
select_primary probes = race [] probes

-- `get_bool` belongs to the document library: the value of a key that holds a Boolean.
module _ {Document : Type 0} (get_bool : Document → Bytes → Option Bool) where
  -- One body: the modern field before the legacy one.
  unfoldable pub writable_in : Document → Option Bool
  writable_in doc = elim (get_bool doc (ascii "isWritablePrimary")) [
    | some v ↦ some v
    | none ↦ get_bool doc (ascii "ismaster")
  ]

  -- The loop over the sections.
  unfoldable pub writable_from : List (OpMsgSection Document) → Option Bool
  unfolding writable_in
  writable_from [] = none
  writable_from (OpMsgSection.body doc ∷ sections) = elim (writable_in doc) [
    | some v ↦ some v
    | none ↦ writable_from sections
  ]
  writable_from (OpMsgSection.document_sequence id docs ∷ sections) = writable_from sections

  unfoldable pub writable_of : Operation Document → Option Bool
  unfolding writable_from
  writable_of (Operation.message op_msg) = writable_from op_msg.sections
  writable_of (Operation.reply r) = none
  writable_of (Operation.query q) = none

  unfoldable pub extract_is_writable_primary : Message Document → Option Bool
  unfolding writable_of
  extract_is_writable_primary m = writable_of m.operation
