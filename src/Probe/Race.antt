-- ===== src/Probe/Race.antt =====
-- The probes in the order in which they settle, and what `select_primary` makes of them.
use mongod_proxy.Probe.Defs.{race, SrvHost, Settled, Selection, ProbeOutcome, select_primary}
use mongod_proxy.Prelude.{
  some-same, append_assoc, ◌∙◌, arith, append-nil, sym, ap, ◌++◌, ◌≡◌, List, ◌∷◌, [], none, some,
  false, true, Option,
}

module _ {E : Type 0} where
  -- Why a probe is rejected, if it is.
  unfoldable pub reason : Settled E → Option (ProbeOutcome E)
  reason (Settled.answered true) = none
  reason (Settled.answered false) = some ProbeOutcome.not_primary
  reason (Settled.broke e) = some (ProbeOutcome.failed e)
  reason Settled.elapsed = some ProbeOutcome.timed_out

  -- The probes and the rejections belong to each other, one by one and in order.
  pub data Rejected : List (SrvHost × Settled E) → List (SrvHost × ProbeOutcome E) → Type 0 where
    all_seen : Rejected [] []
    one_more :
        {host : SrvHost} {s : Settled E} {r : ProbeOutcome E} {probes : List (SrvHost × Settled E)}
        {rejected : List (SrvHost × ProbeOutcome E)}
        → reason s ≡ some r
        → Rejected probes rejected
        → Rejected ((host, s) ∷ probes) ((host, r) ∷ rejected)

  race-reason :
      (h : SrvHost) (s : Settled E) (seen : List (SrvHost × ProbeOutcome E))
      (rest : List (SrvHost × Settled E)) {r : ProbeOutcome E}
      → reason s ≡ some r
      → race seen ((h, s) ∷ rest) ≡ race (seen ++ ((h, r) ∷ [])) rest
  unfolding race reason
  race-reason h (Settled.answered true) seen rest p = absurd (ground arith)
  race-reason h (Settled.answered false) seen rest p =
      ap (λ o. race (seen ++ ((h, o) ∷ [])) rest) (some-same p)
  race-reason h (Settled.broke e) seen rest p =
      ap (λ o. race (seen ++ ((h, o) ∷ [])) rest) (some-same p)
  race-reason h Settled.elapsed seen rest p =
      ap (λ o. race (seen ++ ((h, o) ∷ [])) rest) (some-same p)

  race-Rejected :
      {probes : List (SrvHost × Settled E)} {rejected : List (SrvHost × ProbeOutcome E)}
      (seen : List (SrvHost × ProbeOutcome E)) (later : List (SrvHost × Settled E))
      → Rejected probes rejected
      → race seen (probes ++ later) ≡ race (seen ++ rejected) later
  race-Rejected seen later all_seen = ap (λ xs. race xs later) (sym (append-nil seen))
  race-Rejected seen later
        (one_more {host = h} {s = s} {r = o} {probes = probes} {rejected = rejected} p r) =
      race-reason h s seen (probes ++ later) p
      ∙ race-Rejected (seen ++ ((h, o) ∷ [])) later r
      ∙ ap (λ xs. race xs later) (append_assoc seen ((h, o) ∷ []) rejected)

  -- If every probe is rejected, then the selection is the list of the hosts in the order in which
  -- their probes settled, each with the reason of its rejection.
  pub select_primary-Rejected :
      {probes : List (SrvHost × Settled E)} {rejected : List (SrvHost × ProbeOutcome E)}
      → Rejected probes rejected
      → select_primary probes ≡ Selection.no_primary rejected
  unfolding select_primary race
  select_primary-Rejected {probes} {rejected} r =
      ap (λ xs. race [] xs) (sym (append-nil probes)) ∙ race-Rejected [] [] r

  -- If every probe that settled before was rejected, then the first host whose probe answers that
  -- it is the primary is selected, whatever settles later.
  pub select_primary-first :
      {probes : List (SrvHost × Settled E)} {rejected : List (SrvHost × ProbeOutcome E)}
      (host : SrvHost) (later : List (SrvHost × Settled E))
      → Rejected probes rejected
      → select_primary (probes ++ ((host, Settled.answered true) ∷ later)) ≡ Selection.primary host
  unfolding select_primary race
  select_primary-first host later r = race-Rejected [] ((host, Settled.answered true) ∷ later) r
