-- ===== src/Explain/Shared.antt =====
-- The counter of explain ids under clones of a service that allocate at the same time: the loop of
-- `alloc_request_id` in src/serve/explain/layer.rs, one access of the atomic counter per step. The
-- schedule picks the call that steps, and says whether a weak compare-exchange fails for no reason.
use mongod_proxy.Ids.ExplainRequestId
use mongod_proxy.Ids.ExplainRequestId.{ExplainRequestIdError, ExplainRequestId}
use mongod_proxy.Explain.RequestId.{
  RequestIdExhausted, request_id_exhausted, pred, is_exhausted, seed,
}
use mongod_proxy.Prelude.{
  eq_ℤ, map_err, ◌⊎◌, inr, inl, ◌&&◌, not, ◌==◌, if◌then◌else◌, Result, ℕ, List, ℤ, Bool, ◌∷◌, err,
  [],
}

pub data Call : Type 0 where
  entered : Call
  looping : ℤ → Call
  returned : Result RequestIdExhausted ExplainRequestId → Call

-- `AtomicI32::compare_exchange_weak`: `Ok` of the previous value on the left or `Err` of the observed
-- one on the right, and what the cell holds then.
unfoldable pub compare_exchange_weak : Bool → ℤ → ℤ → ℤ → (ℤ ⊎ ℤ) × ℤ
compare_exchange_weak spurious cell current new =
    if not spurious && eq_ℤ cell current then (inl cell, new) else (inr cell, cell)

unfoldable pub exchanged : ℤ → (ℤ ⊎ ℤ) × ℤ → Call × ℤ
unfolding ExplainRequestId.try_new
exchanged next (inl previous, cell) = (
  returned (
      map_err (λ (e : ExplainRequestIdError). request_id_exhausted)
        (ExplainRequestId.try_new next)),
  cell,
)
exchanged next (inr observed, cell) = (looping observed, cell)

-- One step of a call: the load, or one round of the loop.
unfoldable pub step_call : Bool → ℤ → Call → Call × ℤ
unfolding is_exhausted pred compare_exchange_weak exchanged
step_call spurious cell entered = (looping cell, cell)
step_call spurious cell (looping cur) =
    if is_exhausted cur
    then (returned (err request_id_exhausted), cell)
    else exchanged (pred cur) (compare_exchange_weak spurious cell cur (pred cur))
step_call spurious cell (returned r) = (returned r, cell)

-- The calls of one connection, by a number, and the counter that they share.
pub record Shared : Type 0 where
  pub counter : ℤ
  pub calls : ℕ → Call

abbrev pub fresh : Shared
fresh = record { counter = seed; calls = λ i. entered }

abbrev pub set_call : (ℕ → Call) → ℕ → Call → ℕ → Call
set_call calls i c j = if j == i then c else calls j

unfoldable pub on_turn : ℕ × Bool → Shared → Shared
unfolding step_call
on_turn (i, spurious) s =
    let (c, counter) = step_call spurious s.counter (s.calls i) in
    record { counter = counter; calls = set_call s.calls i c }

unfoldable pub schedule : List (ℕ × Bool) → Shared → Shared
unfolding on_turn
schedule [] s = s
schedule (turn ∷ turns) s = schedule turns (on_turn turn s)
