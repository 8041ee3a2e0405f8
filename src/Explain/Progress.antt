-- ===== src/Explain/Progress.antt =====
-- The loop of `alloc_request_id` ends when no other call moves the counter between its accesses.
use mongod_proxy.Explain.Granted.{==_refl}
use mongod_proxy.Explain.RequestId.{is_exhausted}
use mongod_proxy.Prelude.{
  eq_ℤ, ℕ, arith, Bool-cases, ◌≡◌, Bool, ℤ, ◌∷◌, negsuc, pos, inr, inl, [], false, true, refl,
}
use mongod_proxy.Explain.Shared.{
  Shared, on_turn, Call, schedule, step_call, entered, looping, returned,
}

abbrev pub is_returned : Call → Bool
is_returned (returned r) = true
is_returned _ = false

-- A call that has returned, or that has seen the value which the counter holds.
abbrev IsCurrent : Call × ℤ → Type 0
IsCurrent (entered, cell) = ⊥
IsCurrent (looping cur, cell) = cur ≡ cell
IsCurrent (returned r, cell) = Unit

eq_ℤ_refl : (a : ℤ) → eq_ℤ a a ≡ true
eq_ℤ_refl (pos n) = ground arith
eq_ℤ_refl (negsuc n) = ground arith

step_call-IsCurrent : (cell : ℤ) (c : Call) → IsCurrent (step_call false cell c)
unfolding step_call
step_call-IsCurrent cell entered = refl
step_call-IsCurrent cell (returned r) = tt
step_call-IsCurrent cell (looping cur) = elim (Bool-cases (is_exhausted cur)) [
  | inl t ↦ rw t tt
  | inr f ↦ rw f (elim (Bool-cases (eq_ℤ cell cur)) [ inl u ↦ rw u tt | inr u ↦ rw u refl ])
]

current_returns :
    (c : Call) (cell : ℤ) → IsCurrent (c, cell) → is_returned (step_call false cell c).0 ≡ true
unfolding step_call
current_returns entered cell h = absurd h
current_returns (returned r) cell h = refl
current_returns (looping cur) cell h = elim (Bool-cases (is_exhausted cur)) [
  | inl t ↦ rw t refl
  | inr f ↦ rw (f, ← h, eq_ℤ_refl cur) refl
]

-- From every state of the counter and of its calls, two turns in a row of one call, in which no
-- exchange fails for no reason, bring that call to its return.
pub schedule_alone :
    (s : Shared) (i : ℕ) → is_returned ((schedule ((i, false) ∷ (i, false) ∷ []) s).calls i) ≡ true
unfolding schedule on_turn
schedule_alone s i = rw (==_refl i) (
    current_returns (step_call false s.counter (s.calls i)).0
      (step_call false s.counter (s.calls i)).1 (step_call-IsCurrent s.counter (s.calls i)))
