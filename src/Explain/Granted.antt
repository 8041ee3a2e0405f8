-- ===== src/Explain/Granted.antt =====
-- What clones of an explain service that share a counter are given, in every schedule of their calls.
use mathlib.Core.Path.{fun_ext}
use mongod_proxy.Ids.ExplainRequestId
use mongod_proxy.Ids.ExplainRequestId.{ExplainRequestId}
use mongod_proxy.Explain.Shared.{
  schedule, fresh, step_call, on_turn, entered, set_call, returned, looping, Shared, Call,
}
use mongod_proxy.Prelude.{
  List, ◌∷◌, [], ◌&&◌, not, subst, arith, suc, ◌∙◌, sym, ==_iff, ℤ, ◌⊎◌, ap, ◌≢◌, refl, ◌==◌,
  Bool-cases, ◌<◌, ◌≤◌, ◌≡◌, ◌-◌, Bool, ◌^◌, ℕ, out_of_fuel, err, ok, negsuc, pos, inr, inl, false,
  true,
}

abbrev last : ℕ
last = 2 ^ 31 - 1

-- What a call may hold when `k` ids have been given.
abbrev IsCall : ℕ → Call → Type 0
IsCall k entered = Unit
IsCall k (looping (pos n)) = ⊥
IsCall k (looping (negsuc n)) = n ≤ k
IsCall k (returned (ok (pos n))) = ⊥
IsCall k (returned (ok (negsuc n))) = (0 < n) × (n ≤ k)
IsCall k (returned (err e)) = k ≡ last
IsCall k (returned out_of_fuel) = ⊥

pub record IsGranted (k : ℕ) (s : Shared) : Type 0 where
  pub bounded : k ≤ last
  pub counted : s.counter ≡ negsuc k
  pub calls_valid : (i : ℕ) → IsCall k (s.calls i)
  pub distinct :
      (i j : ℕ) (id : ExplainRequestId)
      → s.calls i ≡ returned (ok id)
      → s.calls j ≡ returned (ok id)
      → i ≡ j
  pub granted : (n : ℕ) → 0 < n → n ≤ k → (i : ℕ) × (s.calls i ≡ returned (ok (negsuc n)))

true-ne-false : true ≢ false
true-ne-false e = cc

abbrev is_granted : Call → Bool
is_granted (returned (ok id)) = true
is_granted _ = false

IsCall-suc : (k : ℕ) (c : Call) → k < last → IsCall k c → IsCall (suc k) c
IsCall-suc k entered below v = tt
IsCall-suc k (looping (pos n)) below v = v
IsCall-suc k (looping (negsuc n)) below v = omega arith
IsCall-suc k (returned (ok (pos n))) below v = v
IsCall-suc k (returned (ok (negsuc n))) below v = (v.0, omega (arith, v.1))
IsCall-suc k (returned (err e)) below v = absurd (omega arith)
IsCall-suc k (returned out_of_fuel) below v = v

-- The next id is not held yet.
unused : {s : Shared} (k j : ℕ) → IsGranted k s → s.calls j ≢ returned (ok (negsuc (suc k)))
unused k j g e = absurd (omega (arith, (subst (IsCall k) e (g.calls_valid j)).1))

pub ==_refl : (n : ℕ) → (n == n) ≡ true
==_refl n = (==_iff n n).1 refl

module _ (s : Shared) (i : ℕ) (c : Call) (old : is_granted (s.calls i) ≡ false) where
  abbrev next_calls : ℕ → Call
  next_calls = set_call s.calls i c

  -- An id that was held is still held by the same call.
  holds :
      (j : ℕ) (id : ExplainRequestId)
      → s.calls j ≡ returned (ok id)
      → next_calls j ≡ returned (ok id)
  holds j id e = elim (Bool-cases (j == i)) [
    | inl t ↦ absurd (
        true-ne-false
          (ap is_granted (sym e) ∙ (ap (λ x. is_granted (s.calls x)) ((==_iff j i).0 t) ∙ old)))
    | inr f ↦ rw f e
  ]

  -- What is held behind the step was held before, or is the result of the step.
  held :
      (j : ℕ) (id : ExplainRequestId)
      → next_calls j ≡ returned (ok id)
      → ((j ≡ i) × (c ≡ returned (ok id))) ⊎ (s.calls j ≡ returned (ok id))
  held j id = elim (Bool-cases (j == i)) [
    | inl t ↦ λ e. inl ((==_iff j i).0 t, sym (rw t refl) ∙ e)
    | inr f ↦ λ e. inr (sym (rw f refl) ∙ e)
  ]

  valid :
      (k : ℕ) → IsCall k c → ((j : ℕ) → IsCall k (s.calls j)) → (j : ℕ) → IsCall k (next_calls j)
  valid k v vs j = elim (Bool-cases (j == i)) [ inl t ↦ rw t v | inr f ↦ rw f (vs j) ]

  -- A step that gives no id.
  keeps :
      (k : ℕ) (counter : ℤ)
      → counter ≡ negsuc k
      → IsGranted k s
      → is_granted c ≡ false
      → IsCall k c
      → IsGranted k (record { counter = counter; calls = next_calls })
  keeps k counter e g new v = record {
    bounded = g.bounded;
    counted = e;
    calls_valid = valid k v g.calls_valid;
    distinct = λ a b id ha hb. g.distinct a b id (before a id ha) (before b id hb);
    granted = λ n pos le. let (x, h) = g.granted n pos le in (x, holds x (negsuc n) h);
  }
    where
      before :
          (j : ℕ) (id : ExplainRequestId)
          → next_calls j ≡ returned (ok id)
          → s.calls j ≡ returned (ok id)
      before j id e = elim (held j id e) [
        | inl (same, got) ↦ absurd (true-ne-false (sym (ap is_granted got) ∙ new))
        | inr h ↦ h
      ]

  -- A step that gives the next id.
  grants :
      (k : ℕ)
      → IsGranted k s
      → k < last
      → c ≡ returned (ok (negsuc (suc k)))
      → IsGranted (suc k) (record { counter = negsuc (suc k); calls = next_calls })
  grants k g below e = record {
    bounded = omega arith;
    counted = refl;
    calls_valid =
        valid (suc k) (rw e (omega arith)) (λ j. IsCall-suc k (s.calls j) below (g.calls_valid j));
    distinct = λ a b id ha hb. elim (held a id ha) [
      | inl (same_a, got_a) ↦ elim (held b id hb) [
        | inl (same_b, got_b) ↦ same_a ∙ sym same_b
        | inr old_b ↦ absurd (unused k b g (old_b ∙ (sym got_a ∙ e)))
      ]
      | inr old_a ↦ elim (held b id hb) [
        | inl (same_b, got_b) ↦ absurd (unused k a g (old_a ∙ (sym got_b ∙ e)))
        | inr old_b ↦ g.distinct a b id old_a old_b
      ]
    ];
    granted = λ n pos le. elim (Bool-cases (n == suc k)) [
      | inl t ↦ (
        i,
        rw (==_refl i) (e ∙ ap (λ m. returned (ok (negsuc m))) (sym ((==_iff n (suc k)).0 t))),
      )
      | inr f ↦ let (x, h) = g.granted n pos (ground arith) in (x, holds x (negsuc n) h)
    ];
  }

-- What a step does to a call that holds no id: it gives none, or the next one.
abbrev Outcome : ℕ → Call × ℤ → Type 0
Outcome k (c, counter) =
    ((counter ≡ negsuc k) × (is_granted c ≡ false) × IsCall k c)
    ⊎ ((k < last) × (c ≡ returned (ok (negsuc (suc k)))) × (counter ≡ negsuc (suc k)))

round_lem :
    (spurious : Bool) (k n : ℕ)
    → k ≤ last
    → n ≤ k
    → Outcome k (step_call spurious (negsuc k) (looping (negsuc n)))
unfolding step_call ExplainRequestId.try_new
round_lem spurious k n top le = elim (Bool-cases (n == 2 ^ 31 - 1)) [
  | inl t ↦ rw t (inl (refl, refl, ground arith))
  | inr f ↦ rw f (elim (Bool-cases (not spurious && k == n)) [
    | inl u ↦ rw u (inr (ground arith, ground arith, ground arith))
    | inr u ↦ rw u (inl (refl, refl, omega arith))
  ])
]

step_call-Outcome :
    (spurious : Bool) (k : ℕ) (c : Call)
    → k ≤ last
    → is_granted c ≡ false
    → IsCall k c
    → Outcome k (step_call spurious (negsuc k) c)
unfolding step_call
step_call-Outcome spurious k entered top free v = inl (refl, refl, omega arith)
step_call-Outcome spurious k (looping (pos n)) top free v = absurd v
step_call-Outcome spurious k (looping (negsuc n)) top free v = round_lem spurious k n top v
step_call-Outcome spurious k (returned (ok id)) top free v = absurd (true-ne-false free)
step_call-Outcome spurious k (returned (err e)) top free v = inl (refl, refl, v)
step_call-Outcome spurious k (returned out_of_fuel) top free v = absurd v

step_call_held :
    (spurious : Bool) (cell : ℤ) (c : Call)
    → is_granted c ≡ true
    → step_call spurious cell c ≡ (c, cell)
unfolding step_call
step_call_held spurious cell entered h = cc
step_call_held spurious cell (looping n) h = cc
step_call_held spurious cell (returned (ok id)) h = refl
step_call_held spurious cell (returned (err e)) h = refl
step_call_held spurious cell (returned out_of_fuel) h = refl

set_call_same :
    (calls : ℕ → Call) (i : ℕ) (c : Call) → c ≡ calls i → (j : ℕ) → set_call calls i c j ≡ calls j
set_call_same calls i c e j = elim (Bool-cases (j == i)) [
  | inl t ↦ rw t (e ∙ ap calls (sym ((==_iff j i).0 t)))
  | inr f ↦ rw f refl
]

-- A call that holds an id is behind its return, and its turns change nothing.
on_turn_held :
    (i : ℕ) (spurious : Bool) (s : Shared)
    → is_granted (s.calls i) ≡ true
    → on_turn (i, spurious) s ≡ s
unfolding on_turn
on_turn_held i spurious s h =
    let e = step_call_held spurious s.counter (s.calls i) h in
    λ t. record {
      counter = (e t).1;
      calls =
          fun_ext
            (set_call_same s.calls i (step_call spurious s.counter (s.calls i)).0
              (ap (λ (r : Call × ℤ). r.0) e))
            t;
    }

on_turn-IsGranted :
    (turn : ℕ × Bool) (s : Shared) (k : ℕ)
    → IsGranted k s
    → IsGranted k (on_turn turn s) ⊎ IsGranted (suc k) (on_turn turn s)
unfolding on_turn
on_turn-IsGranted (i, spurious) s k g = elim (Bool-cases (is_granted (s.calls i))) [
  | inl t ↦ inl (subst (IsGranted k) (sym (on_turn_held i spurious s t)) g)
  | inr f ↦
      let step : Call × ℤ = step_call spurious s.counter (s.calls i) in
      elim (subst (λ counter. Outcome k (step_call spurious counter (s.calls i))) (sym g.counted)
        (step_call-Outcome spurious k (s.calls i) g.bounded f (g.calls_valid i))) [
          | inl (stays, free, v) ↦ inl (keeps s i step.0 f k step.1 stays g free v)
          | inr (below, gets, moves) ↦ inr (
              subst
                (λ (counter : ℤ).
                  IsGranted (suc k)
                    (record { counter = counter; calls = set_call s.calls i step.0 }))
                (sym moves) (grants s i step.0 f k g below gets))
        ]
]

fresh-IsGranted : IsGranted 0 fresh
fresh-IsGranted = record {
  bounded = omega arith;
  counted = refl;
  calls_valid = λ i. tt;
  distinct = λ i j id e h. cc;
  granted = λ n pos le. absurd (omega arith);
}

from_state :
    (turns : List (ℕ × Bool)) (s : Shared) (k : ℕ)
    → IsGranted k s
    → (n : ℕ) × IsGranted n (schedule turns s)
unfolding schedule
from_state [] s k g = (k, g)
from_state (turn ∷ turns) s k g = elim (on_turn-IsGranted turn s k g) [
  | inl h ↦ from_state turns (on_turn turn s) k h
  | inr h ↦ from_state turns (on_turn turn s) (suc k) h
]

-- Behind any schedule of any calls, with exchanges that fail for no reason among them, there is a
-- number `k` up to 2^31 - 1 for which the counter holds `-(k + 1)`; each of the ids from -2 to
-- `-(k + 1)` is held by exactly one call, no call holds another id, and a call has an error only
-- if `k` is 2^31 - 1.
pub schedule-IsGranted : (turns : List (ℕ × Bool)) → (k : ℕ) × IsGranted k (schedule turns fresh)
schedule-IsGranted turns = from_state turns fresh 0 fresh-IsGranted
