-- ===== src/Explain/RequestId.antt =====
-- `alloc_request_id` of src/serve/explain/layer.rs: the counter that every clone of a service shares.
-- A compare-exchange that another clone wins, or that fails for no reason, starts over from the value
-- that it observed; the allocations of one counter are a sequence of the exchanges that succeeded.
use mongod_proxy.Prelude.{
  ltb→lt, ◌∙◌, ap, ltb, Bool-cases, inr, inl, arith, map_err, ◌≡◌, ◌==◌, if◌then◌else◌, ◌-◌, ◌<◌,
  Bool, Result, ℤ, ◌^◌, ℕ, err, ok, negsuc, pos, suc, zero, true, refl,
}
use mongod_proxy.Ids.ExplainRequestId
use mongod_proxy.Ids.ExplainRequestId.{ExplainRequestId, ExplainRequestIdError}

pub data RequestIdExhausted : Type 0 where
  request_id_exhausted : RequestIdExhausted

abbrev pub seed : ℤ
seed = negsuc 0

-- `cur >= 0 || cur == i32::MIN`.
unfoldable pub is_exhausted : ℤ → Bool
is_exhausted (pos n) = true
is_exhausted (negsuc n) = n == 2 ^ 31 - 1

-- `cur - 1`, below zero.
unfoldable pub pred : ℤ → ℤ
pred (pos zero) = negsuc 0
pred (pos (suc n)) = pos n
pred (negsuc n) = negsuc (suc n)

-- The result, and what the counter holds then.
unfoldable pub alloc_request_id : ℤ → Result RequestIdExhausted ExplainRequestId × ℤ
unfolding is_exhausted pred ExplainRequestId.try_new
alloc_request_id cur = if is_exhausted cur then (err request_id_exhausted, cur) else (
  map_err (λ (e : ExplainRequestIdError). request_id_exhausted)
      (ExplainRequestId.try_new (pred cur)),
  pred cur,
)

-- What the counter holds behind `n` calls.
unfoldable pub counter_after : ℕ → ℤ → ℤ
unfolding alloc_request_id
counter_after zero cur = cur
counter_after (suc n) cur = (alloc_request_id (counter_after n cur)).1

abbrev last : ℕ
last = 2 ^ 31 - 1

alloc-fresh :
    (n : ℕ) → n < last → alloc_request_id (negsuc n) ≡ (ok (negsuc (suc n)), negsuc (suc n))
unfolding alloc_request_id is_exhausted pred ExplainRequestId.try_new
alloc-fresh n h = ground arith

alloc-exhausted :
    (n : ℕ) → n ≡ last → alloc_request_id (negsuc n) ≡ (err request_id_exhausted, negsuc n)
unfolding alloc_request_id is_exhausted
alloc-exhausted n h = ground arith

abbrev capped : ℕ → ℕ
capped n = if ltb n last then n else last

seeded_counter : (n : ℕ) → counter_after n seed ≡ negsuc (capped n)
unfolding counter_after
seeded_counter zero = refl
seeded_counter (suc n) = elim (Bool-cases (ltb n last)) [
  | inl t ↦
      ap (λ c. (alloc_request_id c).1) (seeded_counter n)
      ∙ rw (t, alloc-fresh n (ltb→lt n last t)) (ap (λ (k : ℕ). negsuc k) (ground arith))
  | inr f ↦
      ap (λ c. (alloc_request_id c).1) (seeded_counter n)
      ∙ rw f (ap (λ (k : ℕ). negsuc k) (ground arith))
]

-- The call for an id number `n`, counted from 0 and from the seed of a connection, gives the id
-- `-(n + 2)` if `n` is below 2^31 - 1, and every later call gives the error.
pub alloc_request_id_nth :
    (n : ℕ)
    → (alloc_request_id (counter_after n seed)).0
      ≡ (if ltb n (2 ^ 31 - 1) then ok (negsuc (suc n)) else err request_id_exhausted)
alloc_request_id_nth n = elim (Bool-cases (ltb n last)) [
  | inl t ↦
      ap (λ c. (alloc_request_id c).0) (seeded_counter n)
      ∙ rw (t) (
          ap (λ (r : Result RequestIdExhausted ExplainRequestId × ℤ). r.0)
            (alloc-fresh n (ltb→lt n last t)))
  | inr f ↦
      ap (λ c. (alloc_request_id c).0) (seeded_counter n)
      ∙ rw (f) (
          ap (λ (r : Result RequestIdExhausted ExplainRequestId × ℤ). r.0)
            (alloc-exhausted last refl))
]
