-- ===== src/Header/Length.antt =====
-- The length that a writer puts into the header: each of the three writers converts its `usize` to
-- an `i32` and then to a `MessageLength`, and reports either failure as its own `MessageTooLarge`.
use mongod_proxy.Ids.MessageLength.{max_len, try_new, MessageLength}
use mongod_proxy.Prelude.{
  arith, ◌<◌, ◌^◌, ◌≢◌, ltb, map_err, ◌≡◌, ◌≤◌, ok_or, if◌then◌else◌, ℤ, Result, Option, ℕ,
  out_of_fuel, err, ok, pos, none, some, ◌>>=◌,
}

-- `i32::try_from` of a `usize`.
unfoldable pub i32_try_from : ℕ → Option ℤ
i32_try_from n = if ltb n (2 ^ 31) then some (pos n) else none

unfoldable pub checked_length : {E : Type 0} → (ℕ → E) → ℕ → Result E MessageLength
unfolding i32_try_from
checked_length too_large message_length = do
  message_length_i32 ← ok_or (i32_try_from message_length) (too_large message_length)
  map_err (λ e. too_large message_length) (try_new message_length_i32)

-- The conversion succeeds exactly up to the wire's limit.
pub checked_length-eq-ok :
    {E : Type 0} (too_large : ℕ → E) (n : ℕ) {m : MessageLength}
    → checked_length too_large n ≡ ok m
    → (m ≡ pos n) × (16 ≤ n) × (n ≤ max_len)
unfolding checked_length try_new
checked_length-eq-ok too_large n h = ground arith

pub checked_length_fits :
    {E : Type 0} (too_large : ℕ → E) (n : ℕ)
    → 16 ≤ n
    → n ≤ max_len
    → checked_length too_large n ≡ ok (pos n)
unfolding checked_length try_new
checked_length_fits too_large n lo hi = ground arith

pub checked_length_too_large :
    {E : Type 0} (too_large : ℕ → E) (n : ℕ)
    → max_len < n
    → checked_length too_large n ≡ err (too_large n)
unfolding checked_length try_new
checked_length_too_large too_large n h = ground arith

pub checked_length-ne-out_of_fuel :
    {E : Type 0} (too_large : ℕ → E) (n : ℕ) → checked_length too_large n ≢ out_of_fuel
unfolding checked_length try_new
checked_length-ne-out_of_fuel too_large n h = ground arith
