-- ===== src/Ids.antt =====
-- src/ids.rs: the identifiers of the wire protocol, newtypes over an `i32`.
pub mod MessageLength
pub mod ExplainRequestId
use mongod_proxy.Prelude.{ℤ, Option, none, some, Bool, ◌≡◌, false, true, pos, zero, suc, negsuc}
use mongod_proxy.Bytes.Defs.{IsI32}

abbrev pub RequestId : Type 0
RequestId = ℤ

-- A `NonZeroI32` in the program: see `IsResponseTo`.
abbrev pub ResponseTo : Type 0
ResponseTo = ℤ

abbrev pub is_zero : ℤ → Bool
is_zero (pos zero) = true
is_zero (pos (suc n)) = false
is_zero (negsuc n) = false

-- `NonZeroI32::new`, and `map_or(0, get)` back.
abbrev pub non_zero : ℤ → Option ℤ
non_zero (pos zero) = none
non_zero (pos (suc n)) = some (pos (suc n))
non_zero (negsuc n) = some (negsuc n)

abbrev pub or_zero : Option ResponseTo → ℤ
or_zero none = pos 0
or_zero (some r) = r

-- A `response_to` field holds nothing, or an `i32` other than zero.
abbrev pub IsResponseTo : Option ResponseTo → Type 0
IsResponseTo none = Unit
IsResponseTo (some r) = IsI32 r × (is_zero r ≡ false)
