-- ===== src/Srv/Random.antt =====
-- `WeightedRng` and its implementation `SplitMix64`: random numbers as explicit state passing.
use native.Mathlib.Nat.{mod-lt}
use Prim.Native.Nat.{bit_xor}
use mongod_proxy.Prelude.{
  arith, Bool-cases, ◌<◌, inr, inl, ◌*◌, ◌==◌, ◌%◌, ◌^◌, ◌+◌, if◌then◌else◌, ◌/◌, ◌≤◌, ℕ,
}

-- The trait: the generator's state goes in, the number and the next state come out.
pub record WeightedRng : Type 1 where
  pub Rng : Type 0
  pub gen_range_inclusive : ℕ → Rng → ℕ × Rng

-- What the trait's comment promises of the range.
pub record IsWeightedRng (rng : WeightedRng) : Type 0 where
  pub in_range : (max : ℕ) (s : rng.Rng) → (rng.gen_range_inclusive max s).0 ≤ max

pub record SplitMix64 : Type 0 where
  pub state : ℕ

-- The mixing of the new state; multiplications wrap at 64 bits.
unfoldable pub mix : ℕ → ℕ
mix z0 =
    let z1 = (bit_xor z0 (z0 / 2 ^ 30) * 0xBF58476D1CE4E5B9) % 2 ^ 64 in
    let z2 = (bit_xor z1 (z1 / 2 ^ 27) * 0x94D049BB133111EB) % 2 ^ 64 in bit_xor z2 (z2 / 2 ^ 31)

unfoldable pub next_u64 : SplitMix64 → ℕ × SplitMix64
unfolding mix
next_u64 s =
    let state = (s.state + 0x9E3779B97F4A7C15) % 2 ^ 64 in (mix state, record { state = state })

-- The cast to `u32` cuts off what is above 32 bits.
unfoldable pub gen_range_inclusive : ℕ → SplitMix64 → ℕ × SplitMix64
unfolding next_u64
gen_range_inclusive max s =
    if max == 0 then (0, s) else (let (z, s') = next_u64 s in ((z % (max + 1)) % 2 ^ 32, s'))

abbrev pub split_mix_64 : WeightedRng
split_mix_64 = record { Rng = SplitMix64; gen_range_inclusive = gen_range_inclusive }

cast_le : (k max : ℕ) → k < max + 1 → k % 2 ^ 32 ≤ max
cast_le k max h = omega arith

-- The number that `SplitMix64` draws for a bound is at most the bound, in every state of the
-- generator.
pub gen_range_inclusive-le : (max : ℕ) (s : SplitMix64) → (gen_range_inclusive max s).0 ≤ max
unfolding gen_range_inclusive
gen_range_inclusive-le max s = elim (Bool-cases (max == 0)) [
  | inl z ↦ rw z (omega arith)
  | inr n ↦ rw n (cast_le _ max (mod-lt _ (omega arith)))
]

pub split_mix_64-IsWeightedRng : IsWeightedRng split_mix_64
split_mix_64-IsWeightedRng = record { in_range = gen_range_inclusive-le }
