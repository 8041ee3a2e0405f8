-- ===== src/Srv/Order.antt =====
-- `order_by_priority_weight` and `weighted_shuffle_into`: the order of RFC 2782.
use mathlib.Core.Option
use mongod_proxy.Bytes.Defs.{Bytes}
use mongod_proxy.Srv.Random.{WeightedRng}
use mongod_proxy.Prelude.{
  ◌^◌, ltb, ◌%◌, ◌++◌, ◌==◌, length, Option, ◌+◌, if◌then◌else◌, List, ℕ, ◌∷◌, [], none, some, suc,
  zero, leb,
}

pub record RawSrvRecord : Type 0 where
  pub target : Bytes
  pub port : ℕ
  pub priority : ℕ
  pub weight : ℕ

-- The standard library's `sort_by_key`, which is stable: an insertion sort that goes past no equal.
abbrev pub insert_by_key : {A : Type 0} → (A → ℕ) → A → List A → List A
insert_by_key key x [] = x ∷ []
insert_by_key key x (y ∷ ys) =
    let rest = insert_by_key key x ys in if leb (key x) (key y) then x ∷ y ∷ ys else y ∷ rest

abbrev pub sort_by_key : {A : Type 0} → (A → ℕ) → List A → List A
sort_by_key key [] = []
sort_by_key key (x ∷ xs) = insert_by_key key x (sort_by_key key xs)

-- `false` before `true`.
abbrev pub weight_key : RawSrvRecord → ℕ
weight_key r = if r.weight == 0 then 0 else 1

abbrev pub weight_sum : List RawSrvRecord → ℕ
weight_sum [] = 0
weight_sum (r ∷ rs) = r.weight + weight_sum rs

-- The sum as a `u32`; none where it overflows, which panics in a debug build.
unfoldable pub total_weight : List RawSrvRecord → Option ℕ
total_weight rs = if ltb (weight_sum rs) (2 ^ 32) then some (weight_sum rs) else none

-- The loop that finds the record: its place, or none if the running sum never reaches the number.
-- The running sum is a `u32`; it never passes the total, which has not overflowed where it starts.
unfoldable pub find_chosen : ℕ → ℕ → List RawSrvRecord → Option ℕ
find_chosen pick running [] = none
find_chosen pick running (r ∷ rs) =
    let reached = (running + r.weight) % 2 ^ 32 in
    let rest = find_chosen pick reached rs in
    if leb pick reached then some 0 else Option.map suc rest

-- `chosen` starts at 0.
unfoldable pub chosen_index : ℕ → List RawSrvRecord → ℕ
unfolding find_chosen
chosen_index pick group = elim (find_chosen pick 0 group) [ none ↦ 0 | some i ↦ i ]

-- `Vec::remove`, which panics out of range.
unfoldable pub remove {ℓ} : {A : Type ℓ} → ℕ → List A → Option (A × List A)
remove i [] = none
remove zero (x ∷ xs) = some (x, xs)
remove (suc i) (x ∷ xs) = elim (remove i xs) [ none ↦ none | some (y, ys) ↦ some (y, x ∷ ys) ]

-- The records of the first priority, and the others.
unfoldable pub span_priority : ℕ → List RawSrvRecord → List RawSrvRecord × List RawSrvRecord
span_priority p [] = ([], [])
span_priority p (r ∷ rs) =
    let (group, rest) = span_priority p rs in
    if r.priority == p then (r ∷ group, rest) else ([], r ∷ rs)

module _ (rng : WeightedRng) where
  open rng use {Rng}

  -- One round of the shuffle's loop, by the sum of the weights: the record drawn and the group
  -- without it.
  unfoldable pub draw_of :
      List RawSrvRecord → Option ℕ → Rng → Option (RawSrvRecord × List RawSrvRecord) × Rng
  unfolding chosen_index remove
  draw_of sorted none s = (none, s)
  draw_of sorted (some total) s =
      let (pick, s') = rng.gen_range_inclusive total s in
      (remove (chosen_index pick sorted) sorted, s')

  unfoldable pub draw : List RawSrvRecord → Rng → Option (RawSrvRecord × List RawSrvRecord) × Rng
  unfolding draw_of total_weight
  draw group s = let sorted = sort_by_key weight_key group in draw_of sorted (total_weight sorted) s

  -- The record drawn goes out before those that the other rounds draw.
  unfoldable pub next_round :
      (List RawSrvRecord → Rng → Option (List RawSrvRecord) × Rng)
      → Option (RawSrvRecord × List RawSrvRecord) × Rng
      → Option (List RawSrvRecord) × Rng
  next_round rounds (none, s) = (none, s)
  next_round rounds (some (x, group), s) =
      let (xs, s') = rounds group s in (Option.map (λ ys. x ∷ ys) xs, s')

  -- The loop, on fuel; `none` stands for the panic of a sum or of `remove`, or for fuel that ran out.
  unfoldable pub weighted_shuffle : ℕ → List RawSrvRecord → Rng → Option (List RawSrvRecord) × Rng
  unfolding draw next_round
  weighted_shuffle n [] s = (some [], s)
  weighted_shuffle zero (r ∷ rs) s = (none, s)
  weighted_shuffle (suc n) (r ∷ rs) s = next_round (weighted_shuffle n) (draw (r ∷ rs) s)

  unfoldable pub weighted_shuffle_into :
      List RawSrvRecord → Rng → List RawSrvRecord → Option (List RawSrvRecord) × Rng
  unfolding weighted_shuffle
  weighted_shuffle_into group s out =
      let (xs, s') = weighted_shuffle (length group) group s in
      (Option.map (λ ys. out ++ ys) xs, s')

  unfoldable pub next_group :
      (Rng → List RawSrvRecord → Option (List RawSrvRecord) × Rng)
      → Option (List RawSrvRecord) × Rng
      → Option (List RawSrvRecord) × Rng
  next_group groups (none, s) = (none, s)
  next_group groups (some ordered, s) = groups s ordered

  -- The loop over the groups, on fuel.
  unfoldable pub order_groups :
      ℕ → List RawSrvRecord → Rng → List RawSrvRecord → Option (List RawSrvRecord) × Rng
  unfolding span_priority weighted_shuffle_into next_group
  order_groups n [] s ordered = (some ordered, s)
  order_groups zero (r ∷ rs) s ordered = (none, s)
  order_groups (suc n) (r ∷ rs) s ordered =
      let (group, rest) = span_priority r.priority (r ∷ rs) in
      next_group (order_groups n rest) (weighted_shuffle_into group s ordered)

  unfoldable pub order_by_priority_weight :
      List RawSrvRecord → Rng → Option (List RawSrvRecord) × Rng
  unfolding order_groups
  order_by_priority_weight records s =
      order_groups (length records) (sort_by_key (λ r. r.priority) records) s []
