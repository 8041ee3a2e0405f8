-- ===== src/Srv/ZeroWeights.antt =====
-- `order_by_priority_weight` of src/srv.rs on records that all have weight 0, as Atlas gives them.
use mongod_proxy.Prelude.{
  ◌^◌, Option, ◌%◌, subst, append-nil, ◌++◌, length, suc, zero, ◌∙◌, arith, ap, ◌+◌, le→leb, ◌==◌,
  ◌≤◌, Bool-cases, leb, All, ℕ, ◌≡◌, List, ◌∷◌, inr, inl, [], some, true, refl,
}
use mongod_proxy.Srv.Random.{WeightedRng, IsWeightedRng}
use mongod_proxy.Srv.Order.{
  draw_of, weight_sum, order_groups, weighted_shuffle, total_weight, sort_by_key, find_chosen,
  insert_by_key, chosen_index, weight_key, remove, span_priority, RawSrvRecord,
  order_by_priority_weight, draw,
}
use mongod_proxy.Srv.Permutation.{length-sort_by_key}
use mongod_proxy.Srv.Ordered.{
  span_priority-append, length-span_priority, weighted_shuffle_step, order_groups_step,
}

abbrev pub HasNoWeight : RawSrvRecord → Type 0
HasNoWeight r = r.weight ≡ 0

weight_key_zero : (r : RawSrvRecord) → HasNoWeight r → weight_key r ≡ 0
weight_key_zero r h = rw h refl

insert_zero :
    (r : RawSrvRecord) (rs : List RawSrvRecord)
    → HasNoWeight r
    → insert_by_key weight_key r rs ≡ r ∷ rs
insert_zero r [] h = refl
insert_zero r (x ∷ xs) h =
    let first : leb (weight_key r) (weight_key x) ≡ true =
      le→leb _ _ (omega (arith, weight_key_zero r h)) in
    rw first

sort_zero : (rs : List RawSrvRecord) → All HasNoWeight rs → sort_by_key weight_key rs ≡ rs
sort_zero [] h = refl
sort_zero (r ∷ rs) h = ap (insert_by_key weight_key r) (sort_zero rs h.1) ∙ insert_zero r rs h.0

sum_zero : (rs : List RawSrvRecord) → All HasNoWeight rs → weight_sum rs ≡ 0
sum_zero [] h = refl
sum_zero (r ∷ rs) h = omega (arith, h.0, sum_zero rs h.1)

total_zero : (rs : List RawSrvRecord) → All HasNoWeight rs → total_weight rs ≡ some 0
unfolding total_weight
total_zero rs h = rw (total_weight, sum_zero rs h) refl

chosen_zero :
    (r : RawSrvRecord) (rs : List RawSrvRecord) (pick : ℕ)
    → pick ≤ 0
    → chosen_index pick (r ∷ rs) ≡ 0
unfolding chosen_index find_chosen
chosen_zero r rs pick h =
    let reached : leb pick ((0 + r.weight) % 2 ^ 32) ≡ true = le→leb _ _ (omega arith) in
    rw (chosen_index, find_chosen, reached)

span_zero :
    (p : ℕ) (rs : List RawSrvRecord)
    → All HasNoWeight rs
    → All HasNoWeight (span_priority p rs).0 × All HasNoWeight (span_priority p rs).1
unfolding span_priority
span_zero p [] h = (tt, tt)
span_zero p (r ∷ rs) h = elim (Bool-cases (r.priority == p)) [
  | inl t ↦ let (a, b) = span_zero p rs h.1 in rw t ((h.0, a), b)
  | inr f ↦ rw f (tt, h)
]

insert_weightless :
    (key : RawSrvRecord → ℕ) (r : RawSrvRecord) (rs : List RawSrvRecord)
    → HasNoWeight r
    → All HasNoWeight rs
    → All HasNoWeight (insert_by_key key r rs)
insert_weightless key r [] h k = (h, tt)
insert_weightless key r (x ∷ xs) h k = elim (Bool-cases (leb (key r) (key x))) [
  | inl t ↦ rw t (h, k)
  | inr f ↦ rw f (k.0, insert_weightless key r xs h k.1)
]

sort_weightless :
    (key : RawSrvRecord → ℕ) (rs : List RawSrvRecord)
    → All HasNoWeight rs
    → All HasNoWeight (sort_by_key key rs)
sort_weightless key [] h = tt
sort_weightless key (r ∷ rs) h = insert_weightless key r _ h.0 (sort_weightless key rs h.1)

module _ (rng : WeightedRng) (laws : IsWeightedRng rng) where
  open rng use {Rng}

  draw_zero :
      (r : RawSrvRecord) (rs : List RawSrvRecord) (s : Rng)
      → All HasNoWeight (r ∷ rs)
      → (s' : Rng) × (draw rng (r ∷ rs) s ≡ (some (r, rs), s'))
  unfolding draw draw_of remove
  draw_zero r rs s h =
      let none_drawn : (rng.gen_range_inclusive 0 s).0 ≤ 0 = laws.in_range 0 s in
      let first = chosen_zero r rs _ none_drawn in
      (
        (rng.gen_range_inclusive 0 s).1,
        ap (λ (group : List RawSrvRecord). draw_of rng group (total_weight group) s)
              (sort_zero (r ∷ rs) h)
            ∙ ap (λ (t : Option ℕ). draw_of rng (r ∷ rs) t s) (total_zero (r ∷ rs) h)
            ∙ ap (λ (i : ℕ). (remove i (r ∷ rs), (rng.gen_range_inclusive 0 s).1)) first,
      )

  shuffle_zero :
      (n : ℕ) (rs : List RawSrvRecord) (s : Rng)
      → length rs ≤ n
      → All HasNoWeight rs
      → (s' : Rng) × (weighted_shuffle rng n rs s ≡ (some rs, s'))
  unfolding weighted_shuffle
  shuffle_zero n [] s fits h = (s, refl)
  shuffle_zero zero (r ∷ rs) s fits h = absurd (omega arith)
  shuffle_zero (suc n) (r ∷ rs) s fits h =
      let (s1, e) = draw_zero r rs s h in
      let (s2, q) = shuffle_zero n rs s1 (omega arith) h.1 in
      (s2, weighted_shuffle_step rng n r rs s e q)

  groups_zero :
      (n : ℕ) (rs : List RawSrvRecord) (s : Rng) (ordered : List RawSrvRecord)
      → length rs ≤ n
      → All HasNoWeight rs
      → (s' : Rng) × (order_groups rng n rs s ordered ≡ (some (ordered ++ rs), s'))
  unfolding order_groups
  groups_zero n [] s ordered fits h = (s, rw (append-nil ordered))
  groups_zero zero (r ∷ rs) s ordered fits h = absurd (omega arith)
  groups_zero (suc n) (r ∷ rs) s ordered fits h =
      let group = r ∷ (span_priority r.priority rs).0 in
      let rest = (span_priority r.priority rs).1 in
      let (light, light_rest) = span_zero r.priority rs h.1 in
      let shorter : length rest ≤ n = omega (arith, length-span_priority rng r.priority rs) in
      let (s1, e) = shuffle_zero (length group) group s (omega arith) (h.0, light) in
      let (s2, q) = groups_zero n rest s1 (ordered ++ group) shorter light_rest in
      (
        s2,
        subst (λ l. order_groups rng (suc n) (r ∷ rs) s ordered ≡ (some (ordered ++ (r ∷ l)), s2))
            (span_priority-append rng r.priority rs)
            (order_groups_step rng n r rs s ordered group rest e q),
      )

  -- If no record has a weight and the random generator keeps to its range, then ordering the
  -- records by priority and weight ends without a panic and gives the records stably sorted by
  -- priority.
  pub order_by_priority_weight_zero :
      (records : List RawSrvRecord) (s : Rng)
      → All HasNoWeight records
      → (s' : Rng) × (order_by_priority_weight rng records s
          ≡ (some (sort_by_key (λ r. r.priority) records), s'))
  unfolding order_by_priority_weight
  order_by_priority_weight_zero records s h =
      let sorted = sort_by_key (λ r. r.priority) records in
      groups_zero (length records) sorted s []
        (omega (arith, length-sort_by_key (λ r. r.priority) records))
        (sort_weightless (λ r. r.priority) records h)
