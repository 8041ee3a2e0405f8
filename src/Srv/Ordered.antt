-- ===== src/Srv/Ordered.antt =====
-- How `order_by_priority_weight` of src/srv.rs ends.
use mongod_proxy.Srv.Permutation.{
  sort_by_key-Perm, length-sort_by_key, chosen_index_inside, remove-Perm, weight_sum-Perm,
  weight_sum-append, total_weight-Summed, Summed, Overflows,
}
use mathlib.Core.Option
use mongod_proxy.Srv.Random.{WeightedRng}
use mongod_proxy.Prelude.{
  sym, ◌⊎◌, none, ◌∙◌, subst, append_assoc, append-nil, Option, true, ap, ◌==◌, ◌++◌, ◌≤◌, ◌+◌,
  arith, Bool-cases, length, ◌<◌, ◌≡◌, List, ℕ, ◌∷◌, inr, inl, [], some, suc, zero, refl,
}
use mathlib.Core.List.{Perm}
use mathlib.Core.List.Perm
use mongod_proxy.Srv.Order.{
  weight_sum, draw_of, next_group, next_round, weighted_shuffle_into, order_groups,
  order_by_priority_weight, total_weight, weight_key, draw, span_priority, weighted_shuffle,
  sort_by_key, chosen_index, RawSrvRecord,
}

module _ (rng : WeightedRng) where
  open rng use {Rng}

  -- The records rearranged behind what was there, or the panic of a sum that overflowed.
  abbrev pub Ends :
      List RawSrvRecord → List RawSrvRecord → Option (List RawSrvRecord) × Rng → Type 0
  Ends rs ordered o =
      ((xs : List RawSrvRecord) × (s' : Rng) × (o ≡ (some (ordered ++ xs), s')) × Perm xs rs)
      ⊎ (Overflows rs × ((s' : Rng) × (o ≡ (none, s'))))

  abbrev Drawn : List RawSrvRecord → Option (RawSrvRecord × List RawSrvRecord) × Rng → Type 0
  Drawn rs o =
      ((x : RawSrvRecord) × (group : List RawSrvRecord) × (s' : Rng) × (o ≡ (some (x, group), s'))
        × Perm (x ∷ group) rs
        × (suc (length group) ≡ length rs))
      ⊎ (Overflows rs × ((s' : Rng) × (o ≡ (none, s'))))

  draw_of-Drawn :
      (sorted : List RawSrvRecord) (total : Option ℕ) (s : Rng)
      → 0 < length sorted
      → Summed sorted total
      → Drawn sorted (draw_of rng sorted total s)
  unfolding draw_of
  draw_of-Drawn sorted none s long h = inr (h, (s, refl))
  draw_of-Drawn sorted (some total) s long h =
      let (pick, s') = rng.gen_range_inclusive total s in
      let (x, (group, (e, (p, k)))) =
        remove-Perm (chosen_index pick sorted) sorted (chosen_index_inside pick sorted long) in
      inl (x, group, s', rw (draw_of, e) refl, p, k)

  draw_of-Drawn_sorted :
      (rs sorted : List RawSrvRecord) (o : Option (RawSrvRecord × List RawSrvRecord) × Rng)
      → Perm sorted rs
      → length sorted ≡ length rs
      → Drawn sorted o
      → Drawn rs o
  draw_of-Drawn_sorted rs sorted o p n (inl (x, group, s', e, q, k)) =
      inl (x, group, s', e, Perm.trans q p, k ∙ n)
  draw_of-Drawn_sorted rs sorted o p n (inr (over, panic)) =
      inr (omega (arith, weight_sum-Perm p), panic)

  draw-Drawn :
      (r : RawSrvRecord) (rs : List RawSrvRecord) (s : Rng) → Drawn (r ∷ rs) (draw rng (r ∷ rs) s)
  unfolding draw
  draw-Drawn r rs s =
      let sorted = sort_by_key weight_key (r ∷ rs) in
      let n = length-sort_by_key weight_key (r ∷ rs) in
      draw_of-Drawn_sorted (r ∷ rs) sorted _ (sort_by_key-Perm weight_key (r ∷ rs)) n
        (draw_of-Drawn sorted (total_weight sorted) s (omega arith) (total_weight-Summed sorted))

  pub weighted_shuffle_step :
      (n : ℕ) (r : RawSrvRecord) (rs : List RawSrvRecord) (s : Rng) {x : RawSrvRecord}
      {group xs : List RawSrvRecord} {s1 s2 : Rng}
      → draw rng (r ∷ rs) s ≡ (some (x, group), s1)
      → weighted_shuffle rng n group s1 ≡ (some xs, s2)
      → weighted_shuffle rng (suc n) (r ∷ rs) s ≡ (some (x ∷ xs), s2)
  unfolding weighted_shuffle next_round
  weighted_shuffle_step n r rs s {x} e q =
      ap (next_round rng (weighted_shuffle rng n)) e
      ∙ ap (λ (t : Option (List RawSrvRecord) × Rng). (Option.map (λ ys. x ∷ ys) t.0, t.1)) q

  weighted_shuffle-Ends_step :
      (n : ℕ) (r : RawSrvRecord) (rs : List RawSrvRecord) (s : Rng)
      → ((group : List RawSrvRecord) (s1 : Rng)
          → length group ≤ n
          → Ends group [] (weighted_shuffle rng n group s1))
      → length (r ∷ rs) ≤ suc n
      → Drawn (r ∷ rs) (draw rng (r ∷ rs) s)
      → Ends (r ∷ rs) [] (weighted_shuffle rng (suc n) (r ∷ rs) s)
  unfolding weighted_shuffle next_round
  weighted_shuffle-Ends_step n r rs s ih fits (inr (over, (s', e))) =
      inr (over, (s', ap (next_round rng (weighted_shuffle rng n)) e))
  weighted_shuffle-Ends_step n r rs s ih fits (inl (x, group, s1, e, p, k)) =
      elim (ih group s1 (omega arith)) [
        | inl (xs, s2, q, t) ↦
            inl (x ∷ xs, s2, weighted_shuffle_step n r rs s e q, Perm.trans (Perm.cons x t) p)
        | inr (over, (s2, q)) ↦ inr (
          omega (arith, weight_sum-Perm p),
          (
            s2,
            ap (next_round rng (weighted_shuffle rng n)) e
                ∙ ap
                    (λ (t : Option (List RawSrvRecord) × Rng). (Option.map (λ ys. x ∷ ys) t.0, t.1))
                    q,
          ),
        )
      ]

  weighted_shuffle-Ends :
      (n : ℕ) (rs : List RawSrvRecord) (s : Rng)
      → length rs ≤ n
      → Ends rs [] (weighted_shuffle rng n rs s)
  unfolding weighted_shuffle
  weighted_shuffle-Ends n [] s h = inl ([], s, refl, Perm.rfl)
  weighted_shuffle-Ends zero (r ∷ rs) s h = absurd (omega arith)
  weighted_shuffle-Ends (suc n) (r ∷ rs) s h =
      weighted_shuffle-Ends_step n r rs s (weighted_shuffle-Ends n) h (draw-Drawn r rs s)

  pub span_priority-append :
      (p : ℕ) (rs : List RawSrvRecord) → (span_priority p rs).0 ++ (span_priority p rs).1 ≡ rs
  unfolding span_priority
  span_priority-append p [] = refl
  span_priority-append p (r ∷ rs) = elim (Bool-cases (r.priority == p)) [
    | inl t ↦ rw t (ap (λ (xs : List RawSrvRecord). r ∷ xs) (span_priority-append p rs))
    | inr f ↦ rw f
  ]

  span_priority_head :
      (r : RawSrvRecord) (rs : List RawSrvRecord)
      → span_priority r.priority (r ∷ rs)
        ≡ (r ∷ (span_priority r.priority rs).0, (span_priority r.priority rs).1)
  unfolding span_priority
  span_priority_head r rs = let same : (r.priority == r.priority) ≡ true = ground arith in rw same

  pub length-span_priority :
      (p : ℕ) (rs : List RawSrvRecord) → length (span_priority p rs).1 ≤ length rs
  unfolding span_priority
  length-span_priority p [] = omega arith
  length-span_priority p (r ∷ rs) = elim (Bool-cases (r.priority == p)) [
    | inl t ↦ rw t (omega (arith, length-span_priority p rs))
    | inr f ↦ rw f (omega arith)
  ]

  pub order_groups_step :
      (n : ℕ) (r : RawSrvRecord) (rs : List RawSrvRecord) (s : Rng) (ordered : List RawSrvRecord)
      (xs ys : List RawSrvRecord) {s1 s2 : Rng}
      → (let group = r ∷ (span_priority r.priority rs).0 in
          weighted_shuffle rng (length group) group s ≡ (some xs, s1))
      → order_groups rng n (span_priority r.priority rs).1 s1 (ordered ++ xs)
        ≡ (some ((ordered ++ xs) ++ ys), s2)
      → order_groups rng (suc n) (r ∷ rs) s ordered ≡ (some (ordered ++ (xs ++ ys)), s2)
  unfolding order_groups next_group weighted_shuffle_into
  order_groups_step n r rs s ordered xs ys {s2 = s2} e q =
      let rest = (span_priority r.priority rs).1 in
      ap
        (λ (t : List RawSrvRecord × List RawSrvRecord).
          next_group rng (order_groups rng n t.1) (weighted_shuffle_into rng t.0 s ordered))
        (span_priority_head r rs)
      ∙ ap
          (λ (t : Option (List RawSrvRecord) × Rng).
            next_group rng (order_groups rng n rest) (Option.map (λ ys. ordered ++ ys) t.0, t.1))
          e
      ∙ q
      ∙ ap (λ l. (some l, s2)) (append_assoc ordered xs ys)

  group_panics :
      (n : ℕ) (r : RawSrvRecord) (rs : List RawSrvRecord) (s : Rng) (ordered : List RawSrvRecord)
      {s1 : Rng}
      → (let group = r ∷ (span_priority r.priority rs).0 in
          weighted_shuffle rng (length group) group s ≡ (none, s1))
      → order_groups rng (suc n) (r ∷ rs) s ordered ≡ (none, s1)
  unfolding order_groups next_group weighted_shuffle_into
  group_panics n r rs s ordered e =
      let rest = (span_priority r.priority rs).1 in
      ap
        (λ (t : List RawSrvRecord × List RawSrvRecord).
          next_group rng (order_groups rng n t.1) (weighted_shuffle_into rng t.0 s ordered))
        (span_priority_head r rs)
      ∙ ap
          (λ (t : Option (List RawSrvRecord) × Rng).
            next_group rng (order_groups rng n rest) (Option.map (λ ys. ordered ++ ys) t.0, t.1))
          e

  rest_panics :
      (n : ℕ) (r : RawSrvRecord) (rs : List RawSrvRecord) (s : Rng) (ordered : List RawSrvRecord)
      (xs : List RawSrvRecord) {s1 s2 : Rng}
      → (let group = r ∷ (span_priority r.priority rs).0 in
          weighted_shuffle rng (length group) group s ≡ (some xs, s1))
      → order_groups rng n (span_priority r.priority rs).1 s1 (ordered ++ xs) ≡ (none, s2)
      → order_groups rng (suc n) (r ∷ rs) s ordered ≡ (none, s2)
  unfolding order_groups next_group weighted_shuffle_into
  rest_panics n r rs s ordered xs e q =
      let rest = (span_priority r.priority rs).1 in
      ap
        (λ (t : List RawSrvRecord × List RawSrvRecord).
          next_group rng (order_groups rng n t.1) (weighted_shuffle_into rng t.0 s ordered))
        (span_priority_head r rs)
      ∙ ap
          (λ (t : Option (List RawSrvRecord) × Rng).
            next_group rng (order_groups rng n rest) (Option.map (λ ys. ordered ++ ys) t.0, t.1))
          e
      ∙ q

  -- A sum of a group, or of the records behind it, is one of a part of the records.
  parts :
      (r : RawSrvRecord) (rs : List RawSrvRecord)
      → weight_sum (r ∷ (span_priority r.priority rs).0)
          + weight_sum (span_priority r.priority rs).1
        ≡ weight_sum (r ∷ rs)
  parts r rs =
      sym (weight_sum-append (r ∷ (span_priority r.priority rs).0) (span_priority r.priority rs).1)
      ∙ ap (λ l. weight_sum (r ∷ l)) (span_priority-append r.priority rs)

  order_groups-Ends_step :
      (n : ℕ) (r : RawSrvRecord) (rs : List RawSrvRecord) (s : Rng) (ordered : List RawSrvRecord)
      → ((s1 : Rng) (done : List RawSrvRecord)
          → let rest = (span_priority r.priority rs).1 in
            Ends rest done (order_groups rng n rest s1 done))
      → (let group = r ∷ (span_priority r.priority rs).0 in
          Ends group [] (weighted_shuffle rng (length group) group s))
      → Ends (r ∷ rs) ordered (order_groups rng (suc n) (r ∷ rs) s ordered)
  order_groups-Ends_step n r rs s ordered ih (inr (over, (s1, e))) =
      inr (omega (arith, parts r rs), (s1, group_panics n r rs s ordered e))
  order_groups-Ends_step n r rs s ordered ih (inl (xs, s1, e, p)) = elim (ih s1 (ordered ++ xs)) [
    | inl (ys, s2, q, t) ↦ inl (
      xs ++ ys,
      s2,
      order_groups_step n r rs s ordered xs ys e q,
      Perm.trans (Perm.append p t) (
          subst
            (λ l.
              Perm ((r ∷ (span_priority r.priority rs).0) ++ (span_priority r.priority rs).1)
                (r ∷ l))
            (span_priority-append r.priority rs) Perm.rfl),
    )
    | inr (over, (s2, q)) ↦
        inr (omega (arith, parts r rs), (s2, rest_panics n r rs s ordered xs e q))
  ]

  order_groups-Ends :
      (n : ℕ) (rs : List RawSrvRecord) (s : Rng) (ordered : List RawSrvRecord)
      → length rs ≤ n
      → Ends rs ordered (order_groups rng n rs s ordered)
  unfolding order_groups
  order_groups-Ends n [] s ordered h = inl ([], s, rw (append-nil ordered), Perm.rfl)
  order_groups-Ends zero (r ∷ rs) s ordered h = absurd (omega arith)
  order_groups-Ends (suc n) (r ∷ rs) s ordered h =
      let group = r ∷ (span_priority r.priority rs).0 in
      let rest = (span_priority r.priority rs).1 in
      let fits : length rest ≤ n = omega (arith, length-span_priority r.priority rs) in
      order_groups-Ends_step n r rs s ordered (λ s1 done. order_groups-Ends n rest s1 done fits)
        (weighted_shuffle-Ends (length group) group s (omega arith))

  -- Ordering SRV records by priority and weight, with any random numbers, ends: it gives a
  -- permutation of the records, or it panics, and that only if the weights come to 2^32 or more.
  pub order_by_priority_weight-Ends :
      (records : List RawSrvRecord) (s : Rng)
      → Ends records [] (order_by_priority_weight rng records s)
  unfolding order_by_priority_weight
  order_by_priority_weight-Ends records s =
      let sorted = sort_by_key (λ r. r.priority) records in
      let p = sort_by_key-Perm (λ r. r.priority) records in
      elim (order_groups-Ends (length records) sorted s []
        (omega (arith, length-sort_by_key (λ r. r.priority) records))) [
          | inl (xs, s', e, q) ↦ inl (xs, s', e, Perm.trans q p)
          | inr (over, panic) ↦ inr (omega (arith, weight_sum-Perm p), panic)
        ]
