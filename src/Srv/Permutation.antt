-- ===== src/Srv/Permutation.antt =====
-- The records before and after `order_by_priority_weight` of src/srv.rs.
use mongod_proxy.Prelude.{
  ltb, none, ◌^◌, ◌%◌, ◌∙◌, Option, ap, ◌++◌, ◌≤◌, ◌+◌, leb, Option-cases, arith, Bool-cases,
  length, ◌<◌, ◌≡◌, List, ℕ, ◌∷◌, inr, inl, [], some, suc, zero, refl,
}
use mathlib.Core.List.{Perm, Permᴰ}
use mathlib.Core.Logic.{∥∥₁_elim}
use native.Mathlib.Nat.{ℕ_set}
use mathlib.Core.List.Perm
use mongod_proxy.Srv.Order.{
  weight_sum, total_weight, insert_by_key, sort_by_key, remove, chosen_index, find_chosen,
  RawSrvRecord,
}

module _ {A : Type 0} (key : A → ℕ) where
  insert_by_key-Perm : (x : A) (xs : List A) → Perm (insert_by_key key x xs) (x ∷ xs)
  insert_by_key-Perm x [] = Perm.rfl
  insert_by_key-Perm x (y ∷ ys) = elim (Bool-cases (leb (key x) (key y))) [
    | inl t ↦ rw t Perm.rfl
    | inr f ↦ rw f (Perm.trans (Perm.cons y (insert_by_key-Perm x ys)) (Perm.swap x y ys))
  ]

  pub sort_by_key-Perm : (xs : List A) → Perm (sort_by_key key xs) xs
  sort_by_key-Perm [] = Perm.rfl
  sort_by_key-Perm (x ∷ xs) =
      Perm.trans (insert_by_key-Perm x (sort_by_key key xs)) (Perm.cons x (sort_by_key-Perm xs))

  length-insert_by_key : (x : A) (xs : List A) → length (insert_by_key key x xs) ≡ suc (length xs)
  length-insert_by_key x [] = refl
  length-insert_by_key x (y ∷ ys) = ground (arith, length-insert_by_key x ys)

  pub length-sort_by_key : (xs : List A) → length (sort_by_key key xs) ≡ length xs
  length-sort_by_key [] = refl
  length-sort_by_key (x ∷ xs) =
      omega (arith, length-insert_by_key x (sort_by_key key xs), length-sort_by_key xs)

pub find_chosen_inside :
    (pick running : ℕ) (rs : List RawSrvRecord) {i : ℕ}
    → find_chosen pick running rs ≡ some i
    → i < length rs
unfolding find_chosen
find_chosen_inside pick running [] h = ground arith
find_chosen_inside pick running (r ∷ rs) h =
    let reached = (running + r.weight) % 2 ^ 32 in
    elim (Bool-cases (leb pick reached)) [
      | inl t ↦ ground arith
      | inr f ↦ elim (Option-cases (find_chosen pick reached rs)) [
        | inl e ↦ ground arith
        | inr (j, e) ↦ ground (arith, find_chosen_inside pick reached rs e)
      ]
    ]

pub chosen_index_inside :
    (pick : ℕ) (rs : List RawSrvRecord) → 0 < length rs → chosen_index pick rs < length rs
unfolding chosen_index
chosen_index_inside pick rs h = elim (Option-cases (find_chosen pick 0 rs)) [
  | inl e ↦ rw (chosen_index, e) h
  | inr (j, e) ↦ rw (chosen_index, e) (find_chosen_inside pick 0 rs e)
]

pub remove-Perm :
    {A : Type 0} (i : ℕ) (xs : List A)
    → i < length xs
    → (y : A) × ((ys : List A) × ((remove i xs ≡ some (y, ys))
          × (Perm (y ∷ ys) xs × (suc (length ys) ≡ length xs))))
unfolding remove
remove-Perm i [] h = absurd (omega arith)
remove-Perm zero (x ∷ xs) h = (x, (xs, (refl, (Perm.rfl, refl))))
remove-Perm (suc i) (x ∷ xs) h =
    let (y, (ys, (e, (p, n)))) = remove-Perm i xs (omega arith) in
    (y, (x ∷ ys, (rw e, (Perm.trans (Perm.swap x y ys) (Perm.cons x p), omega arith))))

weight_sum-Permᴰ : {xs ys : List RawSrvRecord} → Permᴰ xs ys → weight_sum xs ≡ weight_sum ys
weight_sum-Permᴰ Permᴰ.nil = refl
weight_sum-Permᴰ (Permᴰ.cons e d) =
    omega (arith, ap (λ (r : RawSrvRecord). r.weight) e, weight_sum-Permᴰ d)
weight_sum-Permᴰ (Permᴰ.swap e f) =
    omega (arith, ap (λ (r : RawSrvRecord). r.weight) e, ap (λ (r : RawSrvRecord). r.weight) f)
weight_sum-Permᴰ (Permᴰ.trans d e) = weight_sum-Permᴰ d ∙ weight_sum-Permᴰ e

pub weight_sum-Perm : {xs ys : List RawSrvRecord} → Perm xs ys → weight_sum xs ≡ weight_sum ys
weight_sum-Perm {xs} {ys} p = ∥∥₁_elim p (ℕ_set (weight_sum xs) (weight_sum ys)) weight_sum-Permᴰ

pub weight_sum-append :
    (xs ys : List RawSrvRecord) → weight_sum (xs ++ ys) ≡ weight_sum xs + weight_sum ys
weight_sum-append [] ys = omega arith
weight_sum-append (r ∷ xs) ys = omega (arith, weight_sum-append xs ys)

-- The sum of the weights is no `u32`.
abbrev pub Overflows : List RawSrvRecord → Type 0
Overflows rs = 2 ^ 32 ≤ weight_sum rs

abbrev pub Summed : List RawSrvRecord → Option ℕ → Type 0
Summed rs none = Overflows rs
Summed rs (some total) = Unit

pub total_weight-Summed : (rs : List RawSrvRecord) → Summed rs (total_weight rs)
unfolding total_weight
total_weight-Summed rs = elim (Bool-cases (ltb (weight_sum rs) (2 ^ 32))) [
  | inl t ↦ rw t tt
  | inr f ↦ rw f (ground arith)
]
