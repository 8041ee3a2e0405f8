-- ===== src/Prelude/Results.antt =====
-- Rust's `Result`, with one more outcome for a loop whose fuel ran out.
use native.Mathlib.Omega.{arith}
use mathlib.Core.Path.{◌≡◌, refl}
use mathlib.Core.Logic.{◌⊎◌, inl, inr, ◌≢◌}
use mathlib.Core.Bool.{Bool, true, false}
use mathlib.Core.Option.{Option, none, some}

-- `out_of_fuel` is no Rust value: it stands for a loop that has not ended.
pub data Result {ℓ κ} (E : Type ℓ) (A : Type κ) : Type (ℓ ⊔ κ) where
  ok : A → Result E A
  err : E → Result E A
  out_of_fuel : Result E A

-- The `?` operator between results of one error type.
infixl 5 ◌>>=◌ ◌>>◌
abbrev pub ◌>>=◌ {ℓ κ ι} :
    {E : Type ℓ} {A : Type κ} {B : Type ι} → Result E A → (A → Result E B) → Result E B
ok a >>= f = f a
err e >>= f = err e
out_of_fuel >>= f = out_of_fuel

abbrev pub ◌>>◌ {ℓ ι} : {E : Type ℓ} {B : Type ι} → Result E (Unit {0}) → Result E B → Result E B
m >> k = m >>= λ _. k

-- `map_err`, which `?` applies through a `From` instance too.
abbrev pub map_err {ℓ κ ι} :
    {E : Type ℓ} {F : Type κ} {A : Type ι} → (E → F) → Result E A → Result F A
map_err f (ok a) = ok a
map_err f (err e) = err (f e)
map_err f out_of_fuel = out_of_fuel

abbrev pub ok_or {ℓ κ} : {E : Type ℓ} {A : Type κ} → Option A → E → Result E A
ok_or (some a) e = ok a
ok_or none e = err e

abbrev pub unwrap_or {ℓ} : {A : Type ℓ} → A → Option A → A
unwrap_or otherwise none = otherwise
unwrap_or otherwise (some a) = a

-- `if !b { return Err(e) }`.
abbrev pub guard {ℓ} : {E : Type ℓ} → Bool → E → Result E (Unit {0})
guard true e = ok tt
guard false e = err e

pub some-same {ℓ} : {A : Type ℓ} {a b : A} → some a ≡ some b → a ≡ b
some-same e = ground arith

pub none-ne-some {ℓ} : {A : Type ℓ} {a : A} → none ≢ some a
none-ne-some e = ground arith

pub ok-same {ℓ κ} : {E : Type ℓ} {A : Type κ} {a b : A} → ◌≡◌ {A = Result E A} (ok a) (ok b) → a ≡ b
ok-same e = ground arith

pub err-ne-ok {ℓ κ} :
    {E : Type ℓ} {A : Type κ} {x : E} {a : A} → ◌≢◌ {A = Result E A} (err x) (ok a)
err-ne-ok e = ground arith

-- Inversion of a chain that succeeded.
pub >>=-eq-ok {ℓ κ ι} :
    {E : Type ℓ} {A : Type κ} {B : Type ι} (r : Result E A) (next : A → Result E B) {out : B}
    → (r >>= next) ≡ ok out
    → (x : A) × (r ≡ ok x) × (next x ≡ ok out)
>>=-eq-ok out_of_fuel next p = cc
>>=-eq-ok (err e) next p = cc
>>=-eq-ok (ok x) next p = (x, refl, p)

-- A chain that failed did so in front or behind.
pub >>=-eq-err {ℓ κ ι} :
    {E : Type ℓ} {A : Type κ} {B : Type ι} (r : Result E A) (next : A → Result E B) {e : E}
    → (r >>= next) ≡ err e
    → (r ≡ err e) ⊎ ((x : A) × (r ≡ ok x) × (next x ≡ err e))
>>=-eq-err out_of_fuel next p = cc
>>=-eq-err (err e) next p = inl cc
>>=-eq-err (ok x) next p = inr (x, refl, p)

pub map_err-eq-ok {ℓ κ ι} :
    {E : Type ℓ} {F : Type κ} {A : Type ι} (f : E → F) (m : Result E A) {a : A}
    → map_err f m ≡ ok a
    → m ≡ ok a
map_err-eq-ok f (ok a) h = cc
map_err-eq-ok f (err e) h = cc
map_err-eq-ok f out_of_fuel h = cc

pub ok_or-eq-ok {ℓ κ} :
    {E : Type ℓ} {A : Type κ} (o : Option A) (e : E) {a : A} → ok_or o e ≡ ok a → o ≡ some a
ok_or-eq-ok (some a) e h = cc
ok_or-eq-ok none e h = cc

-- A chain ends when its parts do.
pub >>=-ne-out_of_fuel {ℓ κ ι} :
    {E : Type ℓ} {A : Type κ} {B : Type ι} (m : Result E A) (f : A → Result E B)
    → m ≢ out_of_fuel
    → ((a : A) → m ≡ ok a → f a ≢ out_of_fuel)
    → (m >>= f) ≢ out_of_fuel
>>=-ne-out_of_fuel (ok a) f h k = k a refl
>>=-ne-out_of_fuel (err e) f h k = λ p. cc
>>=-ne-out_of_fuel out_of_fuel f h k = absurd (h refl)

pub map_err-ne-out_of_fuel {ℓ κ ι} :
    {E : Type ℓ} {F : Type κ} {A : Type ι} (f : E → F) (m : Result E A)
    → m ≢ out_of_fuel
    → map_err f m ≢ out_of_fuel
map_err-ne-out_of_fuel f (ok a) h = λ p. cc
map_err-ne-out_of_fuel f (err e) h = λ p. cc
map_err-ne-out_of_fuel f out_of_fuel h = absurd (h refl)

pub guard-ne-out_of_fuel {ℓ} : {E : Type ℓ} (b : Bool) (e : E) → guard b e ≢ out_of_fuel
guard-ne-out_of_fuel true e = λ p. cc
guard-ne-out_of_fuel false e = λ p. cc

pub ok_or-ne-out_of_fuel {ℓ κ} :
    {E : Type ℓ} {A : Type κ} (o : Option A) (e : E) → ok_or o e ≢ out_of_fuel
ok_or-ne-out_of_fuel (some a) e = λ p. cc
ok_or-ne-out_of_fuel none e = λ p. cc

-- To split on a computed result and keep the equation.
pub Result-cases {ℓ κ} :
    {E : Type ℓ} {A : Type κ} (r : Result E A)
    → ((a : A) × (r ≡ ok a)) ⊎ ((e : E) × (r ≡ err e)) ⊎ (r ≡ out_of_fuel)
Result-cases (ok a) = inl (a, refl)
Result-cases (err e) = inr (inl (e, refl))
Result-cases out_of_fuel = inr (inr refl)
