-- ===== src/Bytes/Writer.antt =====
-- A `&mut BytesMut` that a function appends to: an action takes the buffer and gives it back with
-- its result, so that what an error leaves behind in the buffer is part of the model.
use mongod_proxy.Bytes.Defs.{Bytes}
use mongod_proxy.Prelude.{map_err, ◌++◌, Result, out_of_fuel, err, ok}

abbrev pub Writer {ℓ κ} : Type ℓ → Type κ → Type (ℓ ⊔ κ)
Writer E A = Bytes → Result E A × Bytes

abbrev continue {ℓ κ ι} :
    {E : Type ℓ} {A : Type κ} {B : Type ι}
    → Result E A
    → Bytes
    → (A → Writer E B)
    → Result E B × Bytes
continue (ok a) dst f = f a dst
continue (err e) dst f = (err e, dst)
continue out_of_fuel dst f = (out_of_fuel, dst)

infixl 5 ◌>>=◌ ◌>>◌
abbrev pub ◌>>=◌ {ℓ κ ι} :
    {E : Type ℓ} {A : Type κ} {B : Type ι} → Writer E A → (A → Writer E B) → Writer E B
m >>= f = λ dst. let (r, dst') = m dst in continue r dst' f

abbrev pub ◌>>◌ {ℓ ι} : {E : Type ℓ} {B : Type ι} → Writer E (Unit {0}) → Writer E B → Writer E B
m >> k = m >>= λ _. k

-- A computation that does not touch the buffer.
abbrev pub lift {ℓ κ} : {E : Type ℓ} {A : Type κ} → Result E A → Writer E A
lift r dst = (r, dst)

-- `dst.put(bytes)`, `dst.extend_from_slice(bytes)`.
abbrev pub put {ℓ} : {E : Type ℓ} → Bytes → Writer E (Unit {0})
put bytes dst = (ok tt, dst ++ bytes)

-- A write by a function that cannot fail.
abbrev pub edit {ℓ} : {E : Type ℓ} → (Bytes → Bytes) → Writer E (Unit {0})
edit f dst = (ok tt, f dst)

-- `?` on a write whose error converts by `From`.
abbrev pub convert_err {ℓ κ ι} :
    {E : Type ℓ} {F : Type κ} {A : Type ι} → (E → F) → Writer E A → Writer F A
convert_err f m dst = let (r, dst') = m dst in (map_err f r, dst')
