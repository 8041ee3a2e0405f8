-- ===== src/Uri/Text.antt =====
-- The operations of `str` that the parser calls, as the standard library defines them.
use mongod_proxy.Bytes.Defs.{Bytes, eq_bytes}
use mongod_proxy.Prelude.{
  ◌-◌, ◌+◌, List, ◌&&◌, ◌==◌, ◌*◌, ℕ, Option, if◌then◌else◌, Bool, ◌∷◌, [], none, some, leb,
}

-- What is behind a prefix, if the text has it.
unfoldable pub strip_prefix : Bytes → Bytes → Option Bytes
strip_prefix [] s = some s
strip_prefix (p ∷ ps) [] = none
strip_prefix (p ∷ ps) (b ∷ bs) = let rest = strip_prefix ps bs in if p == b then rest else none

-- The text split around the first occurrence of a pattern.
unfoldable pub split_once : Bytes → Bytes → Option (Bytes × Bytes)
unfolding strip_prefix
split_once pat [] = elim (strip_prefix pat []) [ none ↦ none | some rest ↦ some ([], rest) ]
split_once pat (b ∷ bs) =
    let later = split_once pat bs in
    elim (strip_prefix pat (b ∷ bs)) [
      | some rest ↦ some ([], rest)
      | none ↦ elim later [ none ↦ none | some (front, back) ↦ some (b ∷ front, back) ]
    ]

-- The text split around the last occurrence of a character.
unfoldable pub rsplit_once : ℕ → Bytes → Option (Bytes × Bytes)
rsplit_once c [] = none
rsplit_once c (b ∷ bs) = elim (rsplit_once c bs) [
  | some (front, back) ↦ some (b ∷ front, back)
  | none ↦ if b == c then some ([], bs) else none
]

-- The first piece and the others; a text without the character is one piece.
unfoldable pub split : ℕ → Bytes → Bytes × List Bytes
split c [] = ([], [])
split c (b ∷ bs) =
    let (first, others) = split c bs in if b == c then ([], first ∷ others) else (b ∷ first, others)

abbrev pub to_ascii_lowercase : Bytes → Bytes
to_ascii_lowercase [] = []
to_ascii_lowercase (b ∷ bs) =
    let rest = to_ascii_lowercase bs in if leb 65 b && leb b 90 then (b + 32) ∷ rest else b ∷ rest

abbrev pub eq_ignore_ascii_case : Bytes → Bytes → Bool
eq_ignore_ascii_case a b = eq_bytes (to_ascii_lowercase a) (to_ascii_lowercase b)

-- The digits of a `u16`: each step is checked for overflow.
unfoldable pub u16_digits : ℕ → Bytes → Option ℕ
u16_digits acc [] = some acc
u16_digits acc (b ∷ bs) =
    let next = acc * 10 + (b - 48) in
    let rest = u16_digits next bs in if leb 48 b && leb b 57 && leb next 65535 then rest else none

-- `str::parse::<u16>`: at least one digit, behind an optional plus.
unfoldable pub parse_u16 : Bytes → Option ℕ
unfolding u16_digits
parse_u16 [] = none
parse_u16 (b ∷ []) = u16_digits 0 (b ∷ [])
parse_u16 (b ∷ c ∷ bs) =
    let signed = u16_digits 0 (c ∷ bs) in if b == 43 then signed else u16_digits 0 (b ∷ c ∷ bs)
