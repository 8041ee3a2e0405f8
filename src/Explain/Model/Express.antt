-- ===== src/Explain/Model/Express.antt =====
-- `KeyPattern::parse_express_string` of src/serve/explain/model/plan_details.rs. The operations of
-- `str` and the parser of `i64` are written out as the standard library documents them.
use mongod_proxy.Uri.Text.{split, split_once, strip_prefix}
use mongod_proxy.Explain.Model.Details.{KeyPatternField, IndexFieldKind}
use mongod_proxy.Explain.Model.Text.{trim}
use mongod_proxy.Bytes.Defs.{Bytes}
use mongod_proxy.Prelude.{
  ◌-◌, ◌^◌, ◌+◌, leb, ◌||◌, ◌&&◌, ◌*◌, ℤ, Option, if◌then◌else◌, ◌==◌, List, Bool, ℕ, ◌∷◌, negsuc,
  pos, [], none, some, suc, zero, false, true,
}
use mathlib.Core.Option
use mongod_proxy.Bytes.Text.{ascii}
use mongod_proxy.Explain.Model.Decode.{kind_of, Values, int64, double, string}

-- What is in front of a last character, if the text ends in it.
unfoldable pub strip_last : ℕ → Bytes → Option Bytes
strip_last c [] = none
strip_last c (b ∷ []) = if b == c then some [] else none
strip_last c (b ∷ d ∷ s) = Option.map (λ front. b ∷ front) (strip_last c (d ∷ s))

abbrev is_quote : ℕ → Bool
is_quote c = c == 34 || c == 39

abbrev is_empty : Bytes → Bool
is_empty [] = true
is_empty (b ∷ s) = false

unfoldable pub skip_quotes : Bytes → Bytes
skip_quotes [] = []
skip_quotes (b ∷ s) = let rest = skip_quotes s in if is_quote b then rest else b ∷ s

unfoldable pub drop_quotes : Bytes → Bytes
drop_quotes [] = []
drop_quotes (b ∷ s) =
    let rest = drop_quotes s in if is_quote b && is_empty rest then [] else b ∷ rest

-- `trim_matches(|c| c == '"' || c == '\'')`.
unfoldable pub unquoted : Bytes → Bytes
unfolding skip_quotes drop_quotes
unquoted s = drop_quotes (skip_quotes s)

unfoldable pub decimal : ℕ → Bytes → Option ℕ
decimal acc [] = some acc
decimal acc (b ∷ s) =
    let rest = decimal (acc * 10 + (b - 48)) s in if leb 48 b && leb b 57 then rest else none

abbrev negated : ℕ → ℤ
negated zero = pos 0
negated (suc n) = negsuc n

abbrev in_i64 : Bool → ℕ → Option ℤ
in_i64 true n = if leb n (2 ^ 63) then some (negated n) else none
in_i64 false n = if leb n (2 ^ 63 - 1) then some (pos n) else none

-- One digit at least, behind a sign.
unfoldable pub digits : Bool → Bytes → Option ℤ
unfolding decimal
digits negative [] = none
digits negative (b ∷ s) = elim (decimal 0 (b ∷ s)) [ none ↦ none | some n ↦ in_i64 negative n ]

unfoldable pub parse_i64 : Bytes → Option ℤ
unfolding digits
parse_i64 [] = none
parse_i64 (b ∷ s) =
    if b == 45 then digits true s else if b == 43 then digits false s else digits false (b ∷ s)

module _ (values : Values) where
  open values use {Value, Double}

  unfoldable pub express_kind : Bytes → Option IndexFieldKind
  unfolding kind_of parse_i64 unquoted
  express_kind v = elim (parse_i64 v) [
    | some n ↦ kind_of values (int64 n)
    | none ↦ elim (values.parse_f64 v) [
      | some f ↦ kind_of values (double f)
      | none ↦ kind_of values (string (unquoted v))
    ]
  ]

  unfoldable pub express_field : Bytes → Option KeyPatternField
  unfolding express_kind trim split_once unquoted
  express_field part = elim (split_once (ascii ":") (trim part)) [
    | none ↦ none
    | some (k, v) ↦
        Option.map (λ kind. record { field = unquoted (trim k); kind = kind })
          (express_kind (trim v))
  ]

  unfoldable pub express_fields : List Bytes → Option (List KeyPatternField)
  unfolding express_field
  express_fields [] = some []
  express_fields (part ∷ parts) =
      Option.bind (express_field part)
        (λ field. Option.map (λ fields. field ∷ fields) (express_fields parts))

  unfoldable pub parse_express_string : Bytes → Option (List KeyPatternField)
  unfolding express_fields trim strip_prefix strip_last split
  parse_express_string s = Option.bind (strip_prefix (ascii "{") (trim s)) (λ inner.
      Option.bind (strip_last 125 inner)
        (λ body. let (first, others) = split 44 (trim body) in express_fields (first ∷ others)))
