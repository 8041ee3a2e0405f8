-- ===== src/Explain/Model/Details.antt =====
-- What a plan stage carries of its index and its filter: src/serve/explain/model/plan_details.rs.
use mongod_proxy.Bytes.Text.{ascii}
use mongod_proxy.Explain.Model.OpenVocab.{from_arms}
use mongod_proxy.Explain.Model.Text.{trim}
use mongod_proxy.Prelude.{
  ◌-◌, take, drop, length, ◌==◌, leb, if◌then◌else◌, Result, List, Option, ℕ, ◌∷◌, err, ok, [],
  none, some,
}
use mongod_proxy.Bytes.Defs.{Bytes}
use mongod_proxy.Uri.Text.{split_once}

pub data IndexFieldKind : Type 0 where
  ascending : IndexFieldKind
  descending : IndexFieldKind
  hashed : IndexFieldKind
  text : IndexFieldKind
  two_d_sphere : IndexFieldKind
  two_d : IndexFieldKind
  other_kind : Bytes → IndexFieldKind

pub record KeyPatternField : Type 0 where
  pub field : Bytes
  pub kind : IndexFieldKind

pub data KeyPattern : Type 0 where
  key_document : List KeyPatternField → KeyPattern
  express : Bytes → KeyPattern

pub data BoundValue : Type 0 where
  inf : BoundValue
  neg_inf : BoundValue
  min_key : BoundValue
  max_key : BoundValue
  literal : Bytes → BoundValue

unfoldable pub bound_value : Bytes → BoundValue
unfolding trim from_arms
bound_value s = from_arms (trim s) (literal (trim s)) (
    (ascii "inf", inf)
    ∷ (ascii "-inf", neg_inf)
    ∷ (ascii "MinKey", min_key)
    ∷ (ascii "MaxKey", max_key)
    ∷ [])

pub data Inclusivity : Type 0 where
  inclusive : Inclusivity
  exclusive : Inclusivity

pub record IndexBoundRange : Type 0 where
  pub lower : BoundValue
  pub lower_inclusivity : Inclusivity
  pub upper : BoundValue
  pub upper_inclusivity : Inclusivity

pub data IndexBoundsParseError : Type 0 where
  empty_bound : IndexBoundsParseError
  bad_open : Bytes → IndexBoundsParseError
  bad_close : Bytes → IndexBoundsParseError
  no_separator : Bytes → IndexBoundsParseError

-- The characters that open and close a range; a text in UTF-8 has them as single bytes.
unfoldable pub opening : ℕ → Option Inclusivity
opening c = if c == 91 then some inclusive else if c == 40 then some exclusive else none

unfoldable pub closing : ℕ → Option Inclusivity
closing c = if c == 93 then some inclusive else if c == 41 then some exclusive else none

-- `&s[1..s.len() - 1]`; none where the slice would panic, from 1 down to 0.
unfoldable pub inside : Bytes → Option Bytes
inside s = if leb 2 (length s) then some (drop 1 (take (length s - 1) s)) else none

unfoldable pub separated : Bytes → Option (Bytes × Bytes)
unfolding split_once
separated body = elim (split_once (ascii ", ") body) [
  | some halves ↦ some halves
  | none ↦ split_once (ascii ",") body
]

abbrev pub last_byte : ℕ → Bytes → ℕ
last_byte c [] = c
last_byte c (b ∷ bs) = last_byte b bs

-- `IndexBoundRange::parse` behind the trim; none for a panic.
unfoldable pub parse_trimmed : Bytes → Option (Result IndexBoundsParseError IndexBoundRange)
unfolding opening closing inside separated bound_value
parse_trimmed [] = some (err empty_bound)
parse_trimmed (first ∷ chars) = elim (opening first) [
  | none ↦ some (err (bad_open (first ∷ chars)))
  | some lower_inclusivity ↦ elim (closing (last_byte first chars)) [
    | none ↦ some (err (bad_close (first ∷ chars)))
    | some upper_inclusivity ↦ elim (inside (first ∷ chars)) [
      | none ↦ none
      | some body ↦ elim (separated body) [
        | none ↦ some (err (no_separator (first ∷ chars)))
        | some (lo, hi) ↦ some (
            ok (record {
              lower = bound_value lo;
              lower_inclusivity = lower_inclusivity;
              upper = bound_value hi;
              upper_inclusivity = upper_inclusivity;
            }))
      ]
    ]
  ]
]

unfoldable pub parse_range : Bytes → Option (Result IndexBoundsParseError IndexBoundRange)
unfolding parse_trimmed trim
parse_range s = parse_trimmed (trim s)

-- A `BTreeMap` by its entries.
pub data IndexBounds : Type 0 where
  bounds_document : List (Bytes × List IndexBoundRange) → IndexBounds
  raw_bounds : Bytes → IndexBounds

pub data Filter (Document : Type 0) : Type 0 where
  match_expression : Document → Filter Document
  sbe_expression : Bytes → Filter Document
