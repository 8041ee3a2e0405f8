-- ===== src/Explain/Model/Ranges.antt =====
-- The ranges of index bounds as `IndexBoundRange::parse` of src/serve/explain/model/plan_details.rs
-- reads them back from the text that the server prints.
use mongod_proxy.Explain.Model.Trim.{trim-plain, IsPlain}
use mongod_proxy.Uri.Text.{strip_prefix, split_once}
use mongod_proxy.Bytes.Defs.{eq_bytes, Bytes}
use mongod_proxy.Explain.Model.Text.{trim}
use mongod_proxy.Prelude.{
  out_of_fuel, take-append_length, ◌-◌, length-append, ◌∙◌, le→leb, length, ap, arith, leb, suc,
  true, ◌==◌, All, ◌++◌, ◌≡◌, ◌≢◌, ℕ, ◌∷◌, ok, [], none, some, false, refl,
}
use mongod_proxy.Bytes.Text.{ascii}
use mongod_proxy.Explain.Model.Details.{
  separated, parse_trimmed, last_byte, opening, bound_value, parse_range, IndexBoundRange, inside,
  closing, Inclusivity, inf, neg_inf, min_key, max_key, literal, inclusive, exclusive, BoundValue,
}

abbrev pub render_bound : BoundValue → Bytes
render_bound inf = ascii "inf"
render_bound neg_inf = ascii "-inf"
render_bound min_key = ascii "MinKey"
render_bound max_key = ascii "MaxKey"
render_bound (literal s) = s

abbrev open_byte : Inclusivity → ℕ
open_byte inclusive = 91
open_byte exclusive = 40

abbrev close_byte : Inclusivity → ℕ
close_byte inclusive = 93
close_byte exclusive = 41

-- The way that the server prints a range.
abbrev pub render_range : IndexBoundRange → Bytes
render_range r =
    open_byte r.lower_inclusivity
    ∷ ((render_bound r.lower ++ (44 ∷ 32 ∷ render_bound r.upper))
        ++ (close_byte r.upper_inclusivity ∷ []))

-- A literal that no trimming changes, and that no sentinel is spelled like.
abbrev pub IsBound : BoundValue → Type 0
IsBound (literal s) =
    (trim s ≡ s)
    × (eq_bytes s (ascii "inf") ≡ false)
    × (eq_bytes s (ascii "-inf") ≡ false)
    × (eq_bytes s (ascii "MinKey") ≡ false)
    × (eq_bytes s (ascii "MaxKey") ≡ false)
IsBound inf = Unit
IsBound neg_inf = Unit
IsBound min_key = Unit
IsBound max_key = Unit

bound_value-render_bound : (b : BoundValue) → IsBound b → bound_value (render_bound b) ≡ b
unfolding bound_value eq_bytes
bound_value-render_bound inf h = refl
bound_value-render_bound neg_inf h = refl
bound_value-render_bound min_key h = refl
bound_value-render_bound max_key h = refl
bound_value-render_bound (literal s) h = rw (h.0, h.1, h.2, h.3, h.4) refl

-- No comma.
abbrev pub NoComma : Bytes → Type 0
NoComma s = All (λ (b : ℕ). (44 == b) ≡ false) s

strip_prefix-comma :
    (b : ℕ) (s : Bytes) → (44 == b) ≡ false → strip_prefix (ascii ", ") (b ∷ s) ≡ none
unfolding strip_prefix
strip_prefix-comma b s h = rw (h) refl

split_once-comma :
    (lo hi : Bytes) → NoComma lo → split_once (ascii ", ") (lo ++ (44 ∷ 32 ∷ hi)) ≡ some (lo, hi)
unfolding split_once
split_once-comma [] hi h = refl
split_once-comma (b ∷ lo) hi (h, hs) =
    rw (split_once, strip_prefix-comma b (lo ++ (44 ∷ 32 ∷ hi)) h, split_once-comma lo hi hs) refl

last_byte-append : (a : ℕ) (s : Bytes) (c : ℕ) → last_byte a (s ++ (c ∷ [])) ≡ c
last_byte-append a [] c = refl
last_byte-append a (b ∷ s) c = last_byte-append b s c

inside-render : (o c : ℕ) (s : Bytes) → inside (o ∷ (s ++ (c ∷ []))) ≡ some s
unfolding inside
inside-render o c s =
    let long : leb 2 (suc (length (s ++ (c ∷ [])))) ≡ true =
      le→leb 2 _ (omega (arith, length-append {0} s (c ∷ []))) in
    let cut : suc (length (s ++ (c ∷ []))) - 1 ≡ suc (length s) =
      omega (arith, length-append {0} s (c ∷ [])) in
    rw (long, cut, take-append_length s (c ∷ [])) refl

opening-open_byte : (i : Inclusivity) → opening (open_byte i) ≡ some i
unfolding opening
opening-open_byte inclusive = refl
opening-open_byte exclusive = refl

closing-close_byte : (i : Inclusivity) → closing (close_byte i) ≡ some i
unfolding closing
closing-close_byte inclusive = refl
closing-close_byte exclusive = refl

open_byte-IsPlain : (i : Inclusivity) → IsPlain (open_byte i)
open_byte-IsPlain inclusive = omega arith
open_byte-IsPlain exclusive = omega arith

close_byte-IsPlain : (i : Inclusivity) → IsPlain (close_byte i)
close_byte-IsPlain inclusive = omega arith
close_byte-IsPlain exclusive = omega arith

-- Two bounds around a separator, between the characters of a range.
parse_trimmed-parts :
    (i j : Inclusivity) (body lo hi : Bytes)
    → separated body ≡ some (lo, hi)
    → parse_trimmed (open_byte i ∷ (body ++ (close_byte j ∷ [])))
      ≡ some (
          ok (record {
            lower = bound_value lo;
            lower_inclusivity = i;
            upper = bound_value hi;
            upper_inclusivity = j;
          }))
unfolding parse_trimmed
parse_trimmed-parts i j body lo hi e =
    rw
      (
        parse_trimmed,
        opening-open_byte i,
        last_byte-append (open_byte i) body (close_byte j),
        closing-close_byte j,
        inside-render (open_byte i) (close_byte j) body,
        e,
      )
      refl

separated-render : (lo hi : Bytes) → NoComma lo → separated (lo ++ (44 ∷ 32 ∷ hi)) ≡ some (lo, hi)
unfolding separated
separated-render lo hi h = rw (separated, split_once-comma lo hi h) refl

-- A range that is printed parses back to itself, when its bounds are sentinels or texts that
-- trimming leaves alone and no sentinel is spelled like, and the lower one has no comma.
pub parse_range-render_range :
    (r : IndexBoundRange)
    → IsBound r.lower
    → IsBound r.upper
    → NoComma (render_bound r.lower)
    → parse_range (render_range r) ≡ some (ok r)
unfolding parse_range
parse_range-render_range r lower upper plain =
    ap parse_trimmed (
      trim-plain (open_byte r.lower_inclusivity) (close_byte r.upper_inclusivity)
        (render_bound r.lower ++ (44 ∷ 32 ∷ render_bound r.upper))
        (open_byte-IsPlain r.lower_inclusivity) (close_byte-IsPlain r.upper_inclusivity))
    ∙ (parse_trimmed-parts r.lower_inclusivity r.upper_inclusivity
          (render_bound r.lower ++ (44 ∷ 32 ∷ render_bound r.upper)) (render_bound r.lower)
          (render_bound r.upper)
          (separated-render (render_bound r.lower) (render_bound r.upper) plain)
        ∙ λ k. some (
            ok (record {
              lower = bound_value-render_bound r.lower lower k;
              lower_inclusivity = r.lower_inclusivity;
              upper = bound_value-render_bound r.upper upper k;
              upper_inclusivity = r.upper_inclusivity;
            })))

opening-closing : (c : ℕ) (i : Inclusivity) → opening c ≡ some i → closing c ≡ none
unfolding opening closing
opening-closing c i e = ground arith

parse_trimmed-ne-none : (s : Bytes) → parse_trimmed s ≢ none
unfolding parse_trimmed
parse_trimmed-ne-none [] e = cc
parse_trimmed-ne-none (first ∷ []) e =
    ground (arith, opening-closing first inclusive, opening-closing first exclusive)
parse_trimmed-ne-none (first ∷ b ∷ chars) e = ground arith

-- Parsing a range never reaches the slice of a text that is too short for it.
parse_trimmed-ne-out_of_fuel : (s : Bytes) → parse_trimmed s ≢ some out_of_fuel
unfolding parse_trimmed
parse_trimmed-ne-out_of_fuel [] e = cc
parse_trimmed-ne-out_of_fuel (first ∷ chars) e = ground arith

pub parse_range-ne-none : (s : Bytes) → parse_range s ≢ none
unfolding parse_range
parse_range-ne-none s = parse_trimmed-ne-none (trim s)

-- No loop of it runs on fuel.
pub parse_range-ne-out_of_fuel : (s : Bytes) → parse_range s ≢ some out_of_fuel
unfolding parse_range
parse_range-ne-out_of_fuel s = parse_trimmed-ne-out_of_fuel (trim s)
