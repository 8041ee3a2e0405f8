-- ===== src/Examples/Bounded.antt =====
-- Index bounds and key patterns as the engines print them, for
-- src/serve/explain/model/plan_details.rs.
use mongod_proxy.Explain.Model.Express.{parse_express_string}
use mongod_proxy.Explain.Model.Bounds.{index_bounds-IsDecoded, IsDecoded}
use mongod_proxy.Bytes.Defs.{Bytes}
use mongod_proxy.Bytes.Text.{ascii}
use mongod_proxy.Explain.Model.Details.{
  ascending, descending, inclusive, inf, exclusive, literal, bounds_document, IndexBounds,
}
use mongod_proxy.Explain.Model.Decode.{document, array, string, index_bounds, Values, Kind}
use mongod_proxy.Prelude.{some, ◌≡◌, ℕ, List, ◌∷◌, ok, [], none, false, refl}

-- Values of three cases, with nothing but texts inside.
data Printed : Type 0 where
  line : Bytes → Printed
  lines : List Bytes → Printed
  table : List (Bytes × List Bytes) → Printed

abbrev lines_of : List Bytes → List Printed
lines_of [] = []
lines_of (s ∷ ss) = line s ∷ lines_of ss

abbrev fields_of : List (Bytes × List Bytes) → List (Bytes × Printed)
fields_of [] = []
fields_of ((k, ss) ∷ rows) = (k, lines ss) ∷ fields_of rows

abbrev kind_of_printed : Printed → Kind Printed ℕ
kind_of_printed (line s) = string s
kind_of_printed (lines ss) = array (lines_of ss)
kind_of_printed (table rows) = document (fields_of rows)

abbrev printed : Values
printed = record {
  Value = Printed;
  Double = ℕ;
  ElementType = ℕ;
  kind = kind_of_printed;
  element_type = λ v. 0;
  near = λ f n. false;
  parse_f64 = λ s. none;
  to_lowercase = λ s. s;
}

-- `{ b: ["[1, 2]"], a: ["(3, inf]"] }`, whose fields are not in the order of their names.
abbrev printed_bounds : Printed
printed_bounds = table ((98 ∷ [], ascii "[1, 2]" ∷ []) ∷ (97 ∷ [], ascii "(3, inf]" ∷ []) ∷ [])

abbrev read_bounds : IndexBounds
read_bounds = bounds_document (
    (
      97 ∷ [],
      record {
        lower = literal (51 ∷ []);
        lower_inclusivity = exclusive;
        upper = inf;
        upper_inclusivity = inclusive;
      }
          ∷ [],
    )
    ∷ (
      98 ∷ [],
      record {
        lower = literal (49 ∷ []);
        lower_inclusivity = inclusive;
        upper = literal (50 ∷ []);
        upper_inclusivity = inclusive;
      }
          ∷ [],
    )
    ∷ [])

printed_bounds-read : index_bounds printed printed_bounds ≡ ok read_bounds
unfolding index_bounds
printed_bounds-read = refl

index_bounds-IsDecoded_example :
    IsDecoded printed printed_bounds (index_bounds printed printed_bounds)
index_bounds-IsDecoded_example = index_bounds-IsDecoded printed printed_bounds

-- `{ year: -1, title: 1 }`, as the Express engine prints a key pattern.
parse_express_string_compound :
    parse_express_string printed (ascii "{ year: -1, title: 1 }")
    ≡ some (
        record { field = ascii "year"; kind = descending }
        ∷ record { field = ascii "title"; kind = ascending }
        ∷ [])
unfolding parse_express_string mathlib.Core.Option.bind
parse_express_string_compound = refl
