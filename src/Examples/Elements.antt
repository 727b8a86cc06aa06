-- ===== src/Examples/Elements.antt =====
-- A result of three elements: a pair and its two members, one of them a vector of 10 bytes.
use object_introspection.Prelude.{
  ℕ, ◌≡◌, refl, List, [], ◌∷◌, ◌++◌, none, some, ok, false, String, arith,
}
use object_introspection.Results.{Element, no_data}
use object_introspection.Results.Sized.{SizedElement, sized_result}
use object_introspection.Results.Sized.Sizes.{sizes_of, sized_result-eq}
use object_introspection.Results.Csv.{Csv, print, print_header, escape_field, escape_quotes, quote}
use object_introspection.Results.Csv.Parents.{Leaves, rows, print-rows}
use object_introspection.Results.Csv.Fields.{
  read_rfc_field, read_rfc_field-escape_field, escape_quotes_not_rfc,
}

abbrev pub element : String → List String → ℕ → Element
element name path size = record {
  name = name;
  type_path = path;
  type_names = [];
  static_size = size;
  exclusive_size = size;
  pointer = none;
  payload = no_data;
  container_stats = none;
  is_set_stats = none;
  is_primitive = false;
}

abbrev three : List Element
three =
    element "a" ("a" ∷ []) 4
    ∷ element "b" ("a" ∷ "b" ∷ []) 24
    ∷ element "c" ("a" ∷ "b" ∷ "c" ∷ []) 10
    ∷ element "d" ("a" ∷ "d" ∷ []) 8
    ∷ []

abbrev sized : ℕ → Element → SizedElement
sized size e = record { inner = e; size = size }

three_sizes :
    sized_result 6 three
    ≡ ok (
        sized 46 (element "a" ("a" ∷ []) 4)
        ∷ sized 34 (element "b" ("a" ∷ "b" ∷ []) 24)
        ∷ sized 10 (element "c" ("a" ∷ "b" ∷ "c" ∷ []) 10)
        ∷ sized 8 (element "d" ("a" ∷ "d" ∷ []) 8)
        ∷ [])
unfolding sized_result
three_sizes = refl

sized_result-eq_example : sized_result 6 three ≡ ok (sizes_of three)
sized_result-eq_example = sized_result-eq 6 three (omega arith)

-- Behind a first result of two elements.
abbrev second : Csv
second = record { id = 2; parent_id_stack = 2 ∷ 1 ∷ 0 ∷ [] }

print-rows_example :
    (s' : Csv) × (print three second ≡ ok (print_header ++ rows 2 three [], s'))
    × Leaves three 2 0 s'
print-rows_example = print-rows three second (2 ∷ 1 ∷ []) refl (omega arith) (omega arith)

-- The field `C:\` and a delimiter behind it.
read_rfc_field-escape_field_example :
    read_rfc_field (escape_field (b'C' ∷ b':' ∷ 92 ∷ []) ++ b',' ∷ [])
    ≡ some (b'C' ∷ b':' ∷ 92 ∷ [], b',' ∷ [])
read_rfc_field-escape_field_example =
    read_rfc_field-escape_field (b'C' ∷ b':' ∷ 92 ∷ []) (b',' ∷ []) (refl, (refl, (refl, tt))) refl

-- The field `a"b`.
escape_quotes_not_rfc_example :
    read_rfc_field (escape_field (b'a' ∷ quote ∷ b'b' ∷ []) ++ [])
    ≡ some (b'a' ∷ 92 ∷ [], b'b' ∷ (escape_quotes [] ++ quote ∷ []))
escape_quotes_not_rfc_example = escape_quotes_not_rfc (b'a' ∷ []) [] [] b'b' (refl, tt) refl
