-- ===== src/Results/Csv.antt =====
-- include/oi/exporters/CSV.h and oi/exporters/CSV.cpp: a result as a table, one row for each element.
-- A text is the list of its bytes.
pub mod Parents
pub mod Fields
use object_introspection.Prelude.{
  ℕ, zero, suc, ◌+◌, List, [], ◌∷◌, ◌++◌, map, Option, none, some, Bool, true, false, Outcome, ok,
  err, dangling, ◌>>=◌, if◌then◌else◌, ltb, ◌==◌, length, add_u64, String, codes, to_string,
}
use object_introspection.Results.{Element, ContainerStats}

abbrev pub crlf : List ℕ
crlf = 13 ∷ 10 ∷ []

abbrev pub delimiter : List ℕ
delimiter = b',' ∷ []

abbrev pub quote : ℕ
quote = 34

abbrev pub escaped_quote : List ℕ
escaped_quote = 92 ∷ 34 ∷ []

abbrev pub list_delimiter : List ℕ
list_delimiter = b';' ∷ []

abbrev pub columns : List String
columns =
    "id" ∷ "name" ∷ "typePath" ∷ "typeNames" ∷ "staticSize" ∷ "exclusiveSize" ∷ "pointer" ∷ "length"
    ∷ "capacity" ∷ "is_set" ∷ "parent_id" ∷ []

-- Items with a delimiter between them.
unfoldable pub joined : List ℕ → List (List ℕ) → List ℕ
joined d [] = []
joined d (x ∷ []) = x
joined d (x ∷ y ∷ xs) = x ++ d ++ joined d (y ∷ xs)

-- The loop of `escapeField(std::string)`: every quote from the current position on is replaced.
unfoldable pub escape_quotes : List ℕ → List ℕ
escape_quotes [] = []
escape_quotes (c ∷ cs) =
    let rest = escape_quotes cs in if c == quote then escaped_quote ++ rest else c ∷ rest

unfoldable pub escape_field : List ℕ → List ℕ
unfolding escape_quotes
escape_field field = quote ∷ (escape_quotes field ++ quote ∷ [])

-- `escapeField(const Seq&)`.
unfoldable pub escape_list : List String → List ℕ
unfolding escape_field joined
escape_list seq = escape_field (joined list_delimiter (map codes seq))

abbrev pub decimal_codes : ℕ → List ℕ
decimal_codes n = codes (to_string n)

unfoldable pub print_header : List ℕ
unfolding joined
print_header = joined delimiter (map codes columns) ++ crlf

-- `id_` and `parentIdStack_`, whose top is the head.
pub record Csv : Type 0 where
  pub id : ℕ
  pub parent_id_stack : List ℕ

abbrev pub new_csv : Csv
new_csv = record { id = 0; parent_id_stack = 0 ∷ [] }

-- `parentIdStack_.resize(1)`: the bottom stays.
unfoldable pub resize_one : List ℕ → List ℕ
resize_one [] = 0 ∷ []
resize_one (x ∷ []) = x ∷ []
resize_one (x ∷ y ∷ xs) = resize_one (y ∷ xs)

-- `while (parentIdStack_.size() > it->type_path.size())`.
unfoldable pub pop_to : ℕ → List ℕ → List ℕ
pop_to depth [] = []
pop_to depth (x ∷ xs) =
    let rest = pop_to depth xs in if ltb depth (length (x ∷ xs)) then rest else x ∷ xs

abbrev pub optional_field : Option ℕ → List ℕ
optional_field none = delimiter
optional_field (some n) = decimal_codes n ++ delimiter

abbrev pub stats_fields : Option ContainerStats → List ℕ
stats_fields none = delimiter ++ delimiter
stats_fields (some s) = decimal_codes s.len ++ delimiter ++ decimal_codes s.capacity ++ delimiter

abbrev pub is_set_field : Option Bool → List ℕ
is_set_field none = delimiter
is_set_field (some true) = b'1' ∷ delimiter
is_set_field (some false) = b'0' ∷ delimiter

-- The text of a row, given the ids of the element and of its parent.
unfoldable pub row : ℕ → Element → ℕ → List ℕ
unfolding escape_field escape_list
row id e parent =
    decimal_codes id
    ++ delimiter
    ++ escape_field (codes e.name)
    ++ delimiter
    ++ escape_list e.type_path
    ++ delimiter
    ++ escape_list e.type_names
    ++ delimiter
    ++ decimal_codes e.static_size
    ++ delimiter
    ++ decimal_codes e.exclusive_size
    ++ delimiter
    ++ optional_field e.pointer
    ++ stats_fields e.container_stats
    ++ is_set_field e.is_set_stats
    ++ decimal_codes parent
    ++ crlf

-- The body of the loop: `back()` of an empty vector is undefined.
unfoldable pub print_element : Element → Csv → Outcome (List ℕ × Csv)
unfolding pop_to row
print_element e s =
    let id = add_u64 s.id 1 in
    elim (pop_to (length e.type_path) s.parent_id_stack) [
      | [] ↦ err dangling
      | parent ∷ up ↦ ok (row id e parent, record { id = id; parent_id_stack = id ∷ parent ∷ up })
    ]

unfoldable pub print_elements : List Element → Csv → Outcome (List ℕ × Csv)
unfolding print_element
print_elements [] s = ok ([], s)
print_elements (e ∷ es) s =
    print_element e s >>= λ (t, s'). print_elements es s' >>= λ (ts, s''). ok (t ++ ts, s'')

unfoldable pub print : List Element → Csv → Outcome (List ℕ × Csv)
unfolding print_header resize_one print_elements
print es s =
    print_elements es (record s { parent_id_stack = resize_one s.parent_id_stack }) >>= λ (t, s').
    ok (print_header ++ t, s')
