-- ===== src/Wire/Parsed.antt =====
-- oi/exporters/ParsedData.cpp and include/oi/exporters/ParsedData.h: lazy parsing of a data segment
-- along its dynamic type, and the writer of include/oi/types/st.h that it reads.
pub mod RoundTrip
use object_introspection.Prelude.{
  ℕ, zero, suc, List, [], ◌∷◌, ◌++◌, Option, none, some, Outcome, ok, err, aborted, dangling,
  out_of_fuel, ◌>>=◌, if◌then◌else◌, ltb, max, ◌+◌,
}
use object_introspection.Wire.{
  Dynamic, unit, var_int, pair, sum, list, Variants, nil, cons, variant, variants_size, Value,
  unit_value, int_value, pair_value, sum_value, list_value, Values, none_left, next, length_values,
}
use object_introspection.Wire.Varint.{write, parse_varint}

-- `ParsedData::Lazy`. Its iterator is a reference to the one that all of a segment share, which the
-- functions below pass on.
pub record Lazy : Type 0 where
  pub type : Dynamic

pub data ParsedData : Type 0 where
  parsed_unit : ParsedData
  parsed_int : ℕ → ParsedData
  parsed_pair : Lazy → Lazy → ParsedData
  parsed_list : ℕ → Lazy → ParsedData
  parsed_sum : ℕ → Lazy → ParsedData

-- The choice of a variant: `assert(index < ty.variants.size())`, then `ty.variants[index]`.
abbrev pub parse_sum : Variants → ℕ → List ℕ → Outcome (ParsedData × List ℕ)
parse_sum ts i bytes = elim (variant ts i) [
  | none ↦ err aborted
  | some t ↦ ok (parsed_sum i (record { type = t }), bytes)
]

-- `ParsedData::parse`: one node; what lies below is parsed when its `Lazy` is called.
unfoldable pub parse : Dynamic → List ℕ → Outcome (ParsedData × List ℕ)
parse unit bytes = ok (parsed_unit, bytes)
parse var_int bytes = parse_varint bytes >>= λ (n, rest). ok (parsed_int n, rest)
parse (pair s t) bytes = ok (parsed_pair (record { type = s }) (record { type = t }), bytes)
parse (list t) bytes =
    parse_varint bytes >>= λ (n, rest). ok (parsed_list n (record { type = t }), rest)
parse (sum ts) bytes = parse_varint bytes >>= λ (i, rest). parse_sum ts i rest

-- `Lazy::operator()`.
unfoldable pub call : Lazy → List ℕ → Outcome (ParsedData × List ℕ)
unfolding parse
call lazy bytes = parse lazy.type bytes

unfoldable mutual
  -- What the writers of st.h put out for a value: `Pair::write`, `Sum::write`, `List`.
  pub write_value : Value → List ℕ
  write_value unit_value = []
  write_value (int_value n) = write n
  write_value (pair_value v w) = write_value v ++ write_value w
  write_value (sum_value i v) = write i ++ write_value v
  write_value (list_value vs) = write (length_values vs) ++ write_values vs

  -- `ListContents::delegate`, once for each element.
  pub write_values : Values → List ℕ
  write_values none_left = []
  write_values (next v vs) = write_value v ++ write_values vs

-- A reader that calls every `Lazy` in order, as the exporters do: it reads `n` elements.
abbrev pub read_each :
    (Dynamic → List ℕ → Outcome (Value × List ℕ)) → Dynamic → ℕ → List ℕ → Outcome (Values × List ℕ)
read_each read t zero bytes = ok (none_left, bytes)
read_each read t (suc n) bytes =
    read t bytes >>= λ (v, rest). read_each read t n rest >>= λ (vs, rest'). ok (next v vs, rest')

abbrev pub read_node :
    (Dynamic → List ℕ → Outcome (Value × List ℕ)) → ParsedData → List ℕ → Outcome (Value × List ℕ)
read_node read parsed_unit bytes = ok (unit_value, bytes)
read_node read (parsed_int n) bytes = ok (int_value n, bytes)
read_node read (parsed_pair s t) bytes =
    read s.type bytes >>= λ (v, rest). read t.type rest >>= λ (w, rest'). ok (pair_value v w, rest')
read_node read (parsed_list n t) bytes =
    read_each read t.type n bytes >>= λ (vs, rest). ok (list_value vs, rest)
read_node read (parsed_sum i t) bytes = read t.type bytes >>= λ (v, rest). ok (sum_value i v, rest)

-- Fuel bounds how deep the type is.
unfoldable pub read_all : ℕ → Dynamic → List ℕ → Outcome (Value × List ℕ)
unfolding call
read_all zero t bytes = out_of_fuel
read_all (suc f) t bytes =
    call (record { type = t }) bytes >>= λ (d, rest). read_node (read_all f) d rest

unfoldable mutual
  pub depth : Dynamic → ℕ
  depth unit = 0
  depth var_int = 0
  depth (pair s t) = suc (max (depth s) (depth t))
  depth (sum ts) = suc (depth_variants ts)
  depth (list t) = suc (depth t)

  pub depth_variants : Variants → ℕ
  depth_variants nil = 0
  depth_variants (cons t ts) = max (depth t) (depth_variants ts)
