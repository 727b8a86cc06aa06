-- ===== src/Examples/Segments.antt =====
-- Data segments of small values.
use object_introspection.Prelude.{
  ◌≡◌, refl, ◌<◌, ◌≤◌, [], ◌∷◌, ◌++◌, ok, err, runtime_error, bad_sum_index, arith, All, length,
}
use object_introspection.Wire.{
  Dynamic, unit, var_int, pair, sum, list, nil, cons, Value, unit_value, int_value, pair_value,
  sum_value, list_value, none_left, next, Typed, typed_unit, typed_int, typed_pair, typed_sum,
  typed_list, each_none, each_next, length_values,
}
use object_introspection.Wire.Varint.{write, parse_varint}
use object_introspection.Wire.Varint.RoundTrip.{parse_varint-write, write_bounds}
use object_introspection.Wire.Parsed.{read_all, write_value, depth}
use object_introspection.Wire.Parsed.RoundTrip.{read_all-write_value}
use object_introspection.Wire.Walker.{
  drain, start, var_int_element, sum_index, list_length, advance,
}
use object_introspection.Wire.Walker.Trace.{words, trace, weight, drain-words}

parse_varint-write_example : parse_varint (write 300 ++ (7 ∷ [])) ≡ ok (300, 7 ∷ [])
parse_varint-write_example = parse_varint-write 300 (7 ∷ []) (omega arith)

write_300 : write 300 ≡ 172 ∷ 2 ∷ []
unfolding write
write_300 = refl

write_bounds_example :
    All (λ b. b < 256) (write 300) × (length (write 300) ≤ 10) × (0 < length (write 300))
write_bounds_example = write_bounds 300 (omega arith)

-- Pair<VarInt, List<Sum<Unit, VarInt>>> with the value (5, [null, 300]).
abbrev shape : Dynamic
shape = pair var_int (list (sum (cons unit (cons var_int nil))))

abbrev value : Value
value =
    pair_value (int_value 5)
      (list_value (next (sum_value 0 unit_value) (next (sum_value 1 (int_value 300)) none_left)))

value-Typed : Typed value shape
unfolding length_values
value-Typed = typed_pair (typed_int 5 (omega arith)) (
    typed_list (omega arith) (
      each_next (typed_sum _ 0 (omega arith) refl typed_unit)
        (each_next (typed_sum _ 1 (omega arith) refl (typed_int 300 (omega arith))) (each_none _))))

value_bytes : write_value value ≡ 5 ∷ 2 ∷ 0 ∷ 1 ∷ 172 ∷ 2 ∷ []
unfolding write_value write length_values
value_bytes = refl

read_all-write_value_example : read_all 4 shape (write_value value ++ (9 ∷ [])) ≡ ok (value, 9 ∷ [])
unfolding depth
read_all-write_value_example = read_all-write_value value shape 4 (9 ∷ []) value-Typed (omega arith)

value_trace :
    trace value
    ≡ var_int_element 5 ∷ list_length 2 ∷ sum_index 0 ∷ sum_index 1 ∷ var_int_element 300 ∷ []
unfolding trace length_values
value_trace = refl

drain-words_example : drain 12 (start shape (words value ++ (9 ∷ []))) ≡ ok (trace value, 9 ∷ [])
unfolding weight
drain-words_example = drain-words value shape 12 (9 ∷ []) value-Typed (omega arith)

-- A segment that ends early, and an index that the type does not have.
short_segment : advance 3 (start var_int []) ≡ err (runtime_error "unexpected end of data segment")
unfolding advance
short_segment = refl

bad_index : advance 3 (start (sum (cons unit nil)) (1 ∷ [])) ≡ err (bad_sum_index 1 1)
unfolding advance
bad_index = refl
