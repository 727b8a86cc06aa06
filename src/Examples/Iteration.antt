-- ===== src/Examples/Iteration.antt =====
-- A segment with a vector of two numbers: its length, and the numbers.
use object_introspection.Prelude.{
  ℕ, ◌≡◌, refl, List, [], ◌∷◌, none, ok, err, aborted, true, false, String, arith, ◌>>=◌, to_string,
}
use object_introspection.Wire.{var_int}
use object_introspection.Wire.Varint
use object_introspection.Wire.Parsed.{parsed_int, parse}
use object_introspection.Results.{Element, no_data, scalar}
use object_introspection.Results.Iterator.{Field, Handler, field, repeat, cbegin, elements}
use object_introspection.Results.Iterator.Walk.{Walked, walk}
use object_introspection.Results.Iterator.Loop.{elements-walk, read_out}

-- The processors of the vector and of its items.
abbrev repeat_items : Handler
repeat_items e (parsed_int n) bytes = ok (e, repeat n 1 ∷ [], bytes)
repeat_items e _ bytes = err aborted

abbrev show_item : Handler
show_item e (parsed_int n) bytes = ok (record e { payload = scalar n }, [], bytes)
show_item e _ bytes = err aborted

abbrev vector_table : List Field
vector_table =
    record {
      static_size = 24;
      exclusive_size = 24;
      name = "v";
      type_names = [];
      fields = [];
      processors = (var_int, repeat_items) ∷ [];
      is_primitive = false;
    }
    ∷ record {
      static_size = 8;
      exclusive_size = 8;
      name = "item";
      type_names = [];
      fields = [];
      processors = (var_int, show_item) ∷ [];
      is_primitive = true;
    }
    ∷ []

-- The text of a pointer, which no element here has.
abbrev no_pointer : ℕ → String
no_pointer p = ""

abbrev item : ℕ → String → Element
item n name = record {
  name = name;
  type_path = "v" ∷ name ∷ [];
  type_names = [];
  static_size = 8;
  exclusive_size = 8;
  pointer = none;
  payload = scalar n;
  container_stats = none;
  is_set_stats = none;
  is_primitive = true;
}

abbrev vector_walk : Walked vector_table no_pointer
vector_walk = record {
  elements =
      record {
        name = "v";
        type_path = "v" ∷ [];
        type_names = [];
        static_size = 24;
        exclusive_size = 24;
        pointer = none;
        payload = no_data;
        container_stats = none;
        is_set_stats = none;
        is_primitive = false;
      }
      ∷ item 5 "[5]"
      ∷ item 7 "[7]"
      ∷ [];
  rest = [];
  work = 9;
}

walk_vector : walk vector_table no_pointer 9 (field 0 ∷ []) [] (2 ∷ 5 ∷ 7 ∷ []) ≡ ok vector_walk
unfolding walk parse Varint.parse_varint to_string
walk_vector = refl

elements-walk_example :
    (cbegin vector_table no_pointer 10 (2 ∷ 5 ∷ 7 ∷ []) (field 0)
      >>= elements vector_table no_pointer 10 4)
    ≡ read_out vector_table no_pointer [] vector_walk.elements
elements-walk_example =
    elements-walk vector_table no_pointer 9 (field 0) (2 ∷ 5 ∷ 7 ∷ []) vector_walk walk_vector 10 4
      (omega arith) (omega arith) (omega arith)
