-- ===== src/Examples/Samples.antt =====
-- Small classes and graphs.
use object_introspection.Prelude.{ℕ, String, List, [], ◌∷◌, ◌++◌, false, pos}
use object_introspection.Types.{Ref, Member, Parent, Class, struct, class_node, typedef}
use object_introspection.Store.{TypeGraph, empty}

abbrev pub member : Ref → String → ℕ → Member
member type name offset = record {
  type = type;
  name = name;
  input_name = name;
  bit_offset = offset;
  bitsize = 0;
  align = 0;
}

abbrev pub plain_class : String → List Member → List Parent → ℕ → ℕ → Class
plain_class name members parents size id = record {
  template_params = [];
  parents = parents;
  members = members;
  functions = [];
  children = [];
  name = name;
  input_name = name;
  size = size;
  align = 0;
  kind = struct;
  virtuality = pos 0;
  id = id;
  packed = false;
}

-- struct { int8_t a; int32_t b; }
abbrev pub pair_class : Class
pair_class = plain_class "Pair" (member 0 "a" 0 ∷ member 2 "b" 32 ∷ []) [] 8 0

-- class Base { int32_t x; }; class Derived : Base { int64_t y; }; typedef Base Alias;
-- at the addresses 15, 16 and 17.
abbrev pub base : Class
base = plain_class "Base" (member 2 "x" 0 ∷ []) [] 4 0

abbrev pub derived : Class
derived =
    plain_class "Derived" (member 3 "y" 64 ∷ []) (record { type = 17; bit_offset = 0 } ∷ []) 16 1

abbrev pub family : TypeGraph
family = record {
  nodes =
      empty.nodes
      ++ (class_node base
          ∷ class_node derived
          ∷ typedef (record { name = "Alias"; input_name = "Alias"; underlying_type = 15; id = 2 })
          ∷ []);
  root_types = 16 ∷ [];
  final_types = [];
  next_id = 3;
}
