-- ===== src/Examples/Keys.antt =====
-- Capturing the keys of a map behind a typedef.
use object_introspection.Prelude.{◌≡◌, refl, ok, [], ◌∷◌, ◌++◌, none, some, false}
use object_introspection.Types.{
  Ref, Node, ContainerInfo, Container, Typedef, container, typedef, capture_keys, std_map_type,
}
use object_introspection.Store.{empty, deref}
use object_introspection.Tracker.{fresh}
use object_introspection.Layout.{strip_typedefs}
use object_introspection.KeyCapture.{Capturing, capture_key, capturing_info}
use object_introspection.KeyCapture.Marks.{Captures, capture_key-cases}

abbrev pub map_info : ContainerInfo
map_info = record {
  type_name = "std::map";
  num_template_params = some 2;
  ctype = std_map_type;
  header = "map";
  ns = [];
  replace_template_param_index = [];
  allocator_index = none;
  underlying_container_index = none;
  stub_template_params = 2 ∷ 3 ∷ [];
  capture_keys = false;
  required_features = 0;
  codegen = record {
    decl = "";
    func = "";
    traversal_func = "";
    extra = "";
    scoped_extra = "";
    processors = [];
  };
  matcher = λ name. false;
}

abbrev index_map : Container
index_map = record {
  template_params = [];
  container_info = map_info;
  underlying = none;
  name = "std::map";
  input_name = "std::map";
  size = 48;
  align = 8;
  id = 0;
}

abbrev index : Typedef
index = record { name = "Index"; input_name = "Index"; underlying_type = 15; id = 1 }

abbrev unmarked : Capturing
unmarked = record {
  tracker = fresh 2;
  graph = record empty { nodes = empty.nodes ++ (container index_map ∷ typedef index ∷ []) };
  infos = [];
}

abbrev with_mark : Capturing
with_mark = record unmarked {
  graph = record empty {
    nodes =
        empty.nodes
        ++ (container index_map
            ∷ typedef index
            ∷ capture_keys (record {
              underlying_type = 16;
              container_info = capturing_info map_info;
              name = "OICaptureKeys<Index>";
            })
            ∷ []);
  };
  infos = capturing_info map_info ∷ [];
}

capture_index : capture_key 3 16 unmarked ≡ ok (17, with_mark)
unfolding capture_key
capture_index = refl

capture_key-cases_example :
    (t : Ref) × (n : Node) × (strip_typedefs 3 unmarked.graph 16 ≡ ok t)
    × (deref unmarked.graph t ≡ some n)
    × Captures n 16 17 unmarked with_mark
capture_key-cases_example = capture_key-cases 3 16 17 unmarked with_mark capture_index
