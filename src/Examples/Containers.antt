-- ===== src/Examples/Containers.antt =====
-- A class with a vector of itself and a pointer to itself; the vector is a container.
use mathlib.Core.List.{Memᴰ}
use object_introspection.Prelude.{◌≡◌, refl, ok, List, [], ◌∷◌, ◌++◌, none, some, str_eq, false}
use object_introspection.Types.{
  Ref, Node, Class, Container, ContainerInfo, class_node, container, pointer,
}
use object_introspection.Store.{TypeGraph, empty, deref}
use object_introspection.Mutator.{Mutation}
use object_introspection.Tracker.{resized, get_result}
use object_introspection.IdentifyContainers.{find_info, identify_containers, mutate}
use object_introspection.IdentifyContainers.Lookups.{mutate-replaces}
use object_introspection.IdentifyContainers.Runs.{IsIdentified, HasFace}
use object_introspection.IdentifyContainers.Identified.{
  root, link, identify_containers-IsIdentified, fresh-IsReady,
}
use object_introspection.Examples.Keys.{map_info}
use object_introspection.Examples.Samples.{member, plain_class}

abbrev pub vector_info : ContainerInfo
vector_info = record map_info {
  type_name = "std::vector";
  header = "vector";
  matcher = λ name. str_eq name "vector";
}

abbrev node_class : Ref → Class
node_class children =
    plain_class "Node" (member children "children" 0 ∷ member 16 "next" 192 ∷ []) [] 32 0

abbrev vector_class : Class
vector_class = record (plain_class "vector" (member 16 "begin" 0 ∷ []) [] 24 2) {
  template_params = record { type = 15; value = none; qualifiers = record { const = false } } ∷ [];
}

abbrev nodes_of : Ref → List Node
nodes_of children =
    empty.nodes
    ++ (class_node (node_class children)
        ∷ pointer (record { pointee_type = 15; input_name = "Node *"; id = 1; name = "Node *" })
        ∷ class_node vector_class
        ∷ [])

abbrev pub before : TypeGraph
before = record empty { nodes = nodes_of 17; root_types = 15 ∷ []; next_id = 3 }

abbrev vector : Container
vector = record {
  template_params = vector_class.template_params;
  container_info = vector_info;
  underlying = some 17;
  name = "std::vector";
  input_name = "std::vector";
  size = 24;
  align = 0;
  id = 3;
}

abbrev after : TypeGraph
after = record empty {
  nodes = nodes_of 18 ++ container vector ∷ [];
  root_types = 15 ∷ [];
  next_id = 4;
}

-- The member refers to the container now, with the class below it, which is as it was.
vector_found : identify_containers (vector_info ∷ []) 4 before ≡ ok after
unfolding identify_containers
vector_found = refl

identify_containers-IsIdentified_example :
    IsIdentified (vector_info ∷ []) after 18 × (n : Node) × (deref after 18 ≡ some n)
identify_containers-IsIdentified_example =
    identify_containers-IsIdentified (vector_info ∷ []) 4 before after vector_found 18
      (link (root (Memᴰ.head refl)) refl (Memᴰ.head refl))

abbrev fresh : Mutation
fresh = record { tracker = record { results = resized none 3 [] }; graph = before }

abbrev visited : Mutation
visited = record { tracker = record { results = some 15 ∷ some 16 ∷ some 18 ∷ [] }; graph = after }

vector_visited : mutate (vector_info ∷ []) 4 17 fresh ≡ ok (18, visited)
unfolding mutate
vector_visited = refl

new_here : (get_result (class_node vector_class) fresh.tracker).0 ≡ none
unfolding get_result
new_here = refl

first_match : find_info (vector_info ∷ []) "vector" ≡ some vector_info
unfolding find_info
first_match = refl

mutate-replaces_example : HasFace after 18 (some (vector_info, some 17, 24))
mutate-replaces_example =
    mutate-replaces (vector_info ∷ []) 4 17 18 vector_class vector_info fresh visited []
      (fresh-IsReady (vector_info ∷ []) 3 before) refl new_here first_match vector_visited
