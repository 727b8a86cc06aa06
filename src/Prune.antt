-- ===== src/Prune.antt =====
-- oi/type_graph/Prune.cpp: what the code generation does not read is dropped from the nodes.
pub mod Sizes
pub mod Walks
pub mod Ends
use object_introspection.Prelude.{
  ℕ, List, [], none, Outcome, ok, dangling, of_option, ◌>>=◌, for_each,
}
use object_introspection.Types.{Ref, Class, Container, Node, class_node, container}
use object_introspection.Store.{deref, put}
use object_introspection.Visitor.{
  load_class, load_container, visit_class, visit_container, visit_default, accept_with,
}
use object_introspection.Flattener.{Tracked, enter}

-- `shrink_to_fit` leaves the items of a vector as they are.
abbrev pub pruned_class : Class → Class
pruned_class c = record c { template_params = []; parents = []; functions = [] }

abbrev pub pruned_container : Container → Container
pruned_container c = record c { underlying = none }

unfoldable pub visit_node :
    (Ref → Tracked → Outcome Tracked) → Ref → Node → Tracked → Outcome Tracked
unfolding visit_class visit_container visit_default
visit_node accept r (class_node c) s = visit_class accept c s >>= λ s'.
    load_class s'.graph r >>= λ c'.
    ok (record s' { graph = put r (class_node (pruned_class c')) s'.graph })
visit_node accept r (container c) s = visit_container accept c s >>= λ s'.
    load_container s'.graph r >>= λ c'.
    ok (record s' { graph = put r (container (pruned_container c')) s'.graph })
visit_node accept r n s = visit_default accept n s

unfoldable pub visit : (Ref → Tracked → Outcome Tracked) → Ref → Tracked → Outcome Tracked
unfolding visit_node
visit accept r s = of_option dangling (deref s.graph r) >>= λ n. visit_node accept r n s

-- The pass over the root types.
unfoldable pub prune : ℕ → Tracked → Outcome Tracked
unfolding visit accept_with
prune fuel s = for_each (accept_with enter visit fuel) s.graph.root_types s
