-- ===== src/IdentifyContainers.antt =====
-- oi/type_graph/IdentifyContainers.cpp: every class whose name a container description matches is
-- replaced by a Container node with the class below it.
pub mod Runs
pub mod Steps
pub mod Nodes
pub mod Visits
pub mod Lookups
pub mod Identified
use object_introspection.Prelude.{
  ℕ, zero, suc, List, [], ◌∷◌, Option, none, some, Outcome, ok, dangling, out_of_fuel, of_option,
  ◌>>=◌, String, if◌then◌else◌,
}
use object_introspection.Types.{
  Ref, NodeId, TemplateParam, ContainerInfo, matches, Class, Container, Node, class_node, container,
}
use object_introspection.Store.{TypeGraph, deref, make_type, size}
use object_introspection.Tracker.{ResultTracker, resized, get_result, set_result}
use object_introspection.Mutator.{
  Mutation, mutate_each, mutate_class, mutate_params, mutate_default,
}

-- The first description that matches a name.
unfoldable pub find_info : List ContainerInfo → String → Option ContainerInfo
find_info [] name = none
find_info (info ∷ infos) name =
    let rest = find_info infos name in if matches info name then some info else rest

-- `Container(id, info, size, underlying)`, with the template parameters that are set behind it.
abbrev pub new_container : ContainerInfo → ℕ → Option Ref → List TemplateParam → NodeId → Container
new_container info size underlying params id = record {
  template_params = params;
  container_info = info;
  underlying = underlying;
  name = info.type_name;
  input_name = info.type_name;
  size = size;
  align = 0;
  id = id;
}

abbrev pub tracked : Node → Ref → Mutation → Mutation
tracked n q s = record s { tracker = set_result n q s.tracker }

module _ (containers : List ContainerInfo) where
  module _ (mutate : Ref → Mutation → Outcome (Ref × Mutation)) where
    -- The body of the loop in `visit(Class&)`, behind the test.
    unfoldable pub replace_class : Ref → Class → ContainerInfo → Mutation → Outcome (Ref × Mutation)
    unfolding make_type mutate_params set_result
    replace_class r c info s =
        let (q, g) =
          make_type (λ id. container (new_container info c.size (some r) c.template_params id))
            s.graph in
        let s₁ = tracked (class_node c) q (record s { graph = g }) in
        mutate_params mutate q
          (new_container info c.size (some r) c.template_params s.graph.next_id) s₁
        >>= λ s₂. ok (q, s₂)

    unfoldable pub visit_class :
        Ref → Class → Option ContainerInfo → Mutation → Outcome (Ref × Mutation)
    unfolding replace_class mutate_class set_result
    visit_class r c (some info) s = replace_class r c info s
    visit_class r c none s = mutate_class mutate r c (tracked (class_node c) r s)

    unfoldable pub visit_node : Ref → Node → Mutation → Outcome (Ref × Mutation)
    unfolding visit_class find_info mutate_params mutate_default
    visit_node r (class_node c) s = visit_class r c (find_info containers c.input_name) s
    visit_node r (container c) s = mutate_params mutate r c s >>= λ s₁. ok (r, s₁)
    visit_node r n s = mutate_default mutate r n s

  -- `mutate`. Fuel bounds how deep the calls nest.
  unfoldable pub mutate : ℕ → Ref → Mutation → Outcome (Ref × Mutation)
  unfolding visit_node get_result set_result
  mutate zero r s = out_of_fuel
  mutate (suc f) r s = of_option dangling (deref s.graph r) >>= λ n.
      let (cached, tracker) = get_result n s.tracker in
      let s₁ : Mutation = record s { tracker = tracker } in
      elim cached [
        | some q ↦ ok (q, s₁)
        | none ↦ visit_node (mutate f) r n s₁ >>= λ (q, s₂). ok (q, tracked n q s₂)
      ]

  -- The pass: each root type is replaced.
  unfoldable pub identify_containers : ℕ → TypeGraph → Outcome TypeGraph
  unfolding mutate mutate_each
  identify_containers fuel g =
      let s : Mutation = record {
        tracker = record { results = resized none (size g) [] };
        graph = g;
      } in
      mutate_each (mutate fuel) (λ r. r) (λ _ t. t) g.root_types s >>= λ (roots, s').
      ok (record s'.graph { root_types = roots })
