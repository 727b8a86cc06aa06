-- ===== src/TypeIdentifier.antt =====
-- oi/type_graph/TypeIdentifier.cpp: template parameters of containers that are passed through or are
-- stubs are replaced by dummies.
pub mod Params
pub mod Again
use mathlib.Core.Option.{map}
use object_introspection.Prelude.{
  ℕ, zero, suc, ◌+◌, List, [], ◌∷◌, Option, none, some, Bool, true, false, Outcome, ok, err,
  runtime_error, dangling, of_option, ◌>>=◌, for_each, if◌then◌else◌, ◌==◌, String, ◌&◌, to_string,
}
use object_introspection.Types.{
  Ref, NodeId, TemplateParam, ContainerInfo, Class, Container, Node, class_node, container, dummy,
  dummy_allocator, is_allocator,
}
use object_introspection.Store.{TypeGraph, deref, put, make_type}
use object_introspection.Layout.{size_of, align_of}
use object_introspection.Tracker
use object_introspection.Tracker.{NodeTracker}
use object_introspection.Visitor.{load_container, param_types, visit_default, accept_with}
use object_introspection.Flattener.{new_param}
use object_introspection.NameGen.{name_at}
use object_introspection.IdentifyContainers.{find_info, new_container}

-- `dummies` is `passThroughTypeDummys_`.
pub record Identifier : Type 0 where
  pub tracker : NodeTracker
  pub graph : TypeGraph
  pub dummies : List (NodeId × Ref)

-- `if (tracker_.visit(type)) return;`
abbrev pub enter : Ref → Identifier → Bool × Identifier
enter r s = elim (deref s.graph r) [
  | none ↦ (false, s)
  | some n ↦ let (seen, t) = Tracker.visit n s.tracker in (seen, record s { tracker = t })
]

abbrev pub find_dummy : NodeId → List (NodeId × Ref) → Option Ref
find_dummy id [] = none
find_dummy id ((i, r) ∷ ds) = let rest = find_dummy id ds in if i == id then some r else rest

abbrev pub contains_index : ℕ → List ℕ → Bool
contains_index i [] = false
contains_index i (j ∷ js) = let rest = contains_index i js in if j == i then true else rest

-- Whether the parameter was replaced before.
abbrev pub is_replaced : Node → Bool
is_replaced (dummy d) = true
is_replaced (dummy_allocator d) = true
is_replaced (container c) = true
is_replaced _ = false

-- The first description that matches, if the type is a class.
unfoldable pub found_info : List ContainerInfo → Node → Option (ContainerInfo × Class)
unfolding find_info
found_info infos (class_node c) = map (λ info. (info, c)) (find_info infos c.input_name)
found_info infos _ = none

-- The container that stands for a type that is passed through, given the one that is remembered.
unfoldable pub dummy_for : ContainerInfo → Ref → Class → Identifier → Option Ref → Ref × Identifier
unfolding make_type
dummy_for info r c s (some d) = (d, s)
dummy_for info r c s none =
    let (new, g) =
      make_type (λ id. container (new_container info c.size (some r) c.template_params id))
        s.graph in
    (new, record s { graph = g; dummies = (c.id, new) ∷ s.dummies })

unfoldable pub pass_through : ContainerInfo → Ref → Class → Identifier → Ref × Identifier
unfolding dummy_for
pass_through info r c s = dummy_for info r c s (find_dummy c.id s.dummies)

abbrev pub new_dummy : (size align : ℕ) (input_name : String) → NodeId → Node
new_dummy size align input_name id = dummy (record {
  size = size;
  align = align;
  id = id;
  name =
      "DummySizedOperator<" & to_string size & ", " & to_string align & ", " & to_string id & ">";
  input_name = input_name;
})

abbrev pub new_allocator : Ref → String → (size align : ℕ) (input_name : String) → NodeId → Node
new_allocator type type_name size align input_name id = dummy_allocator (record {
  type = type;
  size = size;
  align = align;
  id = id;
  name =
      "DummyAllocator<"
      & type_name
      & ", "
      & to_string size
      & ", "
      & to_string align
      & ", "
      & to_string id
      & ">";
  input_name = input_name;
})

-- `templateParams.at(0).type()`
abbrev pub first_param : Node → Outcome Ref
first_param (class_node c) = elim c.template_params [
  | [] ↦ err (runtime_error "out_of_range")
  | p ∷ ps ↦ ok p.type
]
first_param _ = err dangling

abbrev pub made : (NodeId → Node) → Identifier → TemplateParam × Identifier
made make s = let (r, g) = make_type make s.graph in (new_param r, record s { graph = g })

-- A dummy of a size and an alignment for a type of some name, or a DummyAllocator.
unfoldable pub stub_made :
    Node → (size align : ℕ) → String → Bool → Identifier → Outcome (TemplateParam × Identifier)
unfolding make_type name_at
stub_made n size align name true s = first_param n >>= λ type.
    name_at s.graph type >>= λ type_name. ok (made (new_allocator type type_name size align name) s)
stub_made n size align name false s = ok (made (new_dummy size align name) s)

module _ (depth : ℕ) where
  -- What a stub parameter is replaced by; a size of 1 is taken for 0.
  unfoldable pub stub_param : Ref → Node → Identifier → Outcome (TemplateParam × Identifier)
  unfolding stub_made size_of align_of name_at is_allocator
  stub_param r n s = size_of depth s.graph r >>= λ size. align_of depth s.graph r >>= λ align.
      name_at s.graph r >>= λ name.
      stub_made n (if size == 1 then 0 else size) align name (is_allocator n) s

  module _ (pass_through_types : List ContainerInfo) (stubs : List ℕ) where
    -- The parameter with an index, behind the first test.
    unfoldable pub replace_param :
        ℕ
        → TemplateParam
        → Node
        → Option (ContainerInfo × Class)
        → Identifier
        → Outcome (TemplateParam × Identifier)
    unfolding pass_through stub_param
    replace_param i p n (some (info, c)) s =
        let (d, s') = pass_through info p.type c s in ok (new_param d, s')
    replace_param i p n none s =
        let stub = stub_param p.type n s in if contains_index i stubs then stub else ok (p, s)

    unfoldable pub identify_param :
        ℕ → TemplateParam → Identifier → Outcome (TemplateParam × Identifier)
    unfolding replace_param found_info
    identify_param i p s = of_option dangling (deref s.graph p.type) >>= λ n.
        let replaced = replace_param i p n (found_info pass_through_types n) s in
        if is_replaced n then ok (p, s) else replaced

    -- The loop over the parameters, from an index on.
    unfoldable pub identify_params :
        ℕ → List TemplateParam → Identifier → Outcome (List TemplateParam × Identifier)
    unfolding identify_param
    identify_params i [] s = ok ([], s)
    identify_params i (p ∷ ps) s = identify_param i p s >>= λ (q, s₁).
        identify_params (suc i) ps s₁ >>= λ (qs, s₂). ok (q ∷ qs, s₂)

  module _ (pass_through_types : List ContainerInfo) where
    unfoldable pub visit_node :
        (Ref → Identifier → Outcome Identifier) → Ref → Node → Identifier → Outcome Identifier
    unfolding identify_params visit_default
    visit_node accept r (container c) s =
        identify_params pass_through_types c.container_info.stub_template_params 0 c.template_params
          s
        >>= λ (params, s₁). load_container s₁.graph r >>= λ c'.
            for_each accept (param_types params) (record s₁ {
              graph = put r (container (record c' { template_params = params })) s₁.graph;
            })
    visit_node accept r n s = visit_default accept n s

    unfoldable pub visit :
        (Ref → Identifier → Outcome Identifier) → Ref → Identifier → Outcome Identifier
    unfolding visit_node
    visit accept r s = of_option dangling (deref s.graph r) >>= λ n. visit_node accept r n s

    -- The pass over the root types.
    unfoldable pub identify_types : ℕ → NodeTracker → TypeGraph → Outcome Identifier
    unfolding visit accept_with
    identify_types fuel t g =
        for_each (accept_with enter visit fuel) g.root_types
          (record { tracker = t; graph = g; dummies = [] })
