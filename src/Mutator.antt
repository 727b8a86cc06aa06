-- ===== src/Mutator.antt =====
-- oi/type_graph/Visitor.h: RecursiveMutator, whose `visit` gives the type that stands for the one that
-- it visits, and puts such types where a node refers to others. The lists of a class are put back
-- behind the last of its loops: until then nobody reads them, since the class counts as done.
use object_introspection.Prelude.{
  List, [], ◌∷◌, Option, none, some, Outcome, ok, err, runtime_error, dangling, ◌>>=◌,
}
use object_introspection.Types.{
  Ref, TemplateParam, Parent, Member, Class, Container, Node, incomplete, class_node, container,
  primitive, enum_node, array, typedef, pointer, reference, dummy, dummy_allocator, capture_keys,
}
use object_introspection.Store.{TypeGraph, deref, put}
use object_introspection.Tracker.{ResultTracker}
use object_introspection.Visitor.{load_class, load_container}

-- The graph, and the results of the types that are done.
pub record Mutation : Type 0 where
  pub tracker : ResultTracker Ref
  pub graph : TypeGraph

abbrev pub written : Ref → Node → Mutation → Mutation
written r n s = record s { graph = put r n s.graph }

abbrev pub param_set : TemplateParam → Ref → TemplateParam
param_set p t = record p { type = t }

abbrev pub parent_set : Parent → Ref → Parent
parent_set p t = record p { type = t }

abbrev pub member_set : Member → Ref → Member
member_set m t = record m { type = t }

-- `dynamic_cast<Class&>` of a node, which throws at a type of another kind.
unfoldable pub cast_class : Option Node → Ref × Mutation → Outcome (Ref × Mutation)
cast_class none p = err dangling
cast_class (some (class_node c)) p = ok p
cast_class (some _) p = err (runtime_error "bad_cast")

abbrev pub class_set : List TemplateParam → List Parent → List Member → List Ref → Class → Class
class_set params parents members children c = record c {
  template_params = params;
  parents = parents;
  members = members;
  children = children;
}

module _ (mutate : Ref → Mutation → Outcome (Ref × Mutation)) where
  -- `for (auto& x : xs) x.setType(mutate(x.type()));`
  unfoldable pub mutate_each :
      {X : Type 0} → (X → Ref) → (X → Ref → X) → List X → Mutation → Outcome (List X × Mutation)
  mutate_each type_of set_type [] s = ok ([], s)
  mutate_each type_of set_type (x ∷ xs) s = mutate (type_of x) s >>= λ (t, s₁).
      mutate_each type_of set_type xs s₁ >>= λ (ys, s₂). ok (set_type x t ∷ ys, s₂)

  unfoldable pub mutate_child : Ref → Mutation → Outcome (Ref × Mutation)
  unfolding cast_class
  mutate_child r s = mutate r s >>= λ (t, s₁). cast_class (deref s₁.graph t) (t, s₁)

  unfoldable pub mutate_children : List Ref → Mutation → Outcome (List Ref × Mutation)
  unfolding mutate_child
  mutate_children [] s = ok ([], s)
  mutate_children (x ∷ xs) s =
      mutate_child x s >>= λ (t, s₁). mutate_children xs s₁ >>= λ (ys, s₂). ok (t ∷ ys, s₂)

  unfoldable pub mutate_class : Ref → Class → Mutation → Outcome (Ref × Mutation)
  unfolding mutate_each mutate_children
  mutate_class r c s = mutate_each (λ p. p.type) param_set c.template_params s >>= λ (params, s₁).
      mutate_each (λ p. p.type) parent_set c.parents s₁ >>= λ (parents, s₂).
      mutate_each (λ m. m.type) member_set c.members s₂ >>= λ (members, s₃).
      mutate_children c.children s₃ >>= λ (children, s₄). load_class s₄.graph r >>= λ c'.
      ok (r, written r (class_node (class_set params parents members children c')) s₄)

  -- The loop of `visit(Container&)`.
  unfoldable pub mutate_params : Ref → Container → Mutation → Outcome Mutation
  unfolding mutate_each
  mutate_params r c s = mutate_each (λ p. p.type) param_set c.template_params s >>= λ (params, s₁).
      load_container s₁.graph r >>= λ c'.
      ok (written r (container (record c' { template_params = params })) s₁)

  -- `mutate(Type*)`.
  abbrev mutate_pointer : Option Ref → Mutation → Outcome (Option Ref × Mutation)
  mutate_pointer none s = ok (none, s)
  mutate_pointer (some r) s = mutate r s >>= λ (t, s₁). ok (some t, s₁)

  unfoldable pub mutate_container : Ref → Container → Mutation → Outcome (Ref × Mutation)
  unfolding mutate_params
  mutate_container r c s = mutate_params r c s >>= λ s₁.
      mutate_pointer c.underlying s₁ >>= λ (underlying, s₂). load_container s₂.graph r >>= λ c'.
      ok (r, written r (container (record c' { underlying = underlying })) s₂)

  -- A node with one reference, given what it is with that reference changed.
  unfoldable pub mutate_link : Ref → Ref → (Ref → Node) → Mutation → Outcome (Ref × Mutation)
  mutate_link r t node s = mutate t s >>= λ (t', s₁). ok (r, written r (node t') s₁)

  -- The `visit`s of RecursiveMutator.
  unfoldable pub mutate_default : Ref → Node → Mutation → Outcome (Ref × Mutation)
  unfolding mutate_class mutate_container mutate_link
  mutate_default r (incomplete t) s = ok (r, s)
  mutate_default r (class_node c) s = mutate_class r c s
  mutate_default r (container c) s = mutate_container r c s
  mutate_default r (primitive k) s = ok (r, s)
  mutate_default r (enum_node t) s = ok (r, s)
  mutate_default r (array a) s =
      mutate_link r a.element_type (λ t. array (record a { element_type = t })) s
  mutate_default r (typedef td) s =
      mutate_link r td.underlying_type (λ t. typedef (record td { underlying_type = t })) s
  mutate_default r (pointer p) s =
      mutate_link r p.pointee_type (λ t. pointer (record p { pointee_type = t })) s
  mutate_default r (reference p) s =
      mutate_link r p.pointee_type (λ t. reference (record p { pointee_type = t })) s
  mutate_default r (dummy t) s = ok (r, s)
  mutate_default r (dummy_allocator d) s =
      mutate_link r d.type (λ t. dummy_allocator (record d { type = t })) s
  mutate_default r (capture_keys c) s =
      mutate_link r c.underlying_type (λ t. capture_keys (record c { underlying_type = t })) s
