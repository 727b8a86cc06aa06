-- ===== src/Visitor.antt =====
-- oi/type_graph/Visitor.h: the walk that the passes share. A pass is a state, `enter` (the cycle
-- detection at the head of its `accept`), and `visit`, which is given `accept` for the nodes below.
pub mod Termination
pub mod Links
pub mod Loads
pub mod Unseen
use object_introspection.Prelude.{
  ℕ, zero, suc, List, [], ◌∷◌, ◌++◌, map, Option, none, some, Bool, true, false, Outcome, ok, err,
  dangling, of_option, out_of_fuel, ◌>>=◌, for_each, if◌then◌else◌, ◌==◌, ◌||◌,
}
use object_introspection.Types.{
  Ref, TemplateParam, Parent, Member, Class, Container, Node, incomplete, class_node, container,
  primitive, enum_node, array, typedef, pointer, reference, dummy, dummy_allocator, capture_keys,
}
use object_introspection.Store.{TypeGraph, deref}

abbrev pub param_types : List TemplateParam → List Ref
param_types ps = map (λ p. p.type) ps

abbrev pub parent_types : List Parent → List Ref
parent_types ps = map (λ p. p.type) ps

abbrev pub member_types : List Member → List Ref
member_types ms = map (λ m. m.type) ms

-- `std::unordered_set<Type*>::count` on the nodes visited.
abbrev pub contains : List Ref → Ref → Bool
contains [] r = false
contains (x ∷ xs) r = r == x || contains xs r

module _ {S : Type 0} where
  -- `RecursiveVisitor::accept(Type*)`.
  abbrev pub accept_pointer : (Ref → S → Outcome S) → Option Ref → S → Outcome S
  accept_pointer accept none s = ok s
  accept_pointer accept (some r) s = accept r s

  -- `RecursiveVisitor::visit(Class&)`.
  unfoldable pub visit_class : (Ref → S → Outcome S) → Class → S → Outcome S
  visit_class accept c s = do
    s₁ ← for_each accept (param_types c.template_params) s
    s₂ ← for_each accept (parent_types c.parents) s₁
    s₃ ← for_each accept (member_types c.members) s₂
    for_each accept c.children s₃

  -- `RecursiveVisitor::visit(Container&)`.
  unfoldable pub visit_container : (Ref → S → Outcome S) → Container → S → Outcome S
  visit_container accept c s = do
    s' ← for_each accept (param_types c.template_params) s
    accept_pointer accept c.underlying s'

  -- The other `visit`s of `RecursiveVisitor`.
  unfoldable pub visit_default : (Ref → S → Outcome S) → Node → S → Outcome S
  unfolding visit_class visit_container
  visit_default accept (incomplete t) s = ok s
  visit_default accept (class_node c) s = visit_class accept c s
  visit_default accept (container c) s = visit_container accept c s
  visit_default accept (primitive k) s = ok s
  visit_default accept (enum_node t) s = ok s
  visit_default accept (array t) s = accept t.element_type s
  visit_default accept (typedef t) s = accept t.underlying_type s
  visit_default accept (pointer t) s = accept t.pointee_type s
  visit_default accept (reference t) s = accept t.pointee_type s
  visit_default accept (dummy t) s = ok s
  visit_default accept (dummy_allocator t) s = accept t.type s
  visit_default accept (capture_keys t) s = accept t.underlying_type s

  -- `accept(Type&)`. Fuel bounds how deep the calls nest.
  unfoldable pub accept_with :
      (enter : Ref → S → Bool × S) (visit : (Ref → S → Outcome S) → Ref → S → Outcome S)
      → ℕ
      → Ref
      → S
      → Outcome S
  accept_with enter visit zero r s = out_of_fuel
  accept_with enter visit (suc f) r s =
      let (seen, s') = enter r s in if seen then ok s' else visit (accept_with enter visit f) r s'

-- The state of a pass that remembers the addresses that it has visited.
pub record Walk : Type 0 where
  pub visited : List Ref
  pub graph : TypeGraph

-- `if (visited_.count(&type) != 0) return; visited_.insert(&type);`
abbrev pub enter : Ref → Walk → Bool × Walk
enter r s = (contains s.visited r, record s { visited = r ∷ s.visited })

-- The class or container that a visited reference refers to now.
abbrev pub load_class : TypeGraph → Ref → Outcome Class
load_class g r =
    of_option dangling (deref g r) >>= λ n. elim n [ class_node c ↦ ok c | _ ↦ err dangling ]

abbrev pub load_container : TypeGraph → Ref → Outcome Container
load_container g r =
    of_option dangling (deref g r) >>= λ n. elim n [ container c ↦ ok c | _ ↦ err dangling ]
