-- ===== src/Flattener.antt =====
-- oi/type_graph/Flattener.cpp: the members of base classes pulled into the derived class.
pub mod Merge
pub mod Order
pub mod Classes
use object_introspection.Prelude.{
  ℕ, ◌+◌, max, List, [], ◌∷◌, ◌++◌, map, Option, none, some, Bool, true, false, String, Outcome, ok,
  err, runtime_error, dangling, of_option, ◌>>=◌, for_each, if◌then◌else◌, ltb, not, add_u64,
}
use object_introspection.Types.{
  Ref, Member, Parent, TemplateParam, Function, Class, Container, Node, incomplete, class_node,
  container, is_allocator, node_id,
}
use object_introspection.Store.{TypeGraph, deref, put}
use object_introspection.Tracker.{NodeTracker}
use object_introspection.Tracker
use object_introspection.Layout.{strip_typedefs}
use object_introspection.Visitor.{
  load_class, param_types, parent_types, member_types, visit_default, accept_with,
}

abbrev pub parent_prefix : String
parent_prefix = "__oi_parent"

-- The state of a pass that uses the shared NodeTracker.
pub record Tracked : Type 0 where
  pub tracker : NodeTracker
  pub graph : TypeGraph

-- `if (tracker_.visit(type)) return;`
abbrev pub enter : Ref → Tracked → Bool × Tracked
enter r s = elim (deref s.graph r) [
  | none ↦ (false, s)
  | some n ↦ let (seen, t) = Tracker.visit n s.tracker in (seen, record s { tracker = t })
]

-- A member of a parent class, moved to the parent's place.
abbrev pub moved : ℕ → Member → Member
moved offset m = record m { bit_offset = add_u64 m.bit_offset offset }

-- The loop over the parent's members: the first takes on the alignment of the parent.
abbrev pub moved_members : ℕ → ℕ → List Member → List Member
moved_members align offset [] = []
moved_members align offset (m ∷ ms) =
    record (moved offset m) { align = max m.align align } ∷ map (moved offset) ms

-- `flattenParent`, by what the parent's type is behind its typedefs.
abbrev pub flatten_type : Ref → ℕ → Node → Outcome (List Member)
flatten_type t offset (class_node c) = ok (moved_members c.align offset c.members)
flatten_type t offset (container c) = ok (
    record {
      type = t;
      name = parent_prefix;
      input_name = parent_prefix;
      bit_offset = offset;
      bitsize = 0;
      align = 0;
    }
    ∷ [])
flatten_type t offset (incomplete i) = ok []
flatten_type t offset _ = err (runtime_error "Invalid type for parent")

-- `TemplateParam(type)`
abbrev pub new_param : Ref → TemplateParam
new_param t = record { type = t; qualifiers = record { const = false }; value = none }

module _ (depth : ℕ) where
  -- `stripTypedefs(t)`, and the node there.
  unfoldable pub strip : TypeGraph → Ref → Outcome (Ref × Node)
  strip g r = strip_typedefs depth g r >>= λ t. of_option dangling (deref g t) >>= λ n. ok (t, n)

  unfoldable pub flatten_parent : TypeGraph → Parent → Outcome (List Member)
  unfolding strip
  flatten_parent g p = strip g p.type >>= λ (t, n). flatten_type t p.bit_offset n

  -- The loops over the parents that are left.
  unfoldable pub flatten_parents : TypeGraph → List Parent → Outcome (List Member)
  unfolding flatten_parent
  flatten_parents g [] = ok []
  flatten_parents g (p ∷ ps) =
      flatten_parent g p >>= λ ms. flatten_parents g ps >>= λ out. ok (ms ++ out)

  -- The merge of the members with the parents, by offset; at one offset the parent comes first.
  unfoldable pub merge : TypeGraph → List Member → List Parent → Outcome (List Member)
  unfolding flatten_parents
  merge g [] ps = flatten_parents g ps
  merge g (m ∷ ms) [] = ok (m ∷ ms)
  merge g (m ∷ ms) (p ∷ ps) = elim (ltb m.bit_offset p.bit_offset) [
    | true ↦ merge g ms (p ∷ ps) >>= λ out. ok (m ∷ out)
    | false ↦ flatten_parent g p >>= λ block. merge g (m ∷ ms) ps >>= λ out. ok (block ++ out)
  ]

  -- "Pull in functions from flattened parents".
  abbrev functions_of : Node → List Function
  functions_of (class_node c) = c.functions
  functions_of _ = []

  unfoldable pub pull_functions : TypeGraph → List Parent → Outcome (List Function)
  unfolding strip
  pull_functions g [] = ok []
  pull_functions g (p ∷ ps) =
      strip g p.type >>= λ (t, n). pull_functions g ps >>= λ fs. ok (functions_of n ++ fs)

  -- The template parameter that `fixAllocatorParams` takes from the first parent, if any.
  abbrev first_type : List TemplateParam → Option Ref
  first_type [] = none
  first_type (p ∷ ps) = elim p.value [ none ↦ some p.type | some v ↦ none ]

  abbrev allocated : Node → Option Ref
  allocated (class_node c) = first_type c.template_params
  allocated _ = none

  unfoldable pub fix_from_parent : TypeGraph → Class → List Parent → Outcome Class
  unfolding strip
  fix_from_parent g c [] = ok c
  fix_from_parent g c (p ∷ ps) = strip g p.type >>= λ (t, n). elim (allocated n) [
    | none ↦ ok c
    | some a ↦ strip g a >>= λ (t', n').
        ok (record c { template_params = c.template_params ++ new_param t' ∷ [] })
  ]

  unfoldable pub fix_allocator_params : TypeGraph → Class → Outcome Class
  unfolding fix_from_parent is_allocator
  fix_allocator_params g c =
      let fixed : Outcome Class = elim c.template_params [
        | [] ↦ fix_from_parent g c c.parents
        | p ∷ ps ↦ ok c
      ] in
      if is_allocator (class_node c) then fixed else ok c

  -- The middle of `visit(Class&)`: functions, members and allocator parameters.
  unfoldable pub flatten_class : TypeGraph → Class → Outcome Class
  unfolding pull_functions merge fix_allocator_params
  flatten_class g c = do
    functions ← pull_functions g c.parents
    members ← merge g c.members c.parents
    c' ← fix_allocator_params g (record c { functions = c.functions ++ functions })
    ok (record c' { parents = []; members = members })

  -- "Pull in children from flattened children", for the children that the class had.
  unfoldable pub pull_children : TypeGraph → List Ref → Outcome (List Ref)
  pull_children g [] = ok []
  pull_children g (r ∷ rs) =
      load_class g r >>= λ c. pull_children g rs >>= λ out. ok (c.children ++ out)

  unfoldable pub visit_class :
      (Ref → Tracked → Outcome Tracked) → Ref → Class → Tracked → Outcome Tracked
  unfolding flatten_class pull_children
  visit_class accept r c s = do
    s₁ ← for_each accept (param_types c.template_params) s
    s₂ ← for_each accept (parent_types c.parents) s₁
    s₃ ← for_each accept (member_types c.members) s₂
    before ← load_class s₃.graph r
    flat ← flatten_class s₃.graph before
    s₄ ← for_each accept flat.children (record s₃ { graph = put r (class_node flat) s₃.graph })
    after ← load_class s₄.graph r
    more ← pull_children s₄.graph after.children
    ok (record s₄ {
      graph = put r (class_node (record after { children = after.children ++ more })) s₄.graph;
    })

  unfoldable pub visit_node :
      (Ref → Tracked → Outcome Tracked) → Ref → Node → Tracked → Outcome Tracked
  unfolding visit_class visit_default
  visit_node accept r (class_node c) s = visit_class accept r c s
  visit_node accept r n s = visit_default accept n s

  unfoldable pub visit : (Ref → Tracked → Outcome Tracked) → Ref → Tracked → Outcome Tracked
  unfolding visit_node
  visit accept r s = of_option dangling (deref s.graph r) >>= λ n. visit_node accept r n s

  -- The pass over the root types.
  unfoldable pub flatten : ℕ → Tracked → Outcome Tracked
  unfolding visit accept_with
  flatten fuel s = for_each (accept_with enter visit fuel) s.graph.root_types s
