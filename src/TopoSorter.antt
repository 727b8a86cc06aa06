-- ===== src/TopoSorter.antt =====
-- oi/type_graph/TopoSorter.cpp and .h: the types in an order in which a C++ program can declare them.
-- The sorter reads the graph and writes its own three collections.
pub mod Needs
pub mod Order
pub mod Steps
pub mod Calls
pub mod Visits
pub mod Sorts
pub mod Complete
use object_introspection.Prelude.{
  ℕ, zero, suc, List, [], ◌∷◌, ◌++◌, map, Bool, true, false, Outcome, ok, out_of_fuel, dangling,
  of_option, ◌>>=◌, for_each, if◌then◌else◌, ◌==◌, Option, none, some, ◌&&◌,
}
use object_introspection.Types.{
  Ref, ContainerTypeEnum, TemplateParam, Class, Container, Node, incomplete, class_node, container,
  primitive, enum_node, array, typedef, pointer, reference, dummy, dummy_allocator, capture_keys,
  seq_type, list_type, uniq_ptr_type, shrd_ptr_type,
}
use object_introspection.Store.{TypeGraph, deref}
use object_introspection.Visitor.{contains, accept_with, param_types, parent_types, member_types}

pub record TopoSorter : Type 0 where
  pub visited : List Ref
  pub sorted_types : List Ref
  pub types_to_sort : List Ref

abbrev pub fresh : TopoSorter
fresh = record { visited = []; sorted_types = []; types_to_sort = [] }

-- `typesToSort_.push(type)`.
unfoldable pub accept_after : Ref → TopoSorter → TopoSorter
accept_after r s = record s { types_to_sort = s.types_to_sort ++ r ∷ [] }

-- `sortedTypes_.push_back(type)`.
unfoldable pub push_sorted : Ref → TopoSorter → TopoSorter
push_sorted r s = record s { sorted_types = s.sorted_types ++ r ∷ [] }

-- `if (visited_.count(&type) != 0) return; visited_.insert(&type);`
unfoldable pub enter : Ref → TopoSorter → Bool × TopoSorter
enter r s =
    if contains s.visited r then (true, s) else (false, record s { visited = r ∷ s.visited })

unfoldable pub allows_incomplete : ContainerTypeEnum → Bool
allows_incomplete seq_type = true
allows_incomplete list_type = true
allows_incomplete uniq_ptr_type = true
allows_incomplete shrd_ptr_type = true
allows_incomplete _ = false

unfoldable pub container_allows_incomplete_param : Container → ℕ → Bool
unfolding allows_incomplete
container_allows_incomplete_param c i = allows_incomplete c.container_info.ctype && i == 0

-- `accept(type)` and `acceptAfter(type)`, the calls that a `visit` makes.
pub data Call : Type 0 where
  now later : Ref → Call

-- The loop over the template parameters from the index `i` on.
unfoldable pub param_calls : Container → ℕ → List TemplateParam → List Call
unfolding container_allows_incomplete_param
param_calls c i [] = []
param_calls c i (p ∷ ps) =
    (if container_allows_incomplete_param c i then later p.type else now p.type)
    ∷ param_calls c (suc i) ps

-- `dynamic_cast<Typedef*>(&type)`.
unfoldable pub is_typedef : Option Node → Bool
is_typedef (some (typedef t)) = true
is_typedef _ = false

unfoldable pub pointee_call : TypeGraph → Ref → Call
unfolding is_typedef
pointee_call g r = if is_typedef (deref g r) then now r else later r

-- The calls of a node's `visit` before it appends the node to the sorted types, in order.
unfoldable pub calls_before : TypeGraph → Node → List Call
unfolding param_calls pointee_call
calls_before g (incomplete t) = []
calls_before g (class_node c) =
    map now (parent_types c.parents ++ member_types c.members ++ param_types c.template_params)
calls_before g (container c) = param_calls c 0 c.template_params
calls_before g (primitive k) = []
calls_before g (enum_node t) = []
calls_before g (array t) = now t.element_type ∷ []
calls_before g (typedef t) = now t.underlying_type ∷ []
calls_before g (pointer t) = pointee_call g t.pointee_type ∷ []
calls_before g (reference t) = pointee_call g t.pointee_type ∷ []
calls_before g (dummy t) = []
calls_before g (dummy_allocator t) = now t.type ∷ []
calls_before g (capture_keys t) = now t.underlying_type ∷ []

-- Whether the `visit` appends the node: the sorter overrides it for all but the two dummies.
unfoldable pub is_sorted : Node → Bool
is_sorted (dummy t) = false
is_sorted (dummy_allocator t) = false
is_sorted _ = true

-- What the `visit` passes to `acceptAfter` once the node is appended.
unfoldable pub children_of : Node → List Ref
children_of (class_node c) = c.children
children_of _ = []

unfoldable pub perform :
    (Ref → TopoSorter → Outcome TopoSorter) → Call → TopoSorter → Outcome TopoSorter
unfolding accept_after
perform accept (now r) s = accept r s
perform accept (later r) s = ok (accept_after r s)

unfoldable pub accept_all_after : List Ref → TopoSorter → TopoSorter
unfolding accept_after
accept_all_after [] s = s
accept_all_after (r ∷ rs) s = accept_all_after rs (accept_after r s)

module _ (g : TypeGraph) where
  unfoldable pub visit_node :
      (Ref → TopoSorter → Outcome TopoSorter) → Ref → Node → TopoSorter → Outcome TopoSorter
  unfolding calls_before perform push_sorted accept_all_after is_sorted children_of
  visit_node accept r n s = for_each (perform accept) (calls_before g n) s >>= λ s'.
      ok (accept_all_after (children_of n) (if is_sorted n then push_sorted r s' else s'))

  unfoldable pub visit :
      (Ref → TopoSorter → Outcome TopoSorter) → Ref → TopoSorter → Outcome TopoSorter
  unfolding visit_node
  visit accept r s = of_option dangling (deref g r) >>= λ n. visit_node accept r n s

  -- `accept(Type&)`; the fuel bounds how deep the calls nest.
  unfoldable pub accept : ℕ → Ref → TopoSorter → Outcome TopoSorter
  unfolding accept_with enter visit
  accept depth r s = accept_with enter visit depth r s

  abbrev pub pop : TopoSorter → TopoSorter
  pop s = elim s.types_to_sort [ [] ↦ s | q ∷ qs ↦ record s { types_to_sort = qs } ]

  -- `while (!typesToSort_.empty())`; the fuel bounds the turns of the loop.
  unfoldable pub drain : (depth : ℕ) → ℕ → TopoSorter → Outcome TopoSorter
  unfolding accept
  drain depth zero s = elim s.types_to_sort [ [] ↦ ok s | q ∷ qs ↦ out_of_fuel ]
  drain depth (suc turns) s = elim s.types_to_sort [
    | [] ↦ ok s
    | q ∷ qs ↦ accept depth q s >>= λ s'. drain depth turns (pop s')
  ]

  unfoldable pub sort : (depth turns : ℕ) → List Ref → TopoSorter → Outcome TopoSorter
  unfolding drain accept_all_after
  sort depth turns types s = drain depth turns (accept_all_after types s)

-- The pass: `finalTypes` is what the sorter of the root types has sorted.
unfoldable pub sort_types : (depth turns : ℕ) → TypeGraph → Outcome TypeGraph
unfolding sort
sort_types depth turns g =
    sort g depth turns g.root_types fresh >>= λ s. ok (record g { final_types = s.sorted_types })
