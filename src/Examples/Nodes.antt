-- ===== src/Examples/Nodes.antt =====
-- Ids, trackers, caches and typedefs on small graphs.
use object_introspection.Prelude.{
  All, All-get_elem?, ℕ, ◌≡◌, refl, [], ◌∷◌, none, some, Bool, true, ◌&&◌, ok, arith, if◌then◌else◌,
  ◌==◌,
}
use object_introspection.Types.{Ref, NodeId, Node, node_id, class_node, typedef}
use object_introspection.Store.{deref, empty, make_type}
use object_introspection.Store.Ids.{HasUniqueIds, make_type-HasUniqueIds}
use object_introspection.Layout.{strip_typedefs}
use object_introspection.Layout.Ranked.{IsRanked, Stripped, strip_typedefs-Stripped}
use object_introspection.Layout.Inner.{inner}
use object_introspection.Tracker.{visit, fresh, get_result, set_result}
use object_introspection.Tracker.Marks.{visit_node, resize_to, run, run_set, marked, visit-run}
use object_introspection.Tracker.Results.{get_result-set_result}
use object_introspection.Examples.Samples.{base, derived, family}

singletons_leaf : All (λ m. node_id m ≡ none) empty.nodes
singletons_leaf = ground arith

leaf_below : (r : Ref) (n : Node) (i : NodeId) → deref empty r ≡ some n → node_id n ≡ some i → ⊥
leaf_below r n i e k =
    let leaf = All-get_elem? (λ m. node_id m ≡ none) empty.nodes r n singletons_leaf e in cc

empty_unique : HasUniqueIds empty
empty_unique = record {
  below = λ r n i e k. absurd (leaf_below r n i e k);
  unique = λ r s n m i e f k l. absurd (leaf_below r n i e k);
}

make_base : NodeId → Node
make_base i = class_node (record base { id = i })

make_type-HasUniqueIds_example : HasUniqueIds (make_type make_base empty).1
unfolding make_base
make_type-HasUniqueIds_example = make_type-HasUniqueIds make_base empty (λ i. refl) empty_unique

-- Visited, forgotten by a resize, and visited again.
visit-run_example :
    (visit (class_node derived) (
      run
        (visit_node (class_node derived) ∷ resize_to 1 ∷ visit_node (class_node base) ∷ [])
        (fresh 4))).0
    ≡ run_set
        (visit_node (class_node derived) ∷ resize_to 1 ∷ visit_node (class_node base) ∷ [])
        (marked (fresh 4))
        1
visit-run_example =
    visit-run (visit_node (class_node derived) ∷ resize_to 1 ∷ visit_node (class_node base) ∷ [])
      (fresh 4) (class_node derived) 1 refl

get_result-set_result_example :
    (get_result
      (class_node derived)
      (set_result {T = ℕ} (class_node base) 7 (record { results = none ∷ some 3 ∷ [] }))).0
    ≡ (if 1 == 0
        then some 7
        else (get_result {T = ℕ} (class_node derived) (record { results = none ∷ some 3 ∷ [] })).0)
get_result-set_result_example =
    get_result-set_result {T = ℕ} (class_node base) (class_node derived) 0 1 7
      (record { results = none ∷ some 3 ∷ [] }) refl refl

-- `family` has the primitive singletons and one typedef, of the class at address 15.
abbrev node_rank : Node → ℕ
node_rank (typedef t) = 1
node_rank _ = 0

abbrev family_rank : Ref → ℕ
family_rank r = elim (deref family r) [ none ↦ 0 | some n ↦ node_rank n ]

abbrev wraps_base : Node → Bool
wraps_base n = elim (inner n) [ none ↦ true | some x ↦ (x == 15) && (node_rank n == 1) ]

family_wraps : All (λ n. wraps_base n ≡ true) family.nodes
family_wraps = ground arith

family_inner :
    (r : Ref) (n : Node) (x : Ref)
    → deref family r ≡ some n
    → inner n ≡ some x
    → (x ≡ 15) × (family_rank r ≡ 1)
family_inner r n x e k =
    let w : ((x == 15) && (node_rank n == 1)) ≡ true =
      rw (k, wraps_base) at
        (All-get_elem? (λ m. wraps_base m ≡ true) family.nodes r n family_wraps e) in
    (ground (arith, w), rw e (ground (arith, w)))

family-IsRanked : IsRanked family_rank family
family-IsRanked = record {
  falls =
      λ r n x e k. let (at_base, one) = family_inner r n x e k in rw (at_base, one) (omega arith);
  refers = λ r n x e k. (class_node base, rw (family_inner r n x e k).0);
}

strip_typedefs-Stripped_example :
    (t : Ref) × (strip_typedefs 2 family 17 ≡ ok t) × Stripped family-IsRanked 2 17 t
strip_typedefs-Stripped_example = strip_typedefs-Stripped family-IsRanked 2 17 _ refl (omega arith)
