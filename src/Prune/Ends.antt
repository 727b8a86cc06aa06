-- ===== src/Prune/Ends.antt =====
-- The pass ends: each call goes on below a node whose id is marked for the first time.
use object_introspection.Prelude.{
  ℕ, ◌≡◌, ◌≤◌, ◌<◌, sym, ◌∙◌, subst, List, [], none, some, Option, false, Outcome, Error, ok, err,
  ◌>>=◌, inl, inr, ◌⊎◌, Option-cases, arith,
}
use object_introspection.Types.{
  Ref, NodeId, Node, incomplete, class_node, container, primitive, enum_node, array, typedef,
  pointer, reference, dummy, dummy_allocator, capture_keys, node_id,
}
use object_introspection.Store.{deref, put}
use object_introspection.Tracker
use object_introspection.Tracker.{NodeTracker, visit_id}
use object_introspection.Tracker.Marks.{marked, marked-visit_id, visit_id-marked}
use object_introspection.Layout.{size_of, align_of}
use object_introspection.Visitor.{
  load_class, load_container, visit_class, visit_container, visit_default, accept_with,
}
use object_introspection.Visitor.Links.{links, visit_default-links}
use object_introspection.Visitor.Loads.{
  load_class-eq_ok, load_container-eq_ok, load_class-cases, load_container-cases,
}
use object_introspection.Visitor.Termination.{
  Ends, EndsBelow, Ends-cases, Ends-bind, EndsBelow-for_each, EndsBelow-accept_with,
}
use object_introspection.Visitor.Unseen.{unset, unset-le, unset-lt, unset-bound}
use object_introspection.Flattener.{Tracked, enter}
use object_introspection.Prune.{pruned_class, pruned_container, visit_node, visit, prune}
use object_introspection.Prune.Sizes.{deref-put}
use object_introspection.Prune.Walks.{prune-SameLayout}

module _ (ids : ℕ) where
  -- An id is below `ids`, and a node without one refers to nothing.
  abbrev pub HasNumber : Option NodeId → List Ref → Type 0
  HasNumber none rs = rs ≡ []
  HasNumber (some i) rs = i < ids

  abbrev pub IsNumbered : Node → Type 0
  IsNumbered n = HasNumber (node_id n) (links n)

  abbrev pub AllNumbered : Tracked → Type 0
  AllNumbered s = (r : Ref) (n : Node) → deref s.graph r ≡ some n → IsNumbered n

  abbrev left : Tracked → ℕ
  left s = unset ids (marked s.tracker)

  -- What `visit` on an id leaves to be marked.
  visit_id-left :
      (o : Option NodeId) (t : NodeTracker)
      → unset ids (marked (visit_id o t).1) ≤ unset ids (marked t)
  unfolding visit_id
  visit_id-left none t = omega arith
  visit_id-left (some i) t =
      unset-le (marked t) (marked (visit_id (some i) t).1)
        (λ j s. rw (marked-visit_id i t j) (ground arith)) ids

  enter-Ends :
      (r : Ref) (s : Tracked) → AllNumbered s → Ends AllNumbered left (left s) (ok (enter r s).1)
  unfolding Tracker.visit
  enter-Ends r s fine = elim (Option-cases (deref s.graph r)) [
    | inl e ↦ rw (e, enter) (fine, omega arith)
    | inr (n, e) ↦ rw (e, enter) (fine, visit_id-left (node_id n) s.tracker)
  ]

  id-falls :
      (i : NodeId) (t : NodeTracker)
      → i < ids
      → (visit_id (some i) t).0 ≡ false
      → unset ids (marked (visit_id (some i) t).1) < unset ids (marked t)
  id-falls i t h new =
      unset-lt (marked t) (marked (visit_id (some i) t).1) i (marked-visit_id i t)
        (sym (visit_id-marked i t) ∙ new) ids h

  -- The visit of a node with an id lowers the count, and that of one without ends at once.
  abbrev Falls : Ref → Tracked → NodeTracker → Type 0
  Falls r s t =
      (unset ids (marked t) < left s)
      ⊎ ((accept : Ref → Tracked → Outcome Tracked)
          → Ends AllNumbered left (left s) (visit accept r (record s { tracker = t })))

  node-Falls :
      (r : Ref) (s : Tracked) (n : Node)
      → AllNumbered s
      → deref s.graph r ≡ some n
      → IsNumbered n
      → (visit_id (node_id n) s.tracker).0 ≡ false
      → Falls r s (visit_id (node_id n) s.tracker).1
  unfolding visit visit_node visit_default visit_id
  node-Falls r s (incomplete t) fine here h new = inl (id-falls t.id s.tracker h new)
  node-Falls r s (class_node t) fine here h new = inl (id-falls t.id s.tracker h new)
  node-Falls r s (container t) fine here h new = inl (id-falls t.id s.tracker h new)
  node-Falls r s (primitive t) fine here h new = inr (λ accept. rw here (fine, omega arith))
  node-Falls r s (enum_node t) fine here h new = inr (λ accept. rw here (fine, omega arith))
  node-Falls r s (array t) fine here h new = inl (id-falls t.id s.tracker h new)
  node-Falls r s (typedef t) fine here h new = inl (id-falls t.id s.tracker h new)
  node-Falls r s (pointer t) fine here h new = inl (id-falls t.id s.tracker h new)
  node-Falls r s (reference t) fine here h new = inl (id-falls t.id s.tracker h new)
  node-Falls r s (dummy t) fine here h new = inl (id-falls t.id s.tracker h new)
  node-Falls r s (dummy_allocator t) fine here h new = inl (id-falls t.id s.tracker h new)
  node-Falls r s (capture_keys t) fine here h new = cc h

  enter-Falls :
      (r : Ref) (s : Tracked)
      → AllNumbered s
      → (enter r s).0 ≡ false
      → (left (enter r s).1 < left s)
        ⊎ ((accept : Ref → Tracked → Outcome Tracked)
            → Ends AllNumbered left (left s) (visit accept r (enter r s).1))
  unfolding Tracker.visit visit
  enter-Falls r s fine new = elim (Option-cases (deref s.graph r)) [
    | inl e ↦ rw (e, enter) (inr (λ accept. rw e tt))
    | inr (n, e) ↦ rw (e, enter) (node-Falls r s n fine e (fine r n e) (rw (e, enter) at new))
  ]

  AllNumbered-put :
      (s : Tracked) (r : Ref) (n n' : Node)
      → deref s.graph r ≡ some n
      → IsNumbered n'
      → AllNumbered s
      → AllNumbered (record s { graph = put r n' s.graph })
  AllNumbered-put s r n n' at h fine x k e = elim (deref-put s.graph r n n' at x) [
    | inl (_, e') ↦ let n'_k : n' ≡ k = cc (e, e') in subst IsNumbered n'_k h
    | inr e' ↦ fine x k (sym e' ∙ e)
  ]

  -- The last part of the visit of a class, and of a container.
  pruned_class-Ends :
      (r : Ref) (s : Tracked)
      → AllNumbered s
      → Ends AllNumbered left (left s) (
          load_class s.graph r >>= λ c.
          ok (record s { graph = put r (class_node (pruned_class c)) s.graph }))
  pruned_class-Ends r s fine = elim (load_class-cases s.graph r) [
    | inr (e, h) ↦ rw h tt
    | inl (c, h) ↦
        let here = load_class-eq_ok s.graph r c h in
        rw h (
          AllNumbered-put s r (class_node c) (class_node (pruned_class c)) here
              (fine r (class_node c) here) fine,
          omega arith,
        )
  ]

  pruned_container-Ends :
      (r : Ref) (s : Tracked)
      → AllNumbered s
      → Ends AllNumbered left (left s) (
          load_container s.graph r >>= λ c.
          ok (record s { graph = put r (container (pruned_container c)) s.graph }))
  pruned_container-Ends r s fine = elim (load_container-cases s.graph r) [
    | inr (e, h) ↦ rw h tt
    | inl (c, h) ↦
        let here = load_container-eq_ok s.graph r c h in
        rw h (
          AllNumbered-put s r (container c) (container (pruned_container c)) here
              (fine r (container c) here) fine,
          omega arith,
        )
  ]

  module _ (accept : Ref → Tracked → Outcome Tracked) (n : ℕ)
      (ends : (x : Ref) → EndsBelow AllNumbered left n (accept x)) where
    default-Ends :
        (k : Node) (s : Tracked)
        → AllNumbered s
        → left s ≤ n
        → Ends AllNumbered left (left s) (visit_default accept k s)
    default-Ends k s fine h =
        subst (Ends AllNumbered left (left s)) (sym (visit_default-links accept k s))
          (EndsBelow-for_each AllNumbered left n accept ends (links k) s fine h)

    node-Ends :
        (r : Ref) (k : Node) (s : Tracked)
        → AllNumbered s
        → left s ≤ n
        → Ends AllNumbered left (left s) (visit_node accept r k s)
    unfolding visit_node visit_default
    node-Ends r (class_node c) s fine h =
        Ends-bind AllNumbered left (left s) (visit_class accept c s) _
          (default-Ends (class_node c) s fine h) (λ t fine' m. pruned_class-Ends r t fine')
    node-Ends r (container c) s fine h =
        Ends-bind AllNumbered left (left s) (visit_container accept c s) _
          (default-Ends (container c) s fine h) (λ t fine' m. pruned_container-Ends r t fine')
    node-Ends r (incomplete t) s fine h = default-Ends (incomplete t) s fine h
    node-Ends r (primitive t) s fine h = default-Ends (primitive t) s fine h
    node-Ends r (enum_node t) s fine h = default-Ends (enum_node t) s fine h
    node-Ends r (array t) s fine h = default-Ends (array t) s fine h
    node-Ends r (typedef t) s fine h = default-Ends (typedef t) s fine h
    node-Ends r (pointer t) s fine h = default-Ends (pointer t) s fine h
    node-Ends r (reference t) s fine h = default-Ends (reference t) s fine h
    node-Ends r (dummy t) s fine h = default-Ends (dummy t) s fine h
    node-Ends r (dummy_allocator t) s fine h = default-Ends (dummy_allocator t) s fine h
    node-Ends r (capture_keys t) s fine h = default-Ends (capture_keys t) s fine h

    visit-Ends : (r : Ref) → EndsBelow AllNumbered left n (visit accept r)
    unfolding visit
    visit-Ends r s fine h = elim (Option-cases (deref s.graph r)) [
      | inl e ↦ rw (e, visit) tt
      | inr (k, e) ↦ rw (e, visit) (node-Ends r k s fine h)
    ]

-- Where every node of the graph has an id below `ids`, or has none and refers to nothing, the pass ends
-- with more fuel than `ids`: it returns a graph in which every type has the size and the alignment
-- that it had, at any fuel, or it raises an error.
pub prune-Ends :
    (ids fuel : ℕ) (s : Tracked)
    → AllNumbered ids s
    → ids < fuel
    → ((s' : Tracked) × (prune fuel s ≡ ok s')
        × ((f : ℕ) (r : Ref)
            → (size_of f s'.graph r ≡ size_of f s.graph r)
              × (align_of f s'.graph r ≡ align_of f s.graph r)))
      ⊎ ((e : Error) × (prune fuel s ≡ err e))
unfolding prune
prune-Ends ids fuel s fine enough =
    let low : left ids s < fuel = let bound = unset-bound ids (marked s.tracker) in omega arith in
    let accepts =
      EndsBelow-accept_with (AllNumbered ids) (left ids) enter visit (enter-Ends ids)
        (enter-Falls ids) (λ accept n r ends. visit-Ends ids accept n ends r) fuel (left ids s)
        low in
    let ends =
      EndsBelow-for_each (AllNumbered ids) (left ids) (left ids s) (accept_with enter visit fuel)
        accepts s.graph.root_types s fine (omega arith) in
    elim (Ends-cases (AllNumbered ids) (left ids) (left ids s) _ ends) [
      | inl (s', h) ↦ inl (s', h, prune-SameLayout fuel s s' h)
      | inr error ↦ inr error
    ]
