-- ===== src/TopoSorter/Calls.antt =====
-- The calls of a visit, and its node appended: what each of the two does to the sorter's state.
use object_introspection.Prelude.{
  ℕ, suc, ◌≡◌, ◌<◌, refl, List, [], ◌∷◌, false, arith, length, All, Outcome, ok, for_each,
  Bool-cases, inl, inr, ◌⊎◌, some, if◌then◌else◌,
}
use object_introspection.Types.{
  Ref, Node, incomplete, class_node, container, primitive, enum_node, array, typedef, pointer,
  reference, dummy, dummy_allocator, capture_keys,
}
use object_introspection.Store.{TypeGraph, deref}
use object_introspection.Visitor.{contains}
use object_introspection.TopoSorter.{
  TopoSorter, accept_after, Call, now, later, perform, push_sorted, calls_before, is_sorted,
}
use object_introspection.TopoSorter.Needs.{firsts, put_off, needs}
use object_introspection.TopoSorter.Order.{
  Exists, Has, Declared, stands, empty, allocates, Declared-mono, Sorted, next, Has-append_left,
  Has-append_end, Has-snoc,
}
use object_introspection.TopoSorter.Steps.{
  Step, Step-refl, Step-trans, Step-accept_after, IsMarked, IsValid, IsValid-below, IsValid-Step,
  queue_kept, accept_after_queued, IsValid-accept_after,
}

module _ (g : TypeGraph) (rank : Ref → ℕ) where
  -- What `accept` does with a type below rank `k`: it returns, with the type declared and visited.
  abbrev pub Accepts : (Ref → TopoSorter → Outcome TopoSorter) → Ref → Type 0
  Accepts accept r =
      (s : TopoSorter)
      → IsValid g rank (suc (rank r)) s
      → (s' : TopoSorter) × (accept r s ≡ ok s')
        × Step g 0 s s'
        × Sorted g s'.sorted_types
        × IsMarked g s'
        × Declared g s'.sorted_types r
        × Has s'.visited r

  abbrev pub Below : (Ref → TopoSorter → Outcome TopoSorter) → ℕ → Ref → Type 0
  Below accept k r = (rank r < k) × Accepts accept r

  -- The calls of a visit before it appends its node.
  pub calls :
      (accept : Ref → TopoSorter → Outcome TopoSorter) (k : ℕ) (cs : List Call) (s : TopoSorter)
      → All (Below accept k) (firsts cs)
      → All (Exists g) (put_off cs)
      → IsValid g rank k s
      → (s' : TopoSorter) × (for_each (perform accept) cs s ≡ ok s')
        × Step g (length (put_off cs)) s s'
        × Sorted g s'.sorted_types
        × IsMarked g s'
        × All (Declared g s'.sorted_types) (firsts cs)
        × All (Has s'.types_to_sort) (put_off cs)
  unfolding firsts put_off perform
  calls accept k [] s below here v = (s, refl, Step-refl g s, v.ordered, v.marked, tt, tt)
  calls accept k (now r ∷ cs) s below here v =
      let (s₁, e₁, step₁, ordered₁, marked₁, d₁, seen₁) =
        below.0.1 s (IsValid-below g rank (omega (arith, below.0.0)) v) in
      let (s₂, e₂, step₂, ordered₂, marked₂, ds, qs) =
        calls accept k cs s₁ below.1 here (IsValid-Step g rank step₁ ordered₁ marked₁ v) in
      (
        s₂,
        rw e₁ e₂,
        Step-trans g (omega arith) step₁ step₂,
        ordered₂,
        marked₂,
        (Declared-mono step₂.kept d₁, ds),
        qs,
      )
  calls accept k (later r ∷ cs) s below here v =
      let step₁ = Step-accept_after g r s here.0 in
      let v₁ : IsValid g rank k (accept_after r s) = IsValid-accept_after g rank r s v in
      let (s₂, e₂, step₂, ordered₂, marked₂, ds, qs) =
        calls accept k cs (accept_after r s) below here.1 v₁ in
      (
        s₂,
        e₂,
        Step-trans g (omega arith) step₁ step₂,
        ordered₂,
        marked₂,
        ds,
        (queue_kept g step₂ r (accept_after_queued g r s), qs),
      )

  -- A node that `visit` does not append is declared once its dependencies are.
  unsorted :
      (r : Ref) (n : Node) (sorted : List Ref)
      → deref g r ≡ some n
      → is_sorted n ≡ false
      → All (Declared g sorted) (needs g n)
      → Declared g sorted r
  unfolding is_sorted calls_before firsts
  unsorted r (dummy d) sorted e h ds = empty e
  unsorted r (dummy_allocator d) sorted e h ds = allocates e ds.0
  unsorted r (incomplete t) sorted e h ds = cc
  unsorted r (class_node t) sorted e h ds = cc
  unsorted r (container t) sorted e h ds = cc
  unsorted r (primitive t) sorted e h ds = cc
  unsorted r (enum_node t) sorted e h ds = cc
  unsorted r (array t) sorted e h ds = cc
  unsorted r (typedef t) sorted e h ds = cc
  unsorted r (pointer t) sorted e h ds = cc
  unsorted r (reference t) sorted e h ds = cc
  unsorted r (capture_keys t) sorted e h ds = cc

  -- Appending the node, where the visit does, keeps the order and declares it.
  pub appended :
      (r : Ref) (n : Node) (s : TopoSorter)
      → deref g r ≡ some n
      → contains s.sorted_types r ≡ false
      → Sorted g s.sorted_types
      → All (Declared g s.sorted_types) (needs g n)
      → (s' : TopoSorter) × ((if is_sorted n then push_sorted r s else s) ≡ s')
        × Sorted g s'.sorted_types
        × Declared g s'.sorted_types r
        × (s'.visited ≡ s.visited)
        × (s'.types_to_sort ≡ s.types_to_sort)
        × ((x : Ref) → Has s.sorted_types x → Has s'.sorted_types x)
        × ((x : Ref) → Has s'.sorted_types x → Has s.sorted_types x ⊎ (x ≡ r))
  unfolding push_sorted
  appended r n s e new ordered ds = elim (Bool-cases (is_sorted n)) [
    | inl put ↦ (
      push_sorted r s,
      rw put,
      next r ordered new e ds,
      stands (Has-append_end s.sorted_types r),
      refl,
      refl,
      λ x h. Has-append_left s.sorted_types (r ∷ []) x h,
      λ x h. Has-snoc s.sorted_types r x h,
    )
    | inr not_put ↦ (
      s,
      rw not_put,
      ordered,
      unsorted r n s.sorted_types e not_put ds,
      refl,
      refl,
      λ x h. h,
      λ x h. inl h,
    )
  ]
