-- ===== src/TopoSorter/Complete.antt =====
-- The pass: an order of all types that the roots reach, with enough fuel for any graph.
use object_introspection.Prelude.{
  All-map, none, some, Option, All-append, ◌∙◌, ℕ, ◌+◌, ◌≡◌, ◌<◌, ◌≤◌, refl, List, [], arith,
  length, All, Outcome, ok, ◌>>=◌, inl, sym, ap, subst,
}
use object_introspection.Types.{Ref, Node}
use object_introspection.Store.{TypeGraph, deref}
use object_introspection.TopoSorter.{
  calls_before, children_of, TopoSorter, sort, fresh, accept_all_after, sort_types,
}
use object_introspection.TopoSorter.Needs.{
  mentions, put_off, targets, firsts-calls_before, targets-calls_before, All-split, All-targets,
}
use object_introspection.TopoSorter.Order.{
  Exists, Has, Declared, Sorted, nothing, delayed_at, All-of_Has, Sorted-needs, unvisited,
}
use object_introspection.TopoSorter.Steps.{Step-accept_all_after}
use object_introspection.TopoSorter.Visits.{at_node}
use object_introspection.TopoSorter.Sorts.{IsLayered, Waits, drains}

-- The turns of the loop that are enough for a graph: its roots, and what its nodes can put off.
unfoldable pub turns_enough : TypeGraph → ℕ
turns_enough g = unvisited g [] (length g.nodes) + length g.root_types

-- The types that the node at an address mentions.
abbrev pub mentions_at : TypeGraph → Ref → List Ref
mentions_at g r = elim (deref g r) [ none ↦ [] | some n ↦ mentions n ]

module _ (g : TypeGraph) (rank : Ref → ℕ) (depth : ℕ) where
  mentioned :
      (sorted : List Ref) (r : Ref)
      → Sorted g sorted
      → Has sorted r
      → All (Declared g sorted) (delayed_at g r)
      → All (Declared g sorted) (mentions_at g r)
  mentioned sorted r ordered h later =
      let P = Declared g sorted in
      let (n, e, needed) = Sorted-needs ordered r h in
      let cs = calls_before g n in
      let (put, kids) =
        All-split P (put_off cs) (children_of n) (subst (All P) (at_node g rank r n e) later) in
      let first = subst (All P) (sym (firsts-calls_before g n)) needed in
      let all = All-append P (targets cs) (children_of n) (All-targets P cs first put) kids in
      let same : mentions_at g r ≡ mentions n =
        ap (λ (o : Option Node). let l : List Ref = elim o [ none ↦ [] | some m ↦ mentions m ] in l)
          e in
      subst (All P) (targets-calls_before g n ∙ sym same) all

  starts :
      (layered : IsLayered g rank) (bounded : (r : Ref) → rank r < depth) (rs : List Ref)
      → All (Exists g) rs
      → Waits g rank layered depth bounded (accept_all_after rs fresh)
  starts layered bounded rs here =
      let (step, queued, same, same') = Step-accept_all_after g rs fresh here in
      let (more, e, all) = step.queued in
      let unseen : (x : Ref) → Has (accept_all_after rs fresh).visited x → ⊥ =
        λ x h. let h' = subst (λ l. Has l x) same' h in absurd cc in
      record {
        valid = record {
          clean = λ x h low. absurd (unseen x h);
          ordered = subst (Sorted g) (sym same) nothing;
          marked = λ x h. let h' = subst (λ l. Has l x) same h in absurd cc;
        };
        queue = subst (All (Exists g)) (sym e) all;
        linked = λ x h. absurd (unseen x h);
      }

  -- Let every reference of the graph be to a node, and a rank below `depth` fall from each type to
  -- those it needs. Then the pass, with `depth` nested calls and at least `turns_enough` turns of
  -- the loop, returns, and changes the final types only. Each of them stands there once, behind the
  -- declarations of all that it needs; the root types are declared, and so is every type that a
  -- final type mentions, but for the container that an adapter is made of.
  pub sort_types-Sorted :
      IsLayered g rank
      → ((r : Ref) → rank r < depth)
      → All (Exists g) g.root_types
      → (turns : ℕ) → turns_enough g ≤ turns
      → (sorted : List Ref) × (sort_types depth turns g ≡ ok (record g { final_types = sorted }))
        × Sorted g sorted
        × All (Declared g sorted) g.root_types
        × All (λ r. All (Declared g sorted) (mentions_at g r)) sorted
  unfolding sort_types sort turns_enough
  sort_types-Sorted layered bounded here turns enough =
      let s₀ = accept_all_after g.root_types fresh in
      let (step, queued, same, same') = Step-accept_all_after g g.root_types fresh here in
      let (s, e, ordered, marked, declared, linked, reached) =
        drains g rank layered depth bounded turns s₀ s₀.types_to_sort refl
          (starts layered bounded g.root_types here) (omega (arith, step.spent)) in
      (
        s.sorted_types,
        ap
            (λ (o : Outcome TopoSorter). o >>= λ t.
              let r : Outcome TypeGraph = ok (record g { final_types = t.sorted_types }) in r)
            e,
        ordered,
        All-map (λ r h. declared r (reached r (inl h))) g.root_types queued,
        All-of_Has s.sorted_types (λ r h.
            mentioned s.sorted_types r ordered h
              (All-map declared (delayed_at g r) (linked r (marked r h)))),
      )
