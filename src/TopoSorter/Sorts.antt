-- ===== src/TopoSorter/Sorts.antt =====
-- The sorter returns on every graph whose references are valid and whose dependencies have no cycle,
-- and what it returns is sorted and complete.
use object_introspection.Prelude.{
  All-map, ℕ, zero, suc, ◌≡◌, ◌<◌, ◌≤◌, refl, List, [], ◌∷◌, ◌++◌, arith, length, All, Outcome, ok,
  out_of_fuel, ◌>>=◌, Bool-cases, inl, inr, ◌⊎◌, sym, ◌∙◌, ap, subst, some, ◌==◌, eq_of_==,
  All-append,
}
use object_introspection.Types.{Ref, Node}
use object_introspection.Store.{TypeGraph, deref}
use object_introspection.Visitor.{contains, accept_with}
use object_introspection.TopoSorter.{TopoSorter, accept, enter, visit, drain, pop}
use object_introspection.TopoSorter.Needs.{needs, mentions}
use object_introspection.TopoSorter.Order.{Exists, Has, Declared, Sorted, delayed_at}
use object_introspection.TopoSorter.Steps.{
  Step, queue_kept, Step-refl, IsMarked, IsValid, IsValid-below, IsValid-Step, pending,
}
use object_introspection.TopoSorter.Calls.{Accepts, Below}
use object_introspection.TopoSorter.Visits.{visit_node-Steps}

-- Every reference is to a node, and each type ranks above the types it depends on.
pub record IsLayered (g : TypeGraph) (rank : Ref → ℕ) : Type 0 where
  pub depends :
      (r : Ref) (n : Node)
      → deref g r ≡ some n
      → All (λ d. (rank d < rank r) × Exists g d) (needs g n)
  pub refers : (r : Ref) (n : Node) → deref g r ≡ some n → All (Exists g) (mentions n)

module _ (g : TypeGraph) (rank : Ref → ℕ) (layered : IsLayered g rank) where
  -- With more fuel than the rank of a type, `accept` returns.
  pub accept-Accepts :
      (depth : ℕ) (r : Ref) → Exists g r → rank r < depth → Accepts g rank (accept g depth) r
  unfolding accept accept_with enter visit
  accept-Accepts zero r here low s v = elim low [ ]
  accept-Accepts (suc depth) r (n, e) low s v = elim (Bool-cases (contains s.visited r)) [
    | inl seen ↦
        (s, rw seen, Step-refl g s, v.ordered, v.marked, v.clean r seen (omega arith), seen)
    | inr new ↦
        let below : All (Below g rank (accept g depth) (rank r)) (needs g n) =
          All-map (λ d h. (h.0, accept-Accepts depth d h.1 (omega (arith, h.0)))) (needs g n)
            (layered.depends r n e) in
        let (s', e', step, ordered, marked, declared, seen) =
          visit_node-Steps g rank (accept g depth) r n s e new below (layered.refers r n e) v in
        (s', rw (new, e) e', step, ordered, marked, declared, seen)
  ]

  module _ (depth : ℕ) (bounded : (r : Ref) → rank r < depth) where
    -- Between two turns of the loop.
    pub record Waits (s : TopoSorter) : Type 0 where
      pub valid : IsValid g rank depth s
      pub queue : All (Exists g) s.types_to_sort
      pub linked :
          (x : Ref)
          → Has s.visited x
          → All (λ w. Has s.types_to_sort w ⊎ Has s.visited w) (delayed_at g x)

    abbrev pub Finishes : TopoSorter → Outcome TopoSorter → Type 0
    Finishes s o =
        (s' : TopoSorter) × (o ≡ ok s')
        × Sorted g s'.sorted_types
        × IsMarked g s'
        × ((x : Ref) → Has s'.visited x → Declared g s'.sorted_types x)
        × ((x : Ref) → Has s'.visited x → All (Has s'.visited) (delayed_at g x))
        × ((x : Ref) → Has s.types_to_sort x ⊎ Has s.visited x → Has s'.visited x)

    finished : (s : TopoSorter) → s.types_to_sort ≡ [] → Waits s → Finishes s (ok s)
    finished s none_left w =
        let reached : (x : Ref) → Has s.types_to_sort x ⊎ Has s.visited x → Has s.visited x = λ x h.
          elim h [
            | inl waiting ↦ let h' = subst (λ l. Has l x) none_left waiting in absurd cc
            | inr seen ↦ seen
          ] in
        (
          s,
          refl,
          w.valid.ordered,
          w.valid.marked,
          λ x h. w.valid.clean x h (bounded x),
          λ x h. All-map reached (delayed_at g x) (w.linked x h),
          reached,
        )

    -- The state after a turn: `s'` is what `accept` returned for the front `q` of the queue of `s`.
    turned :
        (s s' : TopoSorter) (q : Ref) (rest : List Ref)
        → s'.types_to_sort ≡ q ∷ rest
        → All (Exists g) rest
        → Waits s
        → Step g 0 s s'
        → Sorted g s'.sorted_types
        → IsMarked g s'
        → Has s'.visited q
        → Waits (record s' { types_to_sort = rest })
          × ((x : Ref) → Has s.types_to_sort x ⊎ Has s.visited x → Has rest x ⊎ Has s'.visited x)
    turned s s' q rest e all w step ordered marked seen =
        let v = IsValid-Step g rank step ordered marked w.valid in
        let front = λ (x : Ref) (h : Has s'.types_to_sort x).
          let h' : Has (q ∷ rest) x = subst (λ l. Has l x) e h in
          let r : Has rest x ⊎ Has s'.visited x = elim (Bool-cases (x == q)) [
            | inl same ↦ inr (subst (Has s'.visited) (sym (eq_of_== x q same)) seen)
            | inr other ↦ inl (ground arith)
          ] in
          r in
        let onward = λ (x : Ref) (h : Has s.types_to_sort x ⊎ Has s.visited x).
          let r : Has rest x ⊎ Has s'.visited x = elim h [
            | inl waiting ↦ front x (queue_kept g step x waiting)
            | inr old ↦ inr (step.seen x old)
          ] in
          r in
        (
          record {
            valid = record { clean = v.clean; ordered = v.ordered; marked = v.marked };
            queue = all;
            linked = λ x h. elim (step.handled x h) [
              | inl old ↦ All-map onward (delayed_at g x) (w.linked x old)
              | inr (d, put) ↦ All-map front (delayed_at g x) put
            ];
          },
          onward,
        )

    drain_empty : (turns : ℕ) (s : TopoSorter) → s.types_to_sort ≡ [] → drain g depth turns s ≡ ok s
    unfolding drain
    drain_empty zero s e =
        ap
          (λ (l : List Ref).
            let o : Outcome TopoSorter = elim l [ [] ↦ ok s | q ∷ qs ↦ out_of_fuel ] in o)
          e
    drain_empty (suc turns) s e =
        ap
          (λ (l : List Ref).
            let o : Outcome TopoSorter = elim l [
              | [] ↦ ok s
              | q ∷ qs ↦ accept g depth q s >>= λ t. drain g depth turns (pop g t)
            ] in
            o)
          e

    drain_turn :
        (turns : ℕ) (s s' : TopoSorter) (q : Ref) (qs rest : List Ref)
        → s.types_to_sort ≡ q ∷ qs
        → accept g depth q s ≡ ok s'
        → s'.types_to_sort ≡ q ∷ rest
        → drain g depth (suc turns) s ≡ drain g depth turns (record s' { types_to_sort = rest })
    unfolding drain
    drain_turn turns s s' q qs rest e e' e'' =
        ap
          (λ (l : List Ref).
            let o : Outcome TopoSorter = elim l [
              | [] ↦ ok s
              | q ∷ qs ↦ accept g depth q s >>= λ t. drain g depth turns (pop g t)
            ] in
            o)
          e
        ∙ ap (λ (o : Outcome TopoSorter). o >>= λ t. drain g depth turns (pop g t)) e'
        ∙ ap
            (λ (l : List Ref).
              let t : TopoSorter = elim l [ [] ↦ s' | q ∷ qs ↦ record s' { types_to_sort = qs } ] in
              drain g depth turns t)
            e''

    pub drains :
        (turns : ℕ) (s : TopoSorter) (queue : List Ref)
        → s.types_to_sort ≡ queue
        → Waits s
        → pending g s ≤ turns
        → Finishes s (drain g depth turns s)
    drains zero s [] e w p = subst (Finishes s) (sym (drain_empty 0 s e)) (finished s e w)
    drains zero s (q ∷ qs) e w p = let l = ap length e in absurd (omega (arith, l))
    drains (suc turns) s [] e w p =
        subst (Finishes s) (sym (drain_empty (suc turns) s e)) (finished s e w)
    drains (suc turns) s (q ∷ qs) e w p =
        let here : All (Exists g) (q ∷ qs) = subst (All (Exists g)) e w.queue in
        let (s₁, e₁, step, ordered, marked, d, seen) =
          accept-Accepts depth q here.0 (bounded q) s (IsValid-below g rank (bounded q) w.valid) in
        let (more, queued, all) = step.queued in
        let queued₁ : s₁.types_to_sort ≡ q ∷ (qs ++ more) = queued ∙ ap (λ l. l ++ more) e in
        let (w₁, onward) =
          turned s s₁ q (qs ++ more) queued₁ (All-append (Exists g) qs more here.1 all) w step
            ordered marked seen in
        let l = ap length queued₁ in
        let (s₂, e₂, ordered₂, marked₂, declared, linked, reached) =
          drains turns (record s₁ { types_to_sort = qs ++ more }) (qs ++ more) refl w₁
            (omega (arith, step.spent, l)) in
        (
          s₂,
          drain_turn turns s s₁ q qs (qs ++ more) e e₁ queued₁ ∙ e₂,
          ordered₂,
          marked₂,
          declared,
          linked,
          λ x h. reached x (onward x h),
        )
