-- ===== src/TopoSorter/Visits.antt =====
-- One visit of the sorter, given that the calls it makes do their part.
use mathlib.Core.List.{append_assoc}
use object_introspection.Prelude.{
  All-map, ℕ, suc, ◌+◌, ◌≡◌, ◌<◌, List, [], ◌∷◌, ◌++◌, false, arith, length, All, Outcome, ok,
  Option, ◌>>=◌, ◌==◌, Bool-cases, inl, inr, ◌⊎◌, sym, ◌∙◌, ap, subst, length-append, some,
  if◌then◌else◌, ==_self, All-append, eq_of_==, none, lt-length_of_get_elem?,
}
use object_introspection.Types.{Ref, Node}
use object_introspection.Store.{TypeGraph, deref}
use object_introspection.Visitor.{contains}
use object_introspection.TopoSorter.{
  TopoSorter, accept_all_after, push_sorted, calls_before, children_of, is_sorted, visit_node,
}
use object_introspection.TopoSorter.Needs.{
  put_off, needs, mentions, targets, firsts-calls_before, targets-calls_before, All-parts,
  All-split,
}
use object_introspection.TopoSorter.Order.{
  Exists, Has, Declared, Declared-mono, Sorted, delayed_at, delayed, unvisited, weight,
  unvisited-mark,
}
use object_introspection.TopoSorter.Steps.{
  Step, Step-accept_all_after, IsMarked, IsValid, queue_kept, pending,
}
use object_introspection.TopoSorter.Calls.{Below, calls, appended}

module _ (g : TypeGraph) (rank : Ref → ℕ) where
  marked_self : (s : TopoSorter) (r : Ref) → Has (r ∷ s.visited) r
  marked_self s r = ground (arith, ==_self r)

  entered :
      (s : TopoSorter) (r : Ref)
      → IsValid g rank (suc (rank r)) s
      → IsValid g rank (rank r) (record s { visited = r ∷ s.visited })
  entered s r v = record {
    clean = λ x seen low. elim (Bool-cases (x == r)) [
      | inl same ↦
          let e : rank x ≡ rank r = ap rank (eq_of_== x r same) in absurd (omega (arith, e))
      | inr other ↦ v.clean x (ground arith) (omega arith)
    ];
    ordered = v.ordered;
    marked = λ x h. let m = v.marked x h in ground arith;
  }

  not_appended :
      {b : ℕ} (s s' : TopoSorter) (r : Ref)
      → contains s.visited r ≡ false
      → IsMarked g s
      → Step g b (record s { visited = r ∷ s.visited }) s'
      → contains s'.sorted_types r ≡ false
  not_appended s s' r new marked step = elim (Bool-cases (contains s'.sorted_types r)) [
    | inr out ↦ out
    | inl stands_there ↦ elim (step.untouched r stands_there) [
      | inl old ↦ let m = marked r old in absurd cc
      | inr untouched ↦ let m = marked_self s r in absurd cc
    ]
  ]

  pub at_node : (r : Ref) (n : Node) → deref g r ≡ some n → delayed_at g r ≡ delayed g n
  at_node r n e =
      ap (λ (o : Option Node). let l : List Ref = elim o [ none ↦ [] | some m ↦ delayed g m ] in l)
        e

  weight_split :
      (r : Ref) (n : Node)
      → deref g r ≡ some n
      → weight g r ≡ length (put_off (calls_before g n)) + length (children_of n)
  weight_split r n e =
      ap length (at_node r n e) ∙ length-append (put_off (calls_before g n)) (children_of n)

  -- The calls, the node appended and its children put off make one step from before the node was
  -- entered.
  composed :
      (r : Ref) (n : Node) (s s₂ s₃ s₄ : TopoSorter)
      → deref g r ≡ some n
      → contains s.visited r ≡ false
      → Step g (length (put_off (calls_before g n))) (record s { visited = r ∷ s.visited }) s₂
      → s₃.visited ≡ s₂.visited
      → s₃.types_to_sort ≡ s₂.types_to_sort
      → ((x : Ref) → Has s₂.sorted_types x → Has s₃.sorted_types x)
      → ((x : Ref) → Has s₃.sorted_types x → Has s₂.sorted_types x ⊎ (x ≡ r))
      → Step g (length (children_of n)) s₃ s₄
      → s₄.sorted_types ≡ s₃.sorted_types
      → s₄.visited ≡ s₃.visited
      → Declared g s₄.sorted_types r
      → All (Has s₂.types_to_sort) (put_off (calls_before g n))
      → All (Has s₄.types_to_sort) (children_of n)
      → Step g 0 s s₄
  composed r n s s₂ s₃ s₄ e new step same_v same_q kept added last same_s same_v' d qs cs =
      let low : r < length g.nodes = lt-length_of_get_elem? g.nodes r e in
      let mark = unvisited-mark g s.visited r (length g.nodes) low new in
      let w = weight_split r n e in
      let to_last = λ (x : Ref) (h : Has s₂.types_to_sort x).
        queue_kept g last x (subst (λ l. Has l x) (sym same_q) h) in
      let all_put_off : All (Has s₄.types_to_sort) (delayed_at g r) =
        subst (All (Has s₄.types_to_sort)) (sym (at_node r n e)) (
          All-append (Has s₄.types_to_sort) (put_off (calls_before g n)) (children_of n)
            (All-map to_last (put_off (calls_before g n)) qs) cs) in
      let declared_kept = λ (x : Ref) (h : Has s₂.sorted_types x). last.kept x (kept x h) in
      record {
        kept = λ x h. declared_kept x (step.kept x h);
        seen = λ x h.
            let h' : Has (r ∷ s.visited) x = ground arith in
            subst (λ l. Has l x) (sym same_v ∙ sym same_v') (step.seen x h');
        queued =
            let (more, q, h) = step.queued in
            let (more', q', h') = last.queued in
            (
              more ++ more',
              q' ∙ ap (λ l. l ++ more') (same_q ∙ q) ∙ append_assoc s.types_to_sort more more',
              All-append (Exists g) more more' h h',
            );
        handled = λ x h. elim (step.handled x (subst (λ l. Has l x) (same_v' ∙ same_v) h)) [
          | inr (dx, all) ↦
              inr (Declared-mono declared_kept dx, All-map to_last (delayed_at g x) all)
          | inl seen ↦ elim (Bool-cases (x == r)) [
            | inr other ↦ inl (ground arith)
            | inl same ↦ inr (
                subst
                  (λ y. Declared g s₄.sorted_types y × All (Has s₄.types_to_sort) (delayed_at g y))
                  (sym (eq_of_== x r same)) (d, all_put_off))
          ]
        ];
        untouched = λ x h. elim (added x (subst (λ l. Has l x) same_s h)) [
          | inr same ↦ inr (subst (λ y. contains s.visited y ≡ false) (sym same) new)
          | inl old ↦ elim (step.untouched x old) [
            | inl older ↦ inl older
            | inr newer ↦ inr (ground arith)
          ]
        ];
        spent =
            let p : pending g s₃ ≡ pending g s₂ =
              ap (λ v. unvisited g v (length g.nodes) + length s₃.types_to_sort) same_v
              ∙ ap (λ q. unvisited g s₂.visited (length g.nodes) + length q) same_q in
            omega (arith, p, mark, w, step.spent, last.spent);
      }

  -- `visit` of a new node `r`, entered from the state `s`.
  pub visit_node-Steps :
      (accept : Ref → TopoSorter → Outcome TopoSorter) (r : Ref) (n : Node) (s : TopoSorter)
      → deref g r ≡ some n
      → contains s.visited r ≡ false
      → All (Below g rank accept (rank r)) (needs g n)
      → All (Exists g) (mentions n)
      → IsValid g rank (suc (rank r)) s
      → (s' : TopoSorter) × (visit_node g accept r n (record s { visited = r ∷ s.visited }) ≡ ok s')
        × Step g 0 s s'
        × Sorted g s'.sorted_types
        × IsMarked g s'
        × Declared g s'.sorted_types r
        × Has s'.visited r
  unfolding visit_node
  visit_node-Steps accept r n s e new needed mentioned v =
      let below =
        subst (All (Below g rank accept (rank r))) (sym (firsts-calls_before g n)) needed in
      let (there, here') =
        All-split (Exists g) (targets (calls_before g n)) (children_of n)
          (subst (All (Exists g)) (sym (targets-calls_before g n)) mentioned) in
      let (_, here) = All-parts (Exists g) (calls_before g n) there in
      let s₁ = record s { visited = r ∷ s.visited } in
      let v₁ : IsValid g rank (rank r) s₁ = entered s r v in
      let (s₂, e₂, step, ordered, marked, ds, qs) =
        calls g rank accept (rank r) (calls_before g n) s₁ below here v₁ in
      let seen₂ : Has s₂.visited r = step.seen r (marked_self s r) in
      let new₂ : contains s₂.sorted_types r ≡ false = not_appended s s₂ r new v.marked step in
      let (s₃, e₃, ordered₃, d₃, same_v, same_q, kept, added) =
        appended g rank r n s₂ e new₂ ordered
          (subst (All (Declared g s₂.sorted_types)) (firsts-calls_before g n) ds) in
      let (last, all, same_s, same_v') = Step-accept_all_after g (children_of n) s₃ here' in
      let d₄ = subst (λ l. Declared g l r) (sym same_s) d₃ in
      let finish = λ (t : TopoSorter).
        let o : Outcome TopoSorter =
          ok (accept_all_after (children_of n) (if is_sorted n then push_sorted r t else t)) in
        o in
      (
        accept_all_after (children_of n) s₃,
        ap (λ (o : Outcome TopoSorter). o >>= finish) e₂
            ∙ ap
                (λ (t : TopoSorter).
                  let o : Outcome TopoSorter = ok (accept_all_after (children_of n) t) in o)
                e₃,
        composed r n s s₂ s₃ (accept_all_after (children_of n) s₃) e new step same_v same_q kept
            added last same_s same_v' d₄ qs all,
        subst (Sorted g) (sym same_s) ordered₃,
        λ x h. elim (added x (subst (λ l. Has l x) same_s h)) [
          | inl old ↦ subst (λ l. Has l x) (sym same_v ∙ sym same_v') (marked x old)
          | inr same ↦
              subst (Has (accept_all_after (children_of n) s₃).visited) (sym same)
                (subst (λ l. Has l r) (sym same_v ∙ sym same_v') seen₂)
        ],
        d₄,
        subst (λ l. Has l r) (sym same_v ∙ sym same_v') seen₂,
      )
