-- ===== src/TopoSorter/Steps.antt =====
-- What a run of the sorter may change: the relation between its state before and after.
use mathlib.Core.List.{append_assoc, append-nil}
use object_introspection.Prelude.{
  All-map, ℕ, ◌+◌, ◌≡◌, ◌<◌, ◌≤◌, refl, List, [], ◌∷◌, ◌++◌, false, arith, length, All, Bool-cases,
  inl, inr, ◌⊎◌, sym, ◌∙◌, ap, subst, length-append, All-append,
}
use object_introspection.Types.{Ref}
use object_introspection.Store.{TypeGraph}
use object_introspection.Visitor.{contains}
use object_introspection.TopoSorter.{TopoSorter, accept_after, accept_all_after}
use object_introspection.TopoSorter.Order.{
  Exists, Has, Declared, Declared-mono, Sorted, delayed_at, unvisited, Has-append_left,
  Has-append_end,
}

module _ (g : TypeGraph) where
  -- The turns of the loop that are left: the queue, and what new nodes can still add to it.
  abbrev pub pending : TopoSorter → ℕ
  pending s = unvisited g s.visited (length g.nodes) + length s.types_to_sort

  -- From `s` to `s'` with at most `extra` new turns: nothing is lost, each node visited on the way is
  -- declared and has put off what it had to, and nothing visited before is appended.
  pub record Step (extra : ℕ) (s s' : TopoSorter) : Type 0 where
    pub kept : (x : Ref) → Has s.sorted_types x → Has s'.sorted_types x
    pub seen : (x : Ref) → Has s.visited x → Has s'.visited x
    pub queued :
        (more : List Ref) × (s'.types_to_sort ≡ s.types_to_sort ++ more) × All (Exists g) more
    pub handled :
        (x : Ref)
        → Has s'.visited x
        → Has s.visited x
          ⊎ (Declared g s'.sorted_types x × All (Has s'.types_to_sort) (delayed_at g x))
    pub untouched :
        (x : Ref) → Has s'.sorted_types x → Has s.sorted_types x ⊎ (contains s.visited x ≡ false)
    pub spent : pending s' ≤ pending s + extra

  pub Step-refl : (s : TopoSorter) → Step 0 s s
  Step-refl s = record {
    kept = λ x h. h;
    seen = λ x h. h;
    queued = ([], sym (append-nil s.types_to_sort), tt);
    handled = λ x h. inl h;
    untouched = λ x h. inl h;
    spent = omega arith;
  }

  pub queue_kept :
      {b : ℕ} {s s' : TopoSorter}
      → Step b s s'
      → (x : Ref) → Has s.types_to_sort x
      → Has s'.types_to_sort x
  queue_kept {s = s} step x h =
      let (more, e, _) = step.queued in
      subst (λ q. Has q x) (sym e) (Has-append_left s.types_to_sort more x h)

  pub Step-trans :
      {a b c : ℕ} {s t u : TopoSorter} → b + c ≤ a → Step b s t → Step c t u → Step a s u
  Step-trans {s = s} {t = t} {u = u} fits p q = record {
    kept = λ x h. q.kept x (p.kept x h);
    seen = λ x h. q.seen x (p.seen x h);
    queued =
        let (more, e, all) = p.queued in
        let (more', e', all') = q.queued in
        (
          more ++ more',
          e' ∙ ap (λ l. l ++ more') e ∙ append_assoc s.types_to_sort more more',
          All-append (Exists g) more more' all all',
        );
    handled = λ x h. elim (q.handled x h) [
      | inr done ↦ inr done
      | inl old ↦ elim (p.handled x old) [
        | inl older ↦ inl older
        | inr (d, all) ↦ inr (Declared-mono q.kept d, All-map (queue_kept q) (delayed_at g x) all)
      ]
    ];
    untouched = λ x h. elim (q.untouched x h) [
      | inl old ↦ p.untouched x old
      | inr new ↦ elim (Bool-cases (contains s.visited x)) [
        | inr newer ↦ inr newer
        | inl was ↦ absurd (let now = p.seen x was in cc)
      ]
    ];
    spent = omega (arith, p.spent, q.spent, fits);
  }

  pub Step-accept_after : (r : Ref) (s : TopoSorter) → Exists g r → Step 1 s (accept_after r s)
  unfolding accept_after
  Step-accept_after r s here = record {
    kept = λ x h. h;
    seen = λ x h. h;
    queued = (r ∷ [], refl, (here, tt));
    handled = λ x h. inl h;
    untouched = λ x h. inl h;
    spent = omega (arith, length-append s.types_to_sort (r ∷ []));
  }

  -- Putting off a list of types appends them to the queue, and does nothing else.
  pub Step-accept_all_after :
      (rs : List Ref) (s : TopoSorter)
      → All (Exists g) rs
      → Step (length rs) s (accept_all_after rs s)
        × All (Has (accept_all_after rs s).types_to_sort) rs
        × ((accept_all_after rs s).sorted_types ≡ s.sorted_types)
        × ((accept_all_after rs s).visited ≡ s.visited)
  unfolding accept_all_after accept_after
  Step-accept_all_after [] s here = (Step-refl s, tt, refl, refl)
  Step-accept_all_after (r ∷ rs) s here =
      let (step, all, same, same') = Step-accept_all_after rs (accept_after r s) here.1 in
      (
        Step-trans (omega arith) (Step-accept_after r s here.0) step,
        (queue_kept step r (Has-append_end s.types_to_sort r), all),
        same,
        same',
      )

  -- Everything appended has been visited.
  abbrev pub IsMarked : TopoSorter → Type 0
  IsMarked s = (x : Ref) → Has s.sorted_types x → Has s.visited x

  module _ (rank : Ref → ℕ) where
    -- The visited nodes of a rank below `k` are declared: none of them is still being visited.
    pub record IsValid (k : ℕ) (s : TopoSorter) : Type 0 where
      pub clean : (x : Ref) → Has s.visited x → rank x < k → Declared g s.sorted_types x
      pub ordered : Sorted g s.sorted_types
      pub marked : IsMarked s

    pub IsValid-below : {j k : ℕ} {s : TopoSorter} → j ≤ k → IsValid k s → IsValid j s
    IsValid-below h v = record {
      clean = λ x seen low. v.clean x seen (omega arith);
      ordered = v.ordered;
      marked = v.marked;
    }

    pub IsValid-Step :
        {b k : ℕ} {s s' : TopoSorter}
        → Step b s s'
        → Sorted g s'.sorted_types
        → IsMarked s'
        → IsValid k s
        → IsValid k s'
    IsValid-Step step ordered marked v = record {
      clean = λ x seen low. elim (step.handled x seen) [
        | inl old ↦ Declared-mono step.kept (v.clean x old low)
        | inr (d, all) ↦ d
      ];
      ordered = ordered;
      marked = marked;
    }

    pub IsValid-accept_after :
        {k : ℕ} (r : Ref) (s : TopoSorter) → IsValid k s → IsValid k (accept_after r s)
    unfolding accept_after
    IsValid-accept_after r s v = record { clean = v.clean; ordered = v.ordered; marked = v.marked }

  pub accept_after_queued : (r : Ref) (s : TopoSorter) → Has (accept_after r s).types_to_sort r
  unfolding accept_after
  accept_after_queued r s = Has-append_end s.types_to_sort r
