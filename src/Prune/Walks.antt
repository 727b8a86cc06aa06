-- ===== src/Prune/Walks.antt =====
-- The whole pass keeps the layout of all types.
use object_introspection.Prelude.{
  ℕ, zero, suc, ◌≡◌, refl, ◌∙◌, subst, List, [], ◌∷◌, some, none, Option, Outcome, ok, of_option,
  dangling, for_each, >>=-eq-ok, ok-injective, Bool-cases, inl, inr, Option-cases,
}
use object_introspection.Types.{
  Ref, Class, Container, Node, incomplete, class_node, container, primitive, enum_node, array,
  typedef, pointer, reference, dummy, dummy_allocator, capture_keys,
}
use object_introspection.Store.{TypeGraph, deref}
use object_introspection.Visitor.{
  load_class, load_container, visit_class, visit_container, visit_default, accept_with,
  accept_pointer, param_types, parent_types, member_types,
}
use object_introspection.Visitor.Loads.{load_class-eq_ok, load_container-eq_ok}
use object_introspection.Layout.{size_of, align_of}
use object_introspection.Flattener.{Tracked, enter}
use object_introspection.Prune.{pruned_class, pruned_container, visit_node, visit, prune}
use object_introspection.Prune.Sizes.{SameLayout, put-SameLayout}

-- Every run that returns keeps the layout.
abbrev pub Keeps : (Tracked → Outcome Tracked) → Type 0
Keeps m = (s s' : Tracked) → m s ≡ ok s' → SameLayout s.graph s'.graph

same_trans : {g g' g'' : TypeGraph} → SameLayout g g' → SameLayout g' g'' → SameLayout g g''
same_trans p q = record {
  sizes = λ f r. q.sizes f r ∙ p.sizes f r;
  aligns = λ f r. q.aligns f r ∙ p.aligns f r;
}

same_self : (g : TypeGraph) → SameLayout g g
same_self g = record { sizes = λ f r. refl; aligns = λ f r. refl }

keeps_ok : {s s' : Tracked} → Path (Outcome Tracked) (ok s) (ok s') → SameLayout s.graph s'.graph
keeps_ok {s = s} h = subst (λ t. SameLayout s.graph t.graph) (ok-injective h) (same_self s.graph)

for_each-Keeps :
    {X : Type 0} (body : X → Tracked → Outcome Tracked)
    → ((x : X) → Keeps (body x))
    → (xs : List X) → Keeps (for_each body xs)
for_each-Keeps body each [] s s' h = keeps_ok h
for_each-Keeps body each (x ∷ xs) s s' h =
    let (t, e, e') = >>=-eq-ok (body x s) (for_each body xs) h in
    same_trans (each x s t e) (for_each-Keeps body each xs t s' e')

module _ (accept : Ref → Tracked → Outcome Tracked) (each : (r : Ref) → Keeps (accept r)) where
  visit_class-Keeps : (c : Class) → Keeps (visit_class accept c)
  unfolding visit_class
  visit_class-Keeps c s s' h =
      let (s₁, e₁, h₁) = >>=-eq-ok (for_each accept (param_types c.template_params) s) _ h in
      let (s₂, e₂, h₂) = >>=-eq-ok (for_each accept (parent_types c.parents) s₁) _ h₁ in
      let (s₃, e₃, h₃) = >>=-eq-ok (for_each accept (member_types c.members) s₂) _ h₂ in
      let all = for_each-Keeps accept each in
      same_trans (all (param_types c.template_params) s s₁ e₁) (
        same_trans (all (parent_types c.parents) s₁ s₂ e₂)
          (same_trans (all (member_types c.members) s₂ s₃ e₃) (all c.children s₃ s' h₃)))

  accept_pointer-Keeps : (o : Option Ref) → Keeps (accept_pointer accept o)
  accept_pointer-Keeps none s s' h = keeps_ok h
  accept_pointer-Keeps (some r) s s' h = each r s s' h

  visit_container-Keeps : (c : Container) → Keeps (visit_container accept c)
  unfolding visit_container
  visit_container-Keeps c s s' h =
      let (s₁, e₁, h₁) = >>=-eq-ok (for_each accept (param_types c.template_params) s) _ h in
      same_trans (for_each-Keeps accept each (param_types c.template_params) s s₁ e₁)
        (accept_pointer-Keeps c.underlying s₁ s' h₁)

  visit_node-Keeps : (r : Ref) (n : Node) → Keeps (visit_node accept r n)
  unfolding visit_node visit_default
  visit_node-Keeps r (class_node c) s s' h =
      let (t, e, h₁) = >>=-eq-ok (visit_class accept c s) _ h in
      let (c', e', h₂) = >>=-eq-ok (load_class t.graph r) _ h₁ in
      same_trans (visit_class-Keeps c s t e) (
        same_trans
          (put-SameLayout t.graph r (class_node c') (class_node (pruned_class c'))
            (load_class-eq_ok t.graph r c' e') (λ rec. (refl, refl)))
          (keeps_ok h₂))
  visit_node-Keeps r (container c) s s' h =
      let (t, e, h₁) = >>=-eq-ok (visit_container accept c s) _ h in
      let (c', e', h₂) = >>=-eq-ok (load_container t.graph r) _ h₁ in
      same_trans (visit_container-Keeps c s t e) (
        same_trans
          (put-SameLayout t.graph r (container c') (container (pruned_container c'))
            (load_container-eq_ok t.graph r c' e') (λ rec. (refl, refl)))
          (keeps_ok h₂))
  visit_node-Keeps r (incomplete t) s s' h = keeps_ok h
  visit_node-Keeps r (primitive t) s s' h = keeps_ok h
  visit_node-Keeps r (enum_node t) s s' h = keeps_ok h
  visit_node-Keeps r (array t) s s' h = each t.element_type s s' h
  visit_node-Keeps r (typedef t) s s' h = each t.underlying_type s s' h
  visit_node-Keeps r (pointer t) s s' h = each t.pointee_type s s' h
  visit_node-Keeps r (reference t) s s' h = each t.pointee_type s s' h
  visit_node-Keeps r (dummy t) s s' h = keeps_ok h
  visit_node-Keeps r (dummy_allocator t) s s' h = each t.type s s' h
  visit_node-Keeps r (capture_keys t) s s' h = each t.underlying_type s s' h

  visit-Keeps : (r : Ref) → Keeps (visit accept r)
  unfolding visit
  visit-Keeps r s s' h =
      let (n, e, h') = >>=-eq-ok (of_option dangling (deref s.graph r)) _ h in
      visit_node-Keeps r n s s' h'

enter-graph : (r : Ref) (s : Tracked) → (enter r s).1.graph ≡ s.graph
enter-graph r s = elim (Option-cases (deref s.graph r)) [
  | inl e ↦ rw (e, enter)
  | inr (n, e) ↦ rw (e, enter)
]

accept-Keeps : (fuel : ℕ) (r : Ref) → Keeps (accept_with enter visit fuel r)
unfolding accept_with
accept-Keeps zero r s s' h = cc
accept-Keeps (suc fuel) r s s' h = elim (Bool-cases (enter r s).0) [
  | inl seen ↦ subst (λ g. SameLayout g s'.graph) (enter-graph r s) (keeps_ok (rw seen at h))
  | inr new ↦
      subst (λ g. SameLayout g s'.graph) (enter-graph r s)
        (visit-Keeps (accept_with enter visit fuel) (accept-Keeps fuel) r (enter r s).1 s'
          (rw new at h))
]

-- Where the pass returns, every type of the graph has the size and the alignment that it had, at
-- any fuel, errors included.
pub prune-SameLayout :
    (fuel : ℕ) (s s' : Tracked)
    → prune fuel s ≡ ok s'
    → (f : ℕ) (r : Ref)
    → (size_of f s'.graph r ≡ size_of f s.graph r) × (align_of f s'.graph r ≡ align_of f s.graph r)
unfolding prune
prune-SameLayout fuel s s' h f r =
    let same =
      for_each-Keeps (accept_with enter visit fuel) (accept-Keeps fuel) s.graph.root_types s s' h in
    (same.sizes f r, same.aligns f r)
