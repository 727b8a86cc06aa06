-- ===== src/NameGen/Runs.antt =====
-- The whole pass: the names of the classes, enums and typedefs are all different.
use object_introspection.Prelude.{
  ℕ, zero, suc, ◌≡◌, ◌≢◌, refl, sym, ◌∙◌, ap, subst, List, [], ◌∷◌, none, some, false, Bool-cases,
  inl, inr, String, Outcome, ok, ok-injective, >>=-eq-ok, ◌>>=◌, for_each, of_option, dangling,
  arith,
}
use object_introspection.Types.{
  Ref, TemplateParam, Node, incomplete, class_node, container, primitive, enum_node, array, typedef,
  pointer, reference, dummy, dummy_allocator, capture_keys,
}
use object_introspection.Visitor.Loads.{of_option-eq_ok}
use object_introspection.Store.{TypeGraph, deref}
use object_introspection.Visitor.{contains, accept_with, param_types, load_container}
use object_introspection.Visitor.Links.{class_links, visit_class-links}
use object_introspection.NameGen.{
  Naming, enter, write, visit_node, visit, generate_names, named_class, named_enum, named_typedef,
  named_container, named_array, named_pointer, named_allocator, named_capture, named_incomplete,
}
use object_introspection.NameGen.Texts.{remove_template_params}
use object_introspection.NameGen.Numbers.{read_number}
use object_introspection.NameGen.Labels.{
  label, Seen, HasLabel, Named, Later, Later-self, Later-trans, Later-again, enter-Later,
  write-Later, label-Later,
}

-- Every run that returns leads to a later state.
abbrev pub Leads : (Naming → Outcome Naming) → Type 0
Leads m = (s s' : Naming) → m s ≡ ok s' → Named s → Later s s'

Leads-ok : {s t s' : Naming} → ok t ≡ ok s' → Later s t → Later s s'
Leads-ok {s = s} h p = subst (Later s) (ok-injective h) p

for_each-Leads :
    {X : Type 0} (body : X → Naming → Outcome Naming)
    → ((x : X) → Leads (body x))
    → (xs : List X) → Leads (for_each body xs)
for_each-Leads body each [] s s' h i = Leads-ok h (Later-self s i)
for_each-Leads body each (x ∷ xs) s s' h i =
    let (t, e, h') = >>=-eq-ok (body x s) (for_each body xs) h in
    let p = each x s t e i in Later-trans s t s' p (for_each-Leads body each xs t s' h' p.named)

Seen-enter : (r : Ref) (s : Naming) → Seen (enter r s).1 r
Seen-enter r s = ground arith

module _ (accept : Ref → Naming → Outcome Naming) (each : (r : Ref) → Leads (accept r)) where
  -- The end of a visit writes a node without a label at the address visited.
  abbrev Rewrites : Ref → (Naming → Outcome Naming) → Type 0
  Rewrites r end =
      (t s' : Naming)
      → end t ≡ ok s'
      → (n : Node) × (label (some n) ≡ none) × Path (Outcome Naming) (ok (write r n t)) (ok s')

  rewritten :
      (r : Ref) (s s' : Naming) (walk end : Naming → Outcome Naming)
      → Leads walk
      → Rewrites r end
      → label (deref s.graph r) ≡ none
      → (walk (enter r s).1 >>= end) ≡ ok s'
      → Named s
      → Later s s'
  rewritten r s s' walk end leads rewrites bare h i =
      let (t, e, h₁) = >>=-eq-ok (walk (enter r s).1) end h in
      let (n, bare_n, h₂) = rewrites t s' h₁ in
      let p = enter-Later r s bare i in
      let q = leads (enter r s).1 t e p.named in
      let u = write-Later r n t bare_n (q.same r (Seen-enter r s) ∙ bare) q.named in
      Leads-ok h₂ (Later-trans s t _ (Later-trans s (enter r s).1 t p q) u)

  -- What is written is made by one call.
  made :
      {A : Type 0} (r : Ref) (name : Naming → Outcome A) (make : A → Node)
      → ((a : A) → label (some (make a)) ≡ none)
      → Rewrites r (λ t. name t >>= λ a. ok (write r (make a) t))
  made r name make bare t s' h = let (a, _, h') = >>=-eq-ok (name t) _ h in (make a, bare a, h')

  container-Leads :
      (r : Ref) (s s' : Naming) (ps qs : List TemplateParam)
      → label (deref s.graph r) ≡ none
      → (elim ps [
        | [] ↦ ok (enter r s).1
        | _ ∷ _ ↦ for_each accept (param_types qs) (enter r s).1 >>= λ s'.
            load_container s'.graph r >>= λ c'.
            named_container s'.graph c' >>= λ c''. ok (write r (container c'') s')
      ])
        ≡ ok s'
      → Named s
      → Later s s'
  container-Leads r s s' [] qs bare h i = Leads-ok h (enter-Later r s bare i)
  container-Leads r s s' (p ∷ ps) qs bare h i =
      rewritten r s s' (for_each accept (param_types qs))
        (λ t. load_container t.graph r >>= λ c'.
          named_container t.graph c' >>= λ c''. ok (write r (container c'') t))
        (for_each-Leads accept each (param_types qs))
        (λ t s' h.
          let (c, _, h₁) = >>=-eq-ok (load_container t.graph r) _ h in
          made r (λ t. named_container t.graph c) container (λ a. refl) t s' h₁)
        bare h i

  visit_node-Leads :
      (r : Ref) (k : Node) (s s' : Naming)
      → contains s.visited r ≡ false
      → deref s.graph r ≡ some k
      → visit_node accept r k (enter r s).1 ≡ ok s'
      → Named s
      → Later s s'
  unfolding visit_node named_class named_enum named_typedef
  visit_node-Leads r (class_node c) s s' new at h i =
      let p =
        label-Later r (class_node c) (class_node (named_class s.n c))
          (remove_template_params c.name) s new at refl i in
      Later-trans s _ s' p (
        for_each-Leads accept each (class_links (named_class s.n c)) _ s'
          (sym (visit_class-links accept (named_class s.n c) _) ∙ h) p.named)
  visit_node-Leads r (enum_node e) s s' new at h i =
      Leads-ok h (label-Later r (enum_node e) (enum_node (named_enum s.n e)) e.name s new at refl i)
  visit_node-Leads r (typedef t) s s' new at h i =
      let p =
        label-Later r (typedef t) (typedef (named_typedef s.n t)) (remove_template_params t.name) s
          new at refl i in
      Later-trans s _ s' p (each t.underlying_type _ s' h p.named)
  visit_node-Leads r (primitive k) s s' new at h i = Leads-ok h (enter-Later r s (ap label at) i)
  visit_node-Leads r (dummy d) s s' new at h i = Leads-ok h (enter-Later r s (ap label at) i)
  visit_node-Leads r (container c) s s' new at h i =
      container-Leads r s s' c.template_params c.template_params (ap label at) h i
  visit_node-Leads r (incomplete t) s s' new at h i =
      rewritten r s s' ok _ (λ t t' e j. Leads-ok e (Later-self t j))
        (made r (λ u. named_incomplete u.graph t) incomplete (λ a. refl)) (ap label at) h i
  visit_node-Leads r (array t) s s' new at h i =
      rewritten r s s' (accept t.element_type) _ (each t.element_type)
        (made r (λ u. named_array u.graph t) array (λ a. refl)) (ap label at) h i
  visit_node-Leads r (pointer t) s s' new at h i =
      rewritten r s s' (accept t.pointee_type) _ (each t.pointee_type)
        (made r (λ u. named_pointer "*" u.graph t) pointer (λ a. refl)) (ap label at) h i
  visit_node-Leads r (reference t) s s' new at h i =
      rewritten r s s' (accept t.pointee_type) _ (each t.pointee_type)
        (made r (λ u. named_pointer "&" u.graph t) reference (λ a. refl)) (ap label at) h i
  visit_node-Leads r (dummy_allocator t) s s' new at h i =
      rewritten r s s' (accept t.type) _ (each t.type)
        (made r (λ u. named_allocator u.graph t) dummy_allocator (λ a. refl)) (ap label at) h i
  visit_node-Leads r (capture_keys t) s s' new at h i =
      rewritten r s s' (accept t.underlying_type) _ (each t.underlying_type)
        (made r (λ u. named_capture u.graph t) capture_keys (λ a. refl)) (ap label at) h i

accept-Leads : (fuel : ℕ) (r : Ref) → Leads (accept_with enter visit fuel r)
unfolding accept_with visit
accept-Leads zero r s s' h i = cc
accept-Leads (suc fuel) r s s' h i = elim (Bool-cases (contains s.visited r)) [
  | inl seen ↦ Leads-ok (rw seen at h) (Later-again r s seen i)
  | inr new ↦
      let (k, e, h') = >>=-eq-ok (of_option dangling (deref s.graph r)) _ (rw new at h) in
      visit_node-Leads (accept_with enter visit fuel) (accept-Leads fuel) r k s s' new
        (of_option-eq_ok (deref s.graph r) k e) h' i
]

-- Where the pass returns, two classes, enums or typedefs that it has visited have different names if
-- they are different nodes.
pub generate_names-apart :
    (fuel : ℕ) (g : TypeGraph) (s : Naming)
    → generate_names fuel g ≡ ok s
    → (x y : Ref) (a b : String) → Seen s x
    → Seen s y
    → HasLabel s x a
    → HasLabel s y b
    → x ≢ y
    → a ≢ b
unfolding generate_names
generate_names-apart fuel g s h x y a b seen seen' l l' ne e =
    let run =
      for_each-Leads (accept_with enter visit fuel) (accept-Leads fuel) g.root_types
        (record { visited = []; n = 0; graph = g }) s h
        (record { below = λ x a k l. cc; apart = λ x y a b k k' l l' eq. cc }) in
    ne (run.named.apart x y a b seen seen' l l' (ap (read_number 0) e))
