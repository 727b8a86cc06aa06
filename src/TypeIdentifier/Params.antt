-- ===== src/TypeIdentifier/Params.antt =====
-- What a parameter is behind the pass: settled, so that the pass leaves it as it is.
use object_introspection.Prelude.{
  ℕ, String, ◌≡◌, refl, sym, ◌∙◌, ap, subst, List, Option, none, some, Bool, true, false, ok,
  ok-injective, dangling, of_option, >>=-eq-ok, if◌then◌else◌, ◌==◌, Bool-cases, inl, inr, ◌⊎◌,
}
use object_introspection.Types.{
  is_allocator, Ref, NodeId, TemplateParam, ContainerInfo, Class, Container, Node, container,
}
use object_introspection.Store.{TypeGraph, deref, make_type}
use object_introspection.Store.Ids.{deref-make_type_new}
use object_introspection.Store.Extension.{Extends, Extends-make_type}
use object_introspection.Visitor.Loads.{of_option-eq_ok}
use object_introspection.Layout.{size_of, align_of}
use object_introspection.NameGen.{name_at}
use object_introspection.Flattener.{new_param}
use object_introspection.IdentifyContainers.{new_container}
use object_introspection.TypeIdentifier.{
  Identifier, find_dummy, is_replaced, dummy_for, pass_through, stub_made, stub_param, made,
  first_param, new_dummy, new_allocator, replace_param, identify_param, contains_index, found_info,
}

-- Every dummy that is remembered is a container.
abbrev pub HasContainers : Identifier → Type 0
HasContainers s =
    (id : NodeId) (r : Ref)
    → find_dummy id s.dummies ≡ some r
    → (c : Container) × (deref s.graph r ≡ some (container c))

-- The type was replaced, or it is neither passed through nor a stub.
abbrev pub IsSettled : List ContainerInfo → List ℕ → TypeGraph → ℕ → TemplateParam → Type 0
IsSettled infos stubs g i p =
    (n : Node) × (deref g p.type ≡ some n)
    × ((is_replaced n ≡ true) ⊎ (found_info infos n ≡ none) × (contains_index i stubs ≡ false))

pub IsSettled-Extends :
    (infos : List ContainerInfo) (stubs : List ℕ) (g g' : TypeGraph) (i : ℕ) (p : TemplateParam)
    → Extends g g'
    → IsSettled infos stubs g i p
    → IsSettled infos stubs g' i p
IsSettled-Extends infos stubs g g' i p more (n, at, h) = (n, more p.type n at, h)

module _ (depth : ℕ) (infos : List ContainerInfo) (stubs : List ℕ) where
  -- The pass leaves a settled parameter as it is.
  pub identify_param-IsSettled :
      (i : ℕ) (p : TemplateParam) (s : Identifier)
      → IsSettled infos stubs s.graph i p
      → identify_param depth infos stubs i p s ≡ ok (p, s)
  unfolding identify_param replace_param
  identify_param-IsSettled i p s (n, at, inl old) = rw (at, old) refl
  identify_param-IsSettled i p s (n, at, inr (found, kept)) = elim (Bool-cases (is_replaced n)) [
    | inl old ↦ rw (at, old) refl
    | inr new ↦ rw (at, new, found, kept) refl
  ]

  -- The state grew, and the parameter is settled.
  abbrev pub Settles : ℕ → Identifier → TemplateParam × Identifier → Type 0
  Settles i s (q, s') =
      IsSettled infos stubs s'.graph i q × Extends s.graph s'.graph × HasContainers s'

  dummy_for-Settles :
      (i : ℕ) (info : ContainerInfo) (r : Ref) (c : Class) (s : Identifier) (o : Option Ref)
      → find_dummy c.id s.dummies ≡ o
      → HasContainers s
      → Settles i s (new_param (dummy_for info r c s o).0, (dummy_for info r c s o).1)
  unfolding dummy_for
  dummy_for-Settles i info r c s (some d) found held =
      let (k, at) = held c.id d found in ((container k, at, inl refl), (λ x n e. e), held)
  dummy_for-Settles i info r c s none found held =
      let make : NodeId → Node =
        λ id. container (new_container info c.size (some r) c.template_params id) in
      let more = Extends-make_type make s.graph in
      let at = deref-make_type_new make s.graph in
      (
        (make s.graph.next_id, at, inl refl),
        more,
        λ id x e. elim (Bool-cases (c.id == id)) [
          | inl same ↦
              let e' = rw same at e in
              let new_x : (make_type make s.graph).0 ≡ x = cc e' in
              (
                new_container info c.size (some r) c.template_params s.graph.next_id,
                ap (deref (make_type make s.graph).1) (sym new_x) ∙ at,
              )
          | inr other ↦
              let e' = rw other at e in let (k, at') = held id x e' in (k, more x (container k) at')
        ],
      )

  -- A new node that replaces a parameter.
  made-Settles :
      (i : ℕ) (make : NodeId → Node) (s : Identifier)
      → ((id : NodeId) → is_replaced (make id) ≡ true)
      → HasContainers s
      → Settles i s (made make s)
  made-Settles i make s replaced held =
      let more = Extends-make_type make s.graph in
      (
        (make s.graph.next_id, deref-make_type_new make s.graph, inl (replaced s.graph.next_id)),
        more,
        λ id r e. let (c, at) = held id r e in (c, more r (container c) at),
      )

  stub_made-Settles :
      (i : ℕ) (n : Node) (size align : ℕ) (name : String) (b : Bool) (s : Identifier)
      (q : TemplateParam × Identifier)
      → HasContainers s
      → stub_made n size align name b s ≡ ok q
      → Settles i s q
  unfolding stub_made
  stub_made-Settles i n size align name true s q held h =
      let (type, _, h₁) = >>=-eq-ok (first_param n) _ h in
      let (type_name, _, h₂) = >>=-eq-ok (name_at s.graph type) _ h₁ in
      subst (Settles i s) (ok-injective h₂)
        (made-Settles i (new_allocator type type_name size align name) s (λ id. refl) held)
  stub_made-Settles i n size align name false s q held h =
      subst (Settles i s) (ok-injective h)
        (made-Settles i (new_dummy size align name) s (λ id. refl) held)

  stub_param-Settles :
      (i : ℕ) (r : Ref) (n : Node) (s : Identifier) (q : TemplateParam × Identifier)
      → HasContainers s
      → stub_param depth r n s ≡ ok q
      → Settles i s q
  unfolding stub_param
  stub_param-Settles i r n s q held h =
      let (size, _, h₁) = >>=-eq-ok (size_of depth s.graph r) _ h in
      let (align, _, h₂) = >>=-eq-ok (align_of depth s.graph r) _ h₁ in
      let (name, _, h₃) = >>=-eq-ok (name_at s.graph r) _ h₂ in
      stub_made-Settles i n (if size == 1 then 0 else size) align name (is_allocator n) s q held h₃

  replace_param-Settles :
      (i : ℕ) (p : TemplateParam) (n : Node) (s : Identifier) (o : Option (ContainerInfo × Class))
      (r : TemplateParam × Identifier)
      → found_info infos n ≡ o
      → deref s.graph p.type ≡ some n
      → HasContainers s
      → replace_param depth infos stubs i p n o s ≡ ok r
      → Settles i s r
  unfolding replace_param pass_through
  replace_param-Settles i p n s (some (info, c)) r found at held h =
      subst (Settles i s) (ok-injective h)
        (dummy_for-Settles i info p.type c s (find_dummy c.id s.dummies) refl held)
  replace_param-Settles i p n s none r found at held h =
      elim (Bool-cases (contains_index i stubs)) [
        | inl stub ↦ stub_param-Settles i p.type n s r held (rw stub at h)
        | inr kept ↦
            let h' = rw kept at h in
            subst (Settles i s) (ok-injective h') ((n, at, inr (found, kept)), (λ x k e. e), held)
      ]

  pub identify_param-Settles :
      (i : ℕ) (p : TemplateParam) (s : Identifier) (r : TemplateParam × Identifier)
      → HasContainers s
      → identify_param depth infos stubs i p s ≡ ok r
      → Settles i s r
  unfolding identify_param
  identify_param-Settles i p s r held h =
      let (n, e, h₁) = >>=-eq-ok (of_option dangling (deref s.graph p.type)) _ h in
      let at = of_option-eq_ok (deref s.graph p.type) n e in
      elim (Bool-cases (is_replaced n)) [
        | inl old ↦
            let h₂ = rw old at h₁ in
            subst (Settles i s) (ok-injective h₂) ((n, at, inl old), (λ x k e. e), held)
        | inr new ↦
            let h₂ = rw new at h₁ in
            replace_param-Settles i p n s (found_info infos n) r refl at held h₂
      ]
