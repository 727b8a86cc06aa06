-- ===== src/IdentifyContainers/Nodes.antt =====
-- The visits of the pass, where `mutate` below them makes what it returns known.
use mathlib.Core.List.{Memᴰ}
use object_introspection.Prelude.{
  ◌≡◌, String, refl, subst, sym, ap, List, [], ◌∷◌, none, some, Option, map, Outcome, ok,
  ok-injective, >>=-eq-ok, All-append,
}
use object_introspection.Types.{
  Ref, TemplateParam, Parent, Member, ContainerInfo, Class, Container, Node, container, class_node,
  incomplete, primitive, enum_node, array, typedef, pointer, reference, dummy, dummy_allocator,
  capture_keys,
}
use object_introspection.Store.{deref}
use object_introspection.Visitor.{
  load_class, load_container, param_types, parent_types, member_types,
}
use object_introspection.RemoveMembers.Edits.{deref-put_self}
use object_introspection.Visitor.Loads.{load_class-eq_ok, load_container-eq_ok}
use object_introspection.Mutator.{
  Mutation, written, mutate_each, cast_class, mutate_child, mutate_children, mutate_class,
  mutate_params, class_set, param_set, parent_set, member_set,
}
use object_introspection.IdentifyContainers.Runs.{
  Run, Run-self, Run-trans, IsReady, IsIdentified, IsDone, AllIn, AllIn-more,
}
use object_introspection.IdentifyContainers.Steps.{Run-written, Rewrites, IsDone-written}

-- The name by which descriptions match a class.
abbrev pub name_of_class : Node → String
name_of_class (class_node c) = c.input_name
name_of_class _ = ""

cast_class-eq_ok : (o : Option Node) (p p' : Ref × Mutation) → cast_class o p ≡ ok p' → p ≡ p'
unfolding cast_class
cast_class-eq_ok none p p' h = cc
cast_class-eq_ok (some (class_node c)) p p' h = ok-injective h
cast_class-eq_ok (some (incomplete t)) p p' h = cc
cast_class-eq_ok (some (container t)) p p' h = cc
cast_class-eq_ok (some (primitive t)) p p' h = cc
cast_class-eq_ok (some (enum_node t)) p p' h = cc
cast_class-eq_ok (some (array t)) p p' h = cc
cast_class-eq_ok (some (typedef t)) p p' h = cc
cast_class-eq_ok (some (pointer t)) p p' h = cc
cast_class-eq_ok (some (reference t)) p p' h = cc
cast_class-eq_ok (some (dummy t)) p p' h = cc
cast_class-eq_ok (some (dummy_allocator t)) p p' h = cc
cast_class-eq_ok (some (capture_keys t)) p p' h = cc

module _ (infos : List ContainerInfo) where
  -- The run ended in a state in which more types are known.
  abbrev pub Leads : List Ref → Mutation → Mutation → (List Ref → Type 0) → Type 0
  Leads known s s' P = (known' : List Ref) × Run infos known s known' s' × P known'

  abbrev pub Learns : (Ref → Mutation → Outcome (Ref × Mutation)) → Type 0
  Learns mutate =
      (r : Ref) (s : Mutation) (q : Ref) (s' : Mutation) (known : List Ref)
      → mutate r s ≡ ok (q, s')
      → IsReady infos known s
      → Leads known s s' (λ known'. Memᴰ q known')

  -- The lists of a class, all of them known, are put back.
  class_set-Leads :
      (r : Ref) (c : Class) (ps : List TemplateParam) (bs : List Parent) (ms : List Member)
      (cs : List Ref) (known : List Ref) (s s₄ : Mutation) (k₄ : List Ref)
      → Run infos known s k₄ s₄
      → deref s₄.graph r ≡ some (class_node c)
      → AllIn k₄ (param_types ps)
      → AllIn k₄ (parent_types bs)
      → AllIn k₄ (member_types ms)
      → AllIn k₄ cs
      → (q : Ref) (s' : Mutation)
      → ◌≡◌ {A = Outcome (Ref × Mutation)}
          (ok (r, written r (class_node (class_set ps bs ms cs c)) s₄))
          (ok (q, s'))
      → (q ≡ r) × Leads known s s' (λ known'. IsDone known' s'.graph r)
  class_set-Leads r c ps bs ms cs known s s₄ k₄ run at in₁ in₂ in₃ in₄ q s' h =
      let n' : Node = class_node (class_set ps bs ms cs c) in
      let all =
        All-append (λ x. Memᴰ x k₄) (param_types ps) _ in₁
          (All-append (λ x. Memᴰ x k₄) (parent_types bs) _ in₂
            (All-append (λ x. Memᴰ x k₄) (member_types ms) cs in₃ in₄)) in
      let name : Rewrites (class_node c) n' = λ d e. (c, refl, ap name_of_class e) in
      let run' = Run-written infos k₄ s₄ r (class_node c) n' run.ready at name refl all in
      let done = IsDone-written infos k₄ s₄ r (class_node c) n' at all in
      subst
        (λ (p : Ref × Mutation).
          (p.0 ≡ r) × Leads known s p.1 (λ known'. IsDone known' p.1.graph r))
        (ok-injective h)
        (refl, (k₄, Run-trans infos known k₄ k₄ s s₄ (written r n' s₄) run run', done))

  module _ (mutate : Ref → Mutation → Outcome (Ref × Mutation)) (learns : Learns mutate) where
    pub each-Leads :
        {X : Type 0} (type_of : X → Ref) (set_type : X → Ref → X)
        → ((x : X) (t : Ref) → type_of (set_type x t) ≡ t)
        → (xs : List X) (s : Mutation) (ys : List X) (s' : Mutation) (known : List Ref)
        → mutate_each mutate type_of set_type xs s ≡ ok (ys, s')
        → IsReady infos known s
        → Leads known s s' (λ known'. AllIn known' (map type_of ys))
    unfolding mutate_each
    each-Leads type_of set_type law [] s ys s' known h ready =
        subst
          (λ (p : List _ × Mutation). Leads known s p.1 (λ known'. AllIn known' (map type_of p.0)))
          (ok-injective h) (known, Run-self infos known s ready, tt)
    each-Leads type_of set_type law (x ∷ xs) s ys s' known h ready =
        let ((t, s₁), e, h₁) = >>=-eq-ok (mutate (type_of x) s) _ h in
        let ((zs, s₂), e', h₂) = >>=-eq-ok (mutate_each mutate type_of set_type xs s₁) _ h₁ in
        let (k₁, run, m) = learns (type_of x) s t s₁ known e ready in
        let (k₂, run', all) = each-Leads type_of set_type law xs s₁ zs s₂ k₁ e' run.ready in
        let first : Memᴰ (type_of (set_type x t)) k₂ =
          subst (λ y. Memᴰ y k₂) (sym (law x t)) (run'.more t m) in
        subst
          (λ (p : List _ × Mutation). Leads known s p.1 (λ known'. AllIn known' (map type_of p.0)))
          (ok-injective h₂) (k₂, Run-trans infos known k₁ k₂ s s₁ s₂ run run', (first, all))

    child-Leads :
        (r : Ref) (s : Mutation) (q : Ref) (s' : Mutation) (known : List Ref)
        → mutate_child mutate r s ≡ ok (q, s')
        → IsReady infos known s
        → Leads known s s' (λ known'. Memᴰ q known')
    unfolding mutate_child
    child-Leads r s q s' known h ready =
        let ((t, s₁), e, h₁) = >>=-eq-ok (mutate r s) _ h in
        let same = cast_class-eq_ok (deref s₁.graph t) (t, s₁) (q, s') h₁ in
        subst (λ (p : Ref × Mutation). Leads known s p.1 (λ known'. Memᴰ p.0 known')) same
          (learns r s t s₁ known e ready)

    children-Leads :
        (xs : List Ref) (s : Mutation) (ys : List Ref) (s' : Mutation) (known : List Ref)
        → mutate_children mutate xs s ≡ ok (ys, s')
        → IsReady infos known s
        → Leads known s s' (λ known'. AllIn known' ys)
    unfolding mutate_children
    children-Leads [] s ys s' known h ready =
        subst (λ (p : List Ref × Mutation). Leads known s p.1 (λ known'. AllIn known' p.0))
          (ok-injective h) (known, Run-self infos known s ready, tt)
    children-Leads (x ∷ xs) s ys s' known h ready =
        let ((t, s₁), e, h₁) = >>=-eq-ok (mutate_child mutate x s) _ h in
        let ((zs, s₂), e', h₂) = >>=-eq-ok (mutate_children mutate xs s₁) _ h₁ in
        let (k₁, run, m) = child-Leads x s t s₁ known e ready in
        let (k₂, run', all) = children-Leads xs s₁ zs s₂ k₁ e' run.ready in
        subst (λ (p : List Ref × Mutation). Leads known s p.1 (λ known'. AllIn known' p.0))
          (ok-injective h₂) (k₂, Run-trans infos known k₁ k₂ s s₁ s₂ run run', (run'.more t m, all))

    pub params-Leads :
        (r : Ref) (c : Container) (s s' : Mutation) (known : List Ref)
        → mutate_params mutate r c s ≡ ok s'
        → IsReady infos known s
        → Leads known s s' (λ known'. IsDone known' s'.graph r × IsIdentified infos s'.graph r)
    unfolding mutate_params
    params-Leads r c s s' known h ready =
        let ((ps, s₁), e, h₁) =
          >>=-eq-ok (mutate_each mutate (λ p. p.type) param_set c.template_params s) _ h in
        let (c', e', h₂) = >>=-eq-ok (load_container s₁.graph r) _ h₁ in
        let (k, run, all) =
          each-Leads (λ p. p.type) param_set (λ p t. refl) c.template_params s ps s₁ known e
            ready in
        let n' : Node = container (record c' { template_params = ps }) in
        let at = load_container-eq_ok s₁.graph r c' e' in
        let run' = Run-written infos k s₁ r (container c') n' run.ready at (λ d e. cc) refl all in
        let done = IsDone-written infos k s₁ r (container c') n' at all in
        let here = deref-put_self s₁.graph r n' at in
        subst
          (λ s'.
            Leads known s s' (λ known'. IsDone known' s'.graph r × IsIdentified infos s'.graph r))
          (ok-injective h₂)
          (
            k,
            Run-trans infos known k k s s₁ (written r n' s₁) run run',
            (done, λ d e. cc (e, here)),
          )

    pub class-Leads :
        (r : Ref) (c : Class) (s : Mutation) (q : Ref) (s' : Mutation) (known : List Ref)
        → mutate_class mutate r c s ≡ ok (q, s')
        → IsReady infos known s
        → (q ≡ r) × Leads known s s' (λ known'. IsDone known' s'.graph r)
    unfolding mutate_class
    class-Leads r c s q s' known h ready =
        let ((ps, s₁), e₁, h₁) =
          >>=-eq-ok (mutate_each mutate (λ p. p.type) param_set c.template_params s) _ h in
        let ((bs, s₂), e₂, h₂) =
          >>=-eq-ok (mutate_each mutate (λ p. p.type) parent_set c.parents s₁) _ h₁ in
        let ((ms, s₃), e₃, h₃) =
          >>=-eq-ok (mutate_each mutate (λ m. m.type) member_set c.members s₂) _ h₂ in
        let ((cs, s₄), e₄, h₄) = >>=-eq-ok (mutate_children mutate c.children s₃) _ h₃ in
        let (c', e₅, h₅) = >>=-eq-ok (load_class s₄.graph r) _ h₄ in
        let (k₁, a₁, in₁) =
          each-Leads (λ p. p.type) param_set (λ p t. refl) c.template_params s ps s₁ known e₁
            ready in
        let (k₂, a₂, in₂) =
          each-Leads (λ p. p.type) parent_set (λ p t. refl) c.parents s₁ bs s₂ k₁ e₂ a₁.ready in
        let (k₃, a₃, in₃) =
          each-Leads (λ m. m.type) member_set (λ m t. refl) c.members s₂ ms s₃ k₂ e₃ a₂.ready in
        let (k₄, a₄, in₄) = children-Leads c.children s₃ cs s₄ k₃ e₄ a₃.ready in
        let up₃ : (x : Ref) → Memᴰ x k₃ → Memᴰ x k₄ = a₄.more in
        let up₂ : (x : Ref) → Memᴰ x k₂ → Memᴰ x k₄ = λ x m. up₃ x (a₃.more x m) in
        let run =
          Run-trans infos known k₃ k₄ s s₃ s₄
            (Run-trans infos known k₂ k₃ s s₂ s₃ (Run-trans infos known k₁ k₂ s s₁ s₂ a₁ a₂) a₃)
            a₄ in
        class_set-Leads r c' ps bs ms cs known s s₄ k₄ run (load_class-eq_ok s₄.graph r c' e₅)
          (AllIn-more k₁ k₄ (λ x m. up₂ x (a₂.more x m)) (param_types ps) in₁)
          (AllIn-more k₂ k₄ up₂ (parent_types bs) in₂) (AllIn-more k₃ k₄ up₃ (member_types ms) in₃)
          in₄ q s' h₅
