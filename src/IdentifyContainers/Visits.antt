-- ===== src/IdentifyContainers/Visits.antt =====
-- The visits of the other nodes.
use mathlib.Core.List.{Memᴰ}
use object_introspection.Prelude.{
  ◌≡◌, ◌≢◌, refl, subst, sym, ◌∙◌, ap, List, [], ◌∷◌, none, some, Option, Outcome, ok, ok-injective,
  ◌>>=◌, >>=-eq-ok,
}
use object_introspection.Types.{
  Ref, ContainerInfo, Class, Container, Node, container, class_node, incomplete, primitive,
  enum_node, array, typedef, pointer, reference, dummy, dummy_allocator, capture_keys,
}
use object_introspection.Store.{TypeGraph, deref, make_type}
use object_introspection.Store.Ids.{deref-make_type_new}
use object_introspection.RemoveMembers.Edits.{deref-put_self}
use object_introspection.Mutator.{
  Mutation, written, mutate_class, mutate_params, mutate_link, mutate_default,
}
use object_introspection.IdentifyContainers.{
  find_info, new_container, tracked, replace_class, visit_class, visit_node,
}
use object_introspection.IdentifyContainers.Runs.{
  Run, Run-trans, Run-known, Run-done, IsReady, IsReady-known, IsIdentified, AllIn, walk_links,
  face, HasFace,
}
use object_introspection.IdentifyContainers.Steps.{Run-written, Run-tracked, Run-make_type}
use object_introspection.IdentifyContainers.Nodes.{
  name_of_class, Leads, Learns, params-Leads, class-Leads,
}

-- No class; the references of such a node are those that the pass follows.
abbrev IsOther : Node → Type 0
IsOther n = (c : Class) → n ≢ class_node c

module _ (infos : List ContainerInfo) where
  -- The result of a visit is known.
  abbrev pub Returns : List Ref → Mutation → Ref × Mutation → Type 0
  Returns known s p = Leads infos known s p.1 (λ known'. Memᴰ p.0 known')

  other-IsIdentified :
      (g : TypeGraph) (r : Ref) (n : Node) → IsOther n → deref g r ≡ some n → IsIdentified infos g r
  other-IsIdentified g r n other at c e = absurd (other c cc)

  -- A node without references, or whose references are known, becomes known.
  other-Returns :
      (known : List Ref) (s : Mutation) (r : Ref) (n : Node)
      → IsReady infos known s
      → IsOther n
      → deref s.graph r ≡ some n
      → AllIn known (walk_links n)
      → Returns known s (r, s)
  other-Returns known s r n ready other at all = (
    r ∷ known,
    Run-done infos known s r ready (other-IsIdentified s.graph r n other at) (n, at, all),
    Memᴰ.head refl,
  )

  pub Returns-Run :
      (known k : List Ref) (s s₁ : Mutation) (p : Ref × Mutation)
      → Run infos known s k s₁
      → Returns k s₁ p
      → Returns known s p
  Returns-Run known k s s₁ p run (k', run', m) =
      (k', Run-trans infos known k k' s s₁ p.1 run run', m)

  module _ (mutate : Ref → Mutation → Outcome (Ref × Mutation)) (learns : Learns infos mutate) where
    link-Returns :
        (r t : Ref) (n : Node) (node : Ref → Node) (s : Mutation) (p : Ref × Mutation)
        (known : List Ref)
        → deref s.graph r ≡ some n
        → ((t : Ref) → IsOther (node t))
        → ((t : Ref) → walk_links (node t) ≡ t ∷ [])
        → ((t : Ref) → face (node t) ≡ face n)
        → mutate_link mutate r t node s ≡ ok p
        → IsReady infos known s
        → Returns known s p
    unfolding mutate_link
    link-Returns r t n node s p known at other links faces h ready =
        let ((t', s₁), e, h₁) = >>=-eq-ok (mutate t s) _ h in
        let (k, run, m) = learns t s t' s₁ known e ready in
        let n' : Node = node t' in
        let (n₁, at₁, same) = run.lives r n at in
        let all : AllIn k (walk_links n') = subst (AllIn k) (sym (links t')) (m, tt) in
        let run₁ =
          Run-written infos k s₁ r n₁ n' run.ready at₁ (λ c e. absurd (other t' c e))
            (same ∙ sym (faces t')) all in
        let here = deref-put_self s₁.graph r n' at₁ in
        subst (Returns known s) (ok-injective h₁) (
          Returns-Run known k s s₁ (r, written r n' s₁) run
            (Returns-Run k k s₁ (written r n' s₁) (r, written r n' s₁) run₁
              (other-Returns k (written r n' s₁) r n' run₁.ready (other t') here all)))

    -- A class that no description matches.
    plain-Returns :
        (r : Ref) (c : Class) (s : Mutation) (p : Ref × Mutation) (known : List Ref)
        → find_info infos c.input_name ≡ none
        → deref s.graph r ≡ some (class_node c)
        → mutate_class mutate r c (tracked (class_node c) r s) ≡ ok p
        → IsReady infos known s
        → Returns known s p
    plain-Returns r c s p known found at h ready =
        let i : IsIdentified infos s.graph r = λ d e.
          let same : class_node c ≡ class_node d = cc (at, e) in
          ap (λ n. find_info infos (name_of_class n)) (sym same) ∙ found in
        let s₁ = tracked (class_node c) r s in
        let run =
          Run-tracked infos (r ∷ known) s (class_node c) r (IsReady-known infos known s r ready i)
            (Memᴰ.head refl) in
        let (same, (k, run', done)) =
          class-Leads infos mutate learns r c s₁ p.0 p.1 (r ∷ known) h run.ready in
        (
          k,
          Run-known infos known k s p.1 r
              (Run-trans infos (r ∷ known) (r ∷ known) k s s₁ p.1 run run') done,
          subst (λ x. Memᴰ x k) (sym same) (run'.more r (Memᴰ.head refl)),
        )

    -- A class that is replaced: the result is a container for the description, with the class below it.
    pub replaced-Returns :
        (r : Ref) (c : Class) (info : ContainerInfo) (s : Mutation) (p : Ref × Mutation)
        (known : List Ref)
        → replace_class infos mutate r c info s ≡ ok p
        → IsReady infos known s
        → Returns known s p × HasFace p.1.graph p.0 (some (info, some r, c.size))
    unfolding replace_class
    replaced-Returns r c info s p known h ready =
        let new = new_container info c.size (some r) c.template_params in
        let made = make_type (λ id. container (new id)) s.graph in
        let s₀ : Mutation = record s { graph = made.1 } in
        let s₁ = tracked (class_node c) made.0 s₀ in
        let run₀ = Run-make_type infos known s new ready in
        let at = deref-make_type_new (λ id. container (new id)) s.graph in
        let i =
          other-IsIdentified s₀.graph made.0 (container (new s.graph.next_id)) (λ c e. cc) at in
        let run₁ =
          Run-tracked infos (made.0 ∷ known) s₀ (class_node c) made.0
            (IsReady-known infos known s₀ made.0 run₀.ready i) (Memᴰ.head refl) in
        let (s₂, e, h₁) = >>=-eq-ok (mutate_params mutate made.0 (new s.graph.next_id) s₁) _ h in
        let (k, run₂, (done, _)) =
          params-Leads infos mutate learns made.0 (new s.graph.next_id) s₁ s₂ (made.0 ∷ known) e
            run₁.ready in
        let run₃ = Run-trans infos (made.0 ∷ known) (made.0 ∷ known) k s₀ s₁ s₂ run₁ run₂ in
        subst (λ p. Returns known s p × HasFace p.1.graph p.0 (some (info, some r, c.size)))
          (ok-injective h₁)
          (
            (
              k,
              Run-trans infos known known k s s₀ s₂ run₀
                  (Run-known infos known k s₀ s₂ made.0 run₃ done),
              run₂.more made.0 (Memᴰ.head refl),
            ),
            run₂.lives made.0 (container (new s.graph.next_id)) at,
          )

    class-Returns :
        (r : Ref) (c : Class) (o : Option ContainerInfo) (s : Mutation) (p : Ref × Mutation)
        (known : List Ref)
        → find_info infos c.input_name ≡ o
        → deref s.graph r ≡ some (class_node c)
        → visit_class infos mutate r c o s ≡ ok p
        → IsReady infos known s
        → Returns known s p
    unfolding visit_class
    class-Returns r c none s p known found at h ready = plain-Returns r c s p known found at h ready
    class-Returns r c (some info) s p known found at h ready =
        (replaced-Returns r c info s p known h ready).0

    container-Returns :
        (r : Ref) (c : Container) (s : Mutation) (p : Ref × Mutation) (known : List Ref)
        → (mutate_params mutate r c s >>= λ s₁. ok (r, s₁)) ≡ ok p
        → IsReady infos known s
        → Returns known s p
    container-Returns r c s p known h ready =
        let (s₁, e, h₁) = >>=-eq-ok (mutate_params mutate r c s) _ h in
        let (k, run, (done, i)) = params-Leads infos mutate learns r c s s₁ known e ready in
        subst (Returns known s) (ok-injective h₁) (
          Returns-Run known k s s₁ (r, s₁) run
            (r ∷ k, Run-done infos k s₁ r run.ready i done, Memᴰ.head refl))

    pub visit_node-Returns :
        (r : Ref) (n : Node) (s : Mutation) (p : Ref × Mutation) (known : List Ref)
        → deref s.graph r ≡ some n
        → visit_node infos mutate r n s ≡ ok p
        → IsReady infos known s
        → Returns known s p
    unfolding visit_node mutate_default
    visit_node-Returns r (class_node c) s p known at h ready =
        class-Returns r c (find_info infos c.input_name) s p known refl at h ready
    visit_node-Returns r (container c) s p known at h ready =
        container-Returns r c s p known h ready
    visit_node-Returns r (array a) s p known at h ready =
        link-Returns r a.element_type (array a) _ s p known at (λ t c e. cc) (λ t. refl) (λ t. refl)
          h ready
    visit_node-Returns r (typedef a) s p known at h ready =
        link-Returns r a.underlying_type (typedef a) _ s p known at (λ t c e. cc) (λ t. refl)
          (λ t. refl) h ready
    visit_node-Returns r (pointer a) s p known at h ready =
        link-Returns r a.pointee_type (pointer a) _ s p known at (λ t c e. cc) (λ t. refl)
          (λ t. refl) h ready
    visit_node-Returns r (reference a) s p known at h ready =
        link-Returns r a.pointee_type (reference a) _ s p known at (λ t c e. cc) (λ t. refl)
          (λ t. refl) h ready
    visit_node-Returns r (dummy_allocator a) s p known at h ready =
        link-Returns r a.type (dummy_allocator a) _ s p known at (λ t c e. cc) (λ t. refl)
          (λ t. refl) h ready
    visit_node-Returns r (capture_keys a) s p known at h ready =
        link-Returns r a.underlying_type (capture_keys a) _ s p known at (λ t c e. cc) (λ t. refl)
          (λ t. refl) h ready
    visit_node-Returns r (incomplete t) s p known at h ready =
        subst (Returns known s) (ok-injective h)
          (other-Returns known s r (incomplete t) ready (λ c e. cc) at tt)
    visit_node-Returns r (primitive t) s p known at h ready =
        subst (Returns known s) (ok-injective h)
          (other-Returns known s r (primitive t) ready (λ c e. cc) at tt)
    visit_node-Returns r (enum_node t) s p known at h ready =
        subst (Returns known s) (ok-injective h)
          (other-Returns known s r (enum_node t) ready (λ c e. cc) at tt)
    visit_node-Returns r (dummy t) s p known at h ready =
        subst (Returns known s) (ok-injective h)
          (other-Returns known s r (dummy t) ready (λ c e. cc) at tt)
