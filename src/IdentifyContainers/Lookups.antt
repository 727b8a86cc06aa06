-- ===== src/IdentifyContainers/Lookups.antt =====
-- `mutate`: the lookup of a node, and the visit where nothing was found.
use object_introspection.Prelude.{
  ℕ, zero, suc, ◌≡◌, refl, subst, List, none, some, Option, Outcome, ok, ok-injective, dangling,
  of_option, ◌>>=◌, >>=-eq-ok,
}
use object_introspection.Types.{Ref, ContainerInfo, Class, Node, class_node}
use object_introspection.Store.{deref}
use object_introspection.Tracker.{get_result}
use object_introspection.Visitor.Loads.{of_option-eq_ok}
use object_introspection.Mutator.{Mutation}
use object_introspection.IdentifyContainers.{find_info, tracked, visit_class, visit_node, mutate}
use object_introspection.IdentifyContainers.Runs.{Run-trans, IsReady, HasFace}
use object_introspection.IdentifyContainers.Steps.{
  Run-lookup, lookup-known, Run-tracked, with_tracker,
}
use object_introspection.IdentifyContainers.Nodes.{Learns}
use object_introspection.IdentifyContainers.Visits.{
  Returns, Returns-Run, replaced-Returns, visit_node-Returns,
}

module _ (infos : List ContainerInfo) where
  -- Behind the lookup of a node, which gave `o`.
  module _ (below : Ref → Mutation → Outcome (Ref × Mutation)) (learns : Learns infos below) where
    looked_up-Returns :
        (r : Ref) (n : Node) (s : Mutation) (o : Option Ref) (p : Ref × Mutation) (known : List Ref)
        → (get_result n s.tracker).0 ≡ o
        → deref s.graph r ≡ some n
        → (elim o [
          | some q ↦ ok (q, with_tracker (get_result n s.tracker).1 s)
          | none ↦
              visit_node infos below r n (with_tracker (get_result n s.tracker).1 s) >>= λ (q, s₂).
              ok (q, tracked n q s₂)
        ])
          ≡ ok p
        → IsReady infos known s
        → Returns infos known s p
    looked_up-Returns r n s (some q) p known found at h ready =
        subst (Returns infos known s) (ok-injective h)
          (known, Run-lookup infos known s n ready, lookup-known infos known s n q ready found)
    looked_up-Returns r n s none p known found at h ready =
        let s₁ = with_tracker (get_result n s.tracker).1 s in
        let run = Run-lookup infos known s n ready in
        let ((q, s₂), e, h₁) = >>=-eq-ok (visit_node infos below r n s₁) _ h in
        let (k, run', m) =
          visit_node-Returns infos below learns r n s₁ (q, s₂) known at e run.ready in
        subst (Returns infos known s) (ok-injective h₁) (
          Returns-Run infos known known s s₁ (q, tracked n q s₂) run
            (
              k,
              Run-trans infos known k k s₁ s₂ (tracked n q s₂) run'
                  (Run-tracked infos k s₂ n q run'.ready m),
              m,
            ))

  pub mutate-Learns : (fuel : ℕ) → Learns infos (mutate infos fuel)
  unfolding mutate
  mutate-Learns zero r s q s' known h ready = cc
  mutate-Learns (suc f) r s q s' known h ready =
      let (n, e, h₁) = >>=-eq-ok (of_option dangling (deref s.graph r)) _ h in
      let at = of_option-eq_ok (deref s.graph r) n e in
      looked_up-Returns (mutate infos f) (mutate-Learns f) r n s (get_result n s.tracker).0 (q, s')
        known refl at h₁ ready

  -- Where the tracker holds only types that are known and not to be replaced, a visit that returns, of a
  -- class that has no result yet and that a description matches, gives a container for the first that
  -- does, with the class below it and of the size of the class.
  pub mutate-replaces :
      (fuel : ℕ) (r q : Ref) (c : Class) (info : ContainerInfo) (s s' : Mutation) (known : List Ref)
      → IsReady infos known s
      → deref s.graph r ≡ some (class_node c)
      → (get_result (class_node c) s.tracker).0 ≡ none
      → find_info infos c.input_name ≡ some info
      → mutate infos fuel r s ≡ ok (q, s')
      → HasFace s'.graph q (some (info, some r, c.size))
  unfolding mutate visit_node visit_class
  mutate-replaces zero r q c info s s' known ready here new found h = cc
  mutate-replaces (suc f) r q c info s s' known ready here new found h =
      let s₁ = with_tracker (get_result (class_node c) s.tracker).1 s in
      let visited : Outcome (Ref × Mutation) =
        visit_node infos (mutate infos f) r (class_node c) s₁ >>= λ (q, s₂).
        ok (q, tracked (class_node c) q s₂) in
      let looked_up : Option Ref → Outcome (Ref × Mutation) =
        λ o. elim o [ some q ↦ ok (q, s₁) | none ↦ visited ] in
      let h₀ : looked_up (get_result (class_node c) s.tracker).0 ≡ ok (q, s') = rw here at h in
      let h₁ : visited ≡ ok (q, s') = subst (λ o. looked_up o ≡ ok (q, s')) new h₀ in
      let ((q₁, s₂), e, h₂) =
        >>=-eq-ok (visit_node infos (mutate infos f) r (class_node c) s₁) _ h₁ in
      let replaced = rw found at e in
      let run = Run-lookup infos known s (class_node c) ready in
      let (_, made) =
        replaced-Returns infos (mutate infos f) (mutate-Learns f) r c info s₁ (q₁, s₂) known
          replaced run.ready in
      subst (λ (p : Ref × Mutation). HasFace p.1.graph p.0 (some (info, some r, c.size)))
        (ok-injective h₂) made
