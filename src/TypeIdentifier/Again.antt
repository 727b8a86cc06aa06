-- ===== src/TypeIdentifier/Again.antt =====
-- The parameters of a container, run through the pass twice.
use object_introspection.Prelude.{
  ℕ, suc, ◌≡◌, refl, subst, List, [], ◌∷◌, ok, ok-injective, >>=-eq-ok,
}
use object_introspection.Types.{TemplateParam, ContainerInfo}
use object_introspection.Store.Extension.{Extends, Extends-trans}
use object_introspection.TypeIdentifier.{Identifier, identify_param, identify_params}
use object_introspection.TypeIdentifier.Params.{
  HasContainers, IsSettled, IsSettled-Extends, identify_param-IsSettled, identify_param-Settles,
}

module _ (depth : ℕ) (infos : List ContainerInfo) (stubs : List ℕ) where
  -- Every parameter is settled at its index.
  abbrev AllSettled : Identifier → ℕ → List TemplateParam → Type 0
  AllSettled s i [] = Unit
  AllSettled s i (p ∷ ps) = IsSettled infos stubs s.graph i p × AllSettled s (suc i) ps

  identify_params-AllSettled :
      (i : ℕ) (ps : List TemplateParam) (s : Identifier)
      → AllSettled s i ps
      → identify_params depth infos stubs i ps s ≡ ok (ps, s)
  unfolding identify_params
  identify_params-AllSettled i [] s h = refl
  identify_params-AllSettled i (p ∷ ps) s h =
      rw
        (
          identify_param-IsSettled depth infos stubs i p s h.0,
          identify_params-AllSettled (suc i) ps s h.1,
        )
        refl

  -- The state grew, and all parameters are settled.
  abbrev SettlesAll : ℕ → Identifier → List TemplateParam × Identifier → Type 0
  SettlesAll i s (qs, s') = AllSettled s' i qs × Extends s.graph s'.graph × HasContainers s'

  identify_params-SettlesAll :
      (i : ℕ) (ps : List TemplateParam) (s : Identifier) (r : List TemplateParam × Identifier)
      → HasContainers s
      → identify_params depth infos stubs i ps s ≡ ok r
      → SettlesAll i s r
  unfolding identify_params
  identify_params-SettlesAll i [] s r held h =
      subst (SettlesAll i s) (ok-injective h) (tt, (λ x n e. e), held)
  identify_params-SettlesAll i (p ∷ ps) s r held h =
      let ((q, s₁), e, h₁) = >>=-eq-ok (identify_param depth infos stubs i p s) _ h in
      let ((qs, s₂), e', h₂) = >>=-eq-ok (identify_params depth infos stubs (suc i) ps s₁) _ h₁ in
      let (settled, more, held₁) = identify_param-Settles depth infos stubs i p s (q, s₁) held e in
      let (all, more', held₂) = identify_params-SettlesAll (suc i) ps s₁ (qs, s₂) held₁ e' in
      subst (SettlesAll i s) (ok-injective h₂) (
        (IsSettled-Extends infos stubs s₁.graph s₂.graph i q more' settled, all),
        Extends-trans s.graph s₁.graph s₂.graph more more',
        held₂,
      )

  -- Where every dummy that is remembered is a container, a run over the parameters that returns leaves
  -- each earlier node as it was, and a second run over what it returned changes nothing.
  pub identify_params-again :
      (i : ℕ) (ps qs : List TemplateParam) (s s' : Identifier)
      → HasContainers s
      → identify_params depth infos stubs i ps s ≡ ok (qs, s')
      → Extends s.graph s'.graph × (identify_params depth infos stubs i qs s' ≡ ok (qs, s'))
  identify_params-again i ps qs s s' held h =
      let (all, more, _) = identify_params-SettlesAll i ps s (qs, s') held h in
      (more, identify_params-AllSettled i qs s' all)
