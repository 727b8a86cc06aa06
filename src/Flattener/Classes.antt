-- ===== src/Flattener/Classes.antt =====
-- A class is flattened once: afterwards it has no parents, and flattening it again changes nothing.
use mathlib.Core.List.{append-nil}
use object_introspection.Prelude.{
  arith, ◌≡◌, refl, ap, sym, ◌∙◌, subst, List, [], ◌∷◌, ◌++◌, Outcome, ok, ◌>>=◌, ℕ, >>=-eq-ok,
  ok-injective,
}
use object_introspection.Types.{Member, Class, Function}
use object_introspection.Store.{TypeGraph}
use object_introspection.Flattener.{
  merge, pull_functions, fix_allocator_params, flatten_class, flatten_parents,
}
use object_introspection.Flattener.Merge.{Merges, merge-Merges}

module _ (depth : ℕ) where
  fix_bare :
      (g : TypeGraph) (c : Class) (ms : List Member)
      → fix_allocator_params depth g (record c { parents = []; members = ms })
        ≡ ok (record c { parents = []; members = ms })
  unfolding fix_allocator_params
  fix_bare g c ms = ground arith

  merge_bare : (g : TypeGraph) (ms : List Member) → merge depth g ms [] ≡ ok ms
  unfolding merge
  merge_bare g [] = refl
  merge_bare g (m ∷ ms) = refl

  flatten_bare :
      (g : TypeGraph) (c : Class) (ms : List Member)
      → flatten_class depth g (record c { parents = []; members = ms })
        ≡ ok (record c { parents = []; members = ms })
  unfolding flatten_class
  flatten_bare g c ms =
      let finish =
        λ (d : Class). let r : Outcome Class = ok (record d { parents = []; members = ms }) in r in
      rw (merge_bare g ms) (
        ap (λ (o : Outcome Class). o >>= finish)
          (fix_bare g (record c { functions = c.functions ++ [] }) ms)
        ∙ ap (λ (fs : List Function). finish (record c { functions = fs }))
            (append-nil c.functions))

  -- The parts of a run that returns.
  pub flatten_class-eq_ok :
      (g : TypeGraph) (c c' : Class)
      → flatten_class depth g c ≡ ok c'
      → (d : Class) × (ms : List Member) × (merge depth g c.members c.parents ≡ ok ms)
        × (record d { parents = []; members = ms } ≡ c')
  unfolding flatten_class
  flatten_class-eq_ok g c c' h =
      let (fs, e, k) = >>=-eq-ok (pull_functions depth g c.parents) _ h in
      let (ms, e', k') = >>=-eq-ok (merge depth g c.members c.parents) _ k in
      let c₁ = record c { functions = c.functions ++ fs } in
      let finish =
        λ (d : Class). let r : Outcome Class = ok (record d { parents = []; members = ms }) in r in
      let (d, e'', k'') = >>=-eq-ok (fix_allocator_params depth g c₁) finish k' in
      (d, ms, e', ok-injective k'')

  -- Where flattening a class returns, the result has no parents, its members are the own ones and
  -- the parents', merged, and flattening it again, in any graph, returns it unchanged.
  pub flatten_class_once :
      (g : TypeGraph) (c c' : Class) (blocks : List Member)
      → flatten_parents depth g c.parents ≡ ok blocks
      → flatten_class depth g c ≡ ok c'
      → (c'.parents ≡ [])
        × Merges c.members blocks c'.members
        × ((g' : TypeGraph) → flatten_class depth g' c' ≡ ok c')
  flatten_class_once g c c' blocks b h =
      let (d, ms, e, same) = flatten_class-eq_ok g c c' h in
      let (out, e', merges) = merge-Merges depth g c.members c.parents blocks b in
      let same_out : out ≡ ms = ok-injective (sym e' ∙ e) in
      subst
        (λ (x : Class).
          (x.parents ≡ [])
          × Merges c.members blocks x.members
          × ((g' : TypeGraph) → flatten_class depth g' x ≡ ok x))
        same (refl, subst (Merges c.members blocks) same_out merges, λ g'. flatten_bare g' d ms)
