-- ===== src/Flattener/Merge.antt =====
-- The merged members are the class's own and its parents', none lost and each list in its order.
use object_introspection.Prelude.{
  ℕ, ◌≡◌, refl, ◌∙◌, List, [], ◌∷◌, ◌++◌, true, false, ok, ◌>>=◌, ltb, Bool-cases, inl, inr,
  >>=-eq-ok, ok-injective, subst,
}
use object_introspection.Types.{Member, Parent}
use object_introspection.Store.{TypeGraph}
use object_introspection.Flattener.{flatten_parent, flatten_parents, merge}

-- The third list is the first two put together, each in its order.
pub data Merges : List Member → List Member → List Member → Type 0 where
  done : Merges [] [] []
  own : {ms ps out : List Member} (m : Member) → Merges ms ps out → Merges (m ∷ ms) ps (m ∷ out)
  inherited :
      {ms ps out : List Member} (m : Member) → Merges ms ps out → Merges ms (m ∷ ps) (m ∷ out)

pub Merges-own : (ms : List Member) → Merges ms [] ms
Merges-own [] = done
Merges-own (m ∷ ms) = own m (Merges-own ms)

pub Merges-inherited : (ps : List Member) → Merges [] ps ps
Merges-inherited [] = done
Merges-inherited (m ∷ ps) = inherited m (Merges-inherited ps)

Merges-block :
    (block : List Member) {ms ps out : List Member}
    → Merges ms ps out
    → Merges ms (block ++ ps) (block ++ out)
Merges-block [] h = h
Merges-block (m ∷ block) h = inherited m (Merges-block block h)

module _ (depth : ℕ) (g : TypeGraph) where
  pub merge-true :
      (m : Member) (ms : List Member) (p : Parent) (ps : List Parent)
      → ltb m.bit_offset p.bit_offset ≡ true
      → merge depth g (m ∷ ms) (p ∷ ps) ≡ (merge depth g ms (p ∷ ps) >>= λ out. ok (m ∷ out))
  unfolding merge
  merge-true m ms p ps h = rw (h, merge)

  pub merge-false :
      (m : Member) (ms : List Member) (p : Parent) (ps : List Parent)
      → ltb m.bit_offset p.bit_offset ≡ false
      → merge depth g (m ∷ ms) (p ∷ ps) ≡ (
          flatten_parent depth g p >>= λ block.
          merge depth g (m ∷ ms) ps >>= λ out. ok (block ++ out))
  unfolding merge
  merge-false m ms p ps h = rw (h, merge)

  flatten_parents-cons :
      (p : Parent) (ps : List Parent) {blocks : List Member}
      → flatten_parents depth g (p ∷ ps) ≡ ok blocks
      → (block rest : List Member) × (flatten_parent depth g p ≡ ok block)
        × (flatten_parents depth g ps ≡ ok rest)
        × (block ++ rest ≡ blocks)
  unfolding flatten_parents
  flatten_parents-cons p ps h =
      let (block, e, k) = >>=-eq-ok (flatten_parent depth g p) _ h in
      let (rest, e', k') = >>=-eq-ok (flatten_parents depth g ps) _ k in
      (block, rest, e, e', ok-injective k')

  -- If every parent can be flattened then the merge returns, and its result consists of the own
  -- members and of the members of the parents, one parent behind the other, each in their order.
  pub merge-Merges :
      (ms : List Member) (ps : List Parent) (blocks : List Member)
      → flatten_parents depth g ps ≡ ok blocks
      → (out : List Member) × (merge depth g ms ps ≡ ok out) × Merges ms blocks out
  unfolding merge
  merge-Merges [] ps blocks h = (blocks, h, Merges-inherited blocks)
  merge-Merges (m ∷ ms) [] blocks h = (
    m ∷ ms,
    refl,
    subst (λ l. Merges (m ∷ ms) l (m ∷ ms)) (ok-injective (unfold flatten_parents in h))
        (Merges-own (m ∷ ms)),
  )
  merge-Merges (m ∷ ms) (p ∷ ps) blocks h = elim (Bool-cases (ltb m.bit_offset p.bit_offset)) [
    | inl before ↦
        let (out, e, k) = merge-Merges ms (p ∷ ps) blocks h in
        (m ∷ out, merge-true m ms p ps before ∙ rw e, own m k)
    | inr behind ↦
        let (block, rest, e, e', same) = flatten_parents-cons p ps h in
        let (out, e'', k) = merge-Merges (m ∷ ms) ps rest e' in
        (
          block ++ out,
          merge-false m ms p ps behind ∙ rw (e, e''),
          subst (λ l. Merges (m ∷ ms) l (block ++ out)) same (Merges-block block k),
        )
  ]
