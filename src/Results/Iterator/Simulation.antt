-- ===== src/Results/Iterator/Simulation.antt =====
-- The stack machine does what the traversal says, and cleans up its path behind every field.
use object_introspection.Prelude.{
  ℕ, zero, suc, ◌+◌, ◌≡◌, refl, ap, subst, List, [], ◌∷◌, ◌++◌, none, some, Outcome, ok, dangling,
  of_option, >>=-eq-ok, ok-injective, String, get_elem?, arith,
}
use object_introspection.Results.{Element}
use object_introspection.Results.Iterator.{
  Inst, pop_type_path, repeat, field, Field, Core, visit_field, step,
}
use object_introspection.Results.Iterator.Walk.{Visited, visited, walk, Walked, one_more, around}
use object_introspection.Results.Iterator.Entered.{
  core, IsOwned, Entered, visited-Entered, pops, visits,
}

module _ (table : List Field) (show_pointer : ℕ → String) where
  -- Instructions executed one after the other, with the elements that they give.
  pub data Steps : Core → List Element → Core → Type 0 where
    done : {c : Core} → Steps c [] c
    silent :
        {c d : Core} {es : List Element} (i : Inst) (is : List Inst) (c' : Core)
        → c.stack ≡ i ∷ is
        → step table show_pointer i (record c { stack = is }) ≡ ok (none, c')
        → Steps c' es d
        → Steps c es d
    gives :
        {c d : Core} {es : List Element} (i : Inst) (is : List Inst) (e : Element) (c' : Core)
        → c.stack ≡ i ∷ is
        → step table show_pointer i (record c { stack = is }) ≡ ok (some e, c')
        → Steps c' es d
        → Steps c (e ∷ es) d

  unfoldable pub steps : {c d : Core} {es : List Element} → Steps c es d → ℕ
  steps done = 0
  steps (silent i is c' h k p) = suc (steps p)
  steps (gives i is e c' h k p) = suc (steps p)

  pub Steps-trans :
      {c d e : Core} {es fs : List Element} → Steps c es d → Steps d fs e → Steps c (es ++ fs) e
  Steps-trans done q = q
  Steps-trans (silent i is c' h k p) q = silent i is c' h k (Steps-trans p q)
  Steps-trans (gives i is e c' h k p) q = gives i is e c' h k (Steps-trans p q)

  steps-Steps-trans :
      {c d e : Core} {es fs : List Element} (p : Steps c es d) (q : Steps d fs e)
      → steps (Steps-trans p q) ≡ steps p + steps q
  unfolding steps Steps-trans
  steps-Steps-trans done q = omega arith
  steps-Steps-trans (silent i is c' h k p) q = omega (arith, steps-Steps-trans p q)
  steps-Steps-trans (gives i is e c' h k p) q = omega (arith, steps-Steps-trans p q)

  -- An execution that does what a traversal says, in as many steps.
  abbrev pub Executes :
      Core → Walked table show_pointer → List Inst → List String → List (ℕ × String) → Type 0
  Executes c w st path dyn = (p : Steps c w.elements (core w.rest st path dyn)) × (steps p ≡ w.work)

  Executes-ok :
      (c : Core) (w w' : Walked table show_pointer) (st : List Inst) (path : List String)
      (dyn : List (ℕ × String))
      → Path (Outcome (Walked table show_pointer)) (ok w) (ok w')
      → Executes c w st path dyn
      → Executes c w' st path dyn
  Executes-ok c w w' st path dyn h p = subst (λ t. Executes c t st path dyn) (ok-injective h) p

  Executes-field :
      (f : Field) (v : Visited table show_pointer) (path : List String) (bytes : List ℕ) (r : ℕ)
      (w w' : Walked table show_pointer) (is st : List Inst) (dyn : List (ℕ × String))
      (out : Element × Core)
      → of_option dangling (get_elem? table r) ≡ ok f
      → visit_field table show_pointer f (core bytes (is ++ st) path dyn) ≡ ok out
      → (x : Entered table show_pointer path (is ++ st) dyn v out)
      → Executes
          (core v.bytes (v.below ++ pop_type_path ∷ (is ++ st)) v.path x.owned)
          w
          (pop_type_path ∷ (is ++ st))
          v.path
          x.owned
      → Executes (core w.rest (is ++ st) path dyn) w' st path dyn
      → Executes
          (core bytes (field r ∷ (is ++ st)) path dyn)
          (around table show_pointer v.element w w')
          st
          path
          dyn
  unfolding steps
  Executes-field f v path bytes r w w' is st dyn out h h' x (below, n) (after, n') =
      let popped =
        silent pop_type_path (is ++ st) (core w.rest (is ++ st) path dyn) refl
          (pops table show_pointer v path (is ++ st) (is ++ st) w.rest dyn out x) after in
      (
        gives (field r) (is ++ st) v.element
            (core v.bytes (v.below ++ pop_type_path ∷ (is ++ st)) v.path x.owned) refl
            (visits table show_pointer f v path bytes r (is ++ st) dyn out h h' x)
            (Steps-trans below popped),
        omega (arith, steps-Steps-trans below popped, n, n'),
      )

  -- Instructions on top of the stack are executed as the traversal says, and leave the stack below
  -- them, the path and the names owned as they were.
  pub simulates :
      (n : ℕ) (is : List Inst) (path : List String) (bytes : List ℕ) (w : Walked table show_pointer)
      → walk table show_pointer n is path bytes ≡ ok w
      → (st : List Inst) (dyn : List (ℕ × String)) → IsOwned path dyn
      → Executes (core bytes (is ++ st) path dyn) w st path dyn
  unfolding walk step steps
  simulates zero is path bytes w h st dyn own = cc
  simulates (suc n) [] path bytes w h st dyn own =
      Executes-ok (core bytes st path dyn) (record { elements = []; rest = bytes; work = 0 }) w st
        path dyn h (done, refl)
  simulates (suc n) (pop_type_path ∷ is) path bytes w h st dyn own = cc
  simulates (suc n) (repeat zero r ∷ is) path bytes w h st dyn own =
      let (v, h₁, k) = >>=-eq-ok (walk table show_pointer n is path bytes) _ h in
      let (p, e) = simulates n is path bytes v h₁ st dyn own in
      Executes-ok (core bytes (repeat zero r ∷ (is ++ st)) path dyn) (one_more table show_pointer v)
        w st path dyn k
        (silent (repeat zero r) (is ++ st) (core bytes (is ++ st) path dyn) refl refl p, ap suc e)
  simulates (suc n) (repeat (suc m) r ∷ is) path bytes w h st dyn own =
      let (v, h₁, k) =
        >>=-eq-ok (walk table show_pointer n (field r ∷ repeat m r ∷ is) path bytes) _ h in
      let (p, e) = simulates n (field r ∷ repeat m r ∷ is) path bytes v h₁ st dyn own in
      Executes-ok (core bytes (repeat (suc m) r ∷ (is ++ st)) path dyn)
        (one_more table show_pointer v) w st path dyn k
        (
          silent (repeat (suc m) r) (is ++ st)
              (core bytes (field r ∷ repeat m r ∷ (is ++ st)) path dyn) refl refl p,
          ap suc e,
        )
  simulates (suc n) (field r ∷ is) path bytes w h st dyn own =
      let (f, h₁, k₁) = >>=-eq-ok (of_option dangling (get_elem? table r)) _ h in
      let (v, h₂, k₂) = >>=-eq-ok (visited table show_pointer f path bytes) _ k₁ in
      let (w₁, h₃, k₃) = >>=-eq-ok (walk table show_pointer n v.below v.path v.bytes) _ k₂ in
      let (w₂, h₄, k₄) = >>=-eq-ok (walk table show_pointer n is path w₁.rest) _ k₃ in
      let (out, h₅, x) = visited-Entered table show_pointer f path bytes v (is ++ st) dyn h₂ own in
      Executes-ok (core bytes (field r ∷ (is ++ st)) path dyn)
        (around table show_pointer v.element w₁ w₂) w st path dyn k₄
        (Executes-field f v path bytes r w₁ w₂ is st dyn out h₁ h₅ x
          (simulates n v.below v.path v.bytes w₁ h₃ (pop_type_path ∷ (is ++ st)) x.owned x.kept)
          (simulates n is path w₁.rest w₂ h₄ st dyn own))
