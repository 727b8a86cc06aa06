-- ===== src/Results/Iterator/Entered.antt =====
-- A field visited: what the stack, the path and the names owned are then, and how they are taken back.
use mathlib.Core.List.{append_assoc}
use object_introspection.Prelude.{
  ℕ, suc, ◌≡◌, ◌≤◌, ◌<◌, refl, sym, ◌∙◌, ap, subst, List, [], ◌∷◌, ◌++◌, map, Option, none, some,
  Outcome, ok, dangling, of_option, ◌>>=◌, >>=-eq-ok, ok-injective, String, get_elem?, length,
  arith, ◌==◌, ==_self, true, false,
}
use object_introspection.Wire.{Dynamic}
use object_introspection.Wire.Parsed.{parse}
use object_introspection.Results.{Element}
use object_introspection.Results.Iterator.{
  Inst, pop_type_path, field, Field, Handler, Core, push_all, process, gen_name_from_data,
  new_element, renamed, visit_field, pop_dynamic, step, name_field, pop_path,
}
use object_introspection.Results.Iterator.Walk.{Visited, visited, named}

abbrev pub core : List ℕ → List Inst → List String → List (ℕ × String) → Core
core bytes st path dyn = record {
  bytes = bytes;
  stack = st;
  type_path = path;
  dynamic_type_path = dyn;
}

-- The latest owned name belongs to an entry that is on the path.
abbrev pub IsOwned : List String → List (ℕ × String) → Type 0
IsOwned path [] = Unit
IsOwned path ((depth, name) ∷ ds) = depth ≤ length path

module _ (table : List Field) (show_pointer : ℕ → String) where
  push_all-append :
      (is a st : List Inst)
      → push_all table show_pointer is (a ++ st) ≡ push_all table show_pointer is a ++ st
  unfolding push_all
  push_all-append [] a st = refl
  push_all-append (i ∷ is) a st = push_all-append is (i ∷ a) st

  -- The processors push in front of what the stack holds.
  process-append :
      (ps : List (Dynamic × Handler)) (e e' : Element) (a p st : List Inst) (bytes bytes' : List ℕ)
      → process table show_pointer ps e a bytes ≡ ok (e', p, bytes')
      → process table show_pointer ps e (a ++ st) bytes ≡ ok (e', p ++ st, bytes')
  unfolding process
  process-append [] e e' a p st bytes bytes' h =
      ap
        (λ (t : Element × List Inst × List ℕ).
          let o : Outcome (Element × List Inst × List ℕ) = ok (t.0, t.1 ++ st, t.2) in o)
        (ok-injective h)
  process-append ((dy, handler) ∷ ps) e e' a p st bytes bytes' h =
      let ((parsed, bytes₁), h₁, k₁) = >>=-eq-ok (parse dy bytes) _ h in
      let ((e₁, pushed, bytes₂), h₂, k₂) = >>=-eq-ok (handler e parsed bytes₁) _ k₁ in
      rw (h₁, h₂, push_all-append pushed a st)
        (process-append ps e₁ e' (push_all table show_pointer pushed a) p st bytes₂ bytes' k₂)

  pop_other :
      (size : ℕ) (path : List String) (dyn : List (ℕ × String))
      → length path < size
      → IsOwned path dyn
      → pop_dynamic table show_pointer size dyn ≡ dyn
  unfolding pop_dynamic
  pop_other size path [] h o = refl
  pop_other size path ((depth, name) ∷ ds) h o =
      let differ : (depth == size) ≡ false = ground arith in rw differ refl

  IsOwned-deeper :
      (name : String) (path : List String) (dyn : List (ℕ × String))
      → IsOwned path dyn
      → IsOwned (name ∷ path) dyn
  IsOwned-deeper name path [] o = tt
  IsOwned-deeper name path ((depth, owner) ∷ ds) o = omega arith

  -- A field visited: what is below it lies on what the stack holds, and the names owned are those
  -- before once the last entry of the path is popped.
  pub record Entered (path : List String) (st : List Inst) (dyn : List (ℕ × String))
      (v : Visited table show_pointer) (r : Element × Core) : Type 0 where
    pub owned : List (ℕ × String)
    pub name : String
    pub visits :
        Path
          (Element × Core)
          r
          (v.element, core v.bytes (v.below ++ pop_type_path ∷ st) v.path owned)
    pub deeper : v.path ≡ name ∷ path
    pub popped : pop_dynamic table show_pointer (length v.path) owned ≡ dyn
    pub kept : IsOwned v.path owned

  named-Entered :
      (f : Field) (path : List String) (e : Element) (pushed st : List Inst) (bytes bytes' : List ℕ)
      (dyn : List (ℕ × String)) (o : Option String)
      → IsOwned path dyn
      → Entered path st dyn (named table show_pointer f path e pushed bytes' o) (
          name_field table show_pointer f
            (core bytes st path dyn)
            e
            (pushed ++ pop_type_path ∷ st)
            bytes'
            o)
  unfolding named name_field pop_dynamic
  named-Entered f path e pushed st bytes bytes' dyn none own = record {
    owned = dyn;
    name = f.name;
    visits =
        ap (λ (l : List Inst). let r : Element × Core = (e, core bytes' l (f.name ∷ path) dyn) in r)
          (sym (append_assoc (map field f.fields) pushed (pop_type_path ∷ st)));
    deeper = refl;
    popped = pop_other (length (f.name ∷ path)) path dyn (omega arith) own;
    kept = IsOwned-deeper f.name path dyn own;
  }
  named-Entered f path e pushed st bytes bytes' dyn (some name) own = record {
    owned = (suc (length path), name) ∷ dyn;
    name = name;
    visits =
        ap
          (λ (l : List Inst).
            let r : Element × Core = (
              renamed table show_pointer name path e,
              core bytes' l (name ∷ path) ((suc (length path), name) ∷ dyn),
            ) in
            r)
          (sym (append_assoc (map field f.fields) pushed (pop_type_path ∷ st)));
    deeper = refl;
    popped =
        let same : (suc (length path) == suc (length path)) ≡ true = ==_self (suc (length path)) in
        rw same refl;
    kept = omega arith;
  }

  pub visited-Entered :
      (f : Field) (path : List String) (bytes : List ℕ) (v : Visited table show_pointer)
      (st : List Inst) (dyn : List (ℕ × String))
      → visited table show_pointer f path bytes ≡ ok v
      → IsOwned path dyn
      → (r : Element × Core) × (visit_field table show_pointer f (core bytes st path dyn) ≡ ok r)
        × Entered path st dyn v r
  unfolding visited visit_field
  visited-Entered f path bytes v st dyn h own =
      let e₀ = new_element table show_pointer f (f.name ∷ path) in
      let ((e, pushed, bytes'), h₁, k) =
        >>=-eq-ok (process table show_pointer f.processors e₀ [] bytes) _ h in
      let o = gen_name_from_data table show_pointer e.payload in
      let run = process-append f.processors e₀ e [] pushed (pop_type_path ∷ st) bytes bytes' h₁ in
      let r =
        name_field table show_pointer f (core bytes st path dyn) e (pushed ++ pop_type_path ∷ st)
          bytes' o in
      (
        r,
        rw run refl,
        subst (λ w. Entered path st dyn w r) (ok-injective k)
            (named-Entered f path e pushed st bytes bytes' dyn o own),
      )

  pub pops :
      (v : Visited table show_pointer) (path : List String) (st st' : List Inst) (bytes : List ℕ)
      (dyn : List (ℕ × String)) (r : Element × Core)
      → (x : Entered path st dyn v r)
      → step table show_pointer pop_type_path (core bytes st' v.path x.owned)
        ≡ ok (none, core bytes st' path dyn)
  unfolding step
  pops v path st st' bytes dyn r x =
      let popped = λ (d : List (ℕ × String)) (up : List String).
        let o : Outcome (Option Element × Core) = ok (none, core bytes st' up d) in o in
      ap
        (λ (l : List String).
          pop_path table show_pointer l
          >>= popped (pop_dynamic table show_pointer (length v.path) x.owned))
        x.deeper
      ∙ ap (λ (d : List (ℕ × String)). popped d path) x.popped

  pub visits :
      (f : Field) (v : Visited table show_pointer) (path : List String) (bytes : List ℕ) (r : ℕ)
      (st : List Inst) (dyn : List (ℕ × String)) (out : Element × Core)
      → of_option dangling (get_elem? table r) ≡ ok f
      → visit_field table show_pointer f (core bytes st path dyn) ≡ ok out
      → (x : Entered path st dyn v out)
      → step table show_pointer (field r) (core bytes st path dyn)
        ≡ ok (some v.element, core v.bytes (v.below ++ pop_type_path ∷ st) v.path x.owned)
  unfolding step
  visits f v path bytes r st dyn out h h' x =
      let give = λ (t : Element × Core).
        let o : Outcome (Option Element × Core) = ok (some (t.0), t.1) in o in
      ap (λ o. o >>= λ g. visit_field table show_pointer g (core bytes st path dyn) >>= give) h
      ∙ ap (λ (o : Outcome (Element × Core)). o >>= give) h'
      ∙ ap give x.visits
