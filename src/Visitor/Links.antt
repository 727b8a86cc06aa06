-- ===== src/Visitor/Links.antt =====
-- The references of a node in the order in which the walk follows them, and what they reach.
use object_introspection.Prelude.{
  ◌≡◌, refl, sym, ◌∙◌, ap, fun_ext, subst, List, [], ◌∷◌, ◌++◌, Option, none, some, Outcome, ok,
  err, out_of_fuel, ◌>>=◌, for_each, All, All-append,
}
use mathlib.Core.List.{Memᴰ}
use object_introspection.Types.{
  Ref, Member, Class, Node, incomplete, class_node, container, primitive, enum_node, array, typedef,
  pointer, reference, dummy, dummy_allocator, capture_keys,
}
use object_introspection.Store.{TypeGraph, deref}
use object_introspection.Visitor.{
  param_types, parent_types, member_types, accept_pointer, visit_class, visit_container,
  visit_default,
}

abbrev pub class_links : Class → List Ref
class_links c =
    param_types c.template_params
    ++ (parent_types c.parents ++ (member_types c.members ++ c.children))

abbrev of_pointer : Option Ref → List Ref
of_pointer none = []
of_pointer (some r) = r ∷ []

abbrev pub links : Node → List Ref
links (incomplete t) = []
links (class_node c) = class_links c
links (container c) = param_types c.template_params ++ of_pointer c.underlying
links (primitive k) = []
links (enum_node t) = []
links (array t) = t.element_type ∷ []
links (typedef t) = t.underlying_type ∷ []
links (pointer t) = t.pointee_type ∷ []
links (reference t) = t.pointee_type ∷ []
links (dummy t) = []
links (dummy_allocator t) = t.type ∷ []
links (capture_keys t) = t.underlying_type ∷ []

pub All-Memᴰ : (P : Ref → Type 0) (xs : List Ref) → All P xs → (r : Ref) → Memᴰ r xs → P r
All-Memᴰ P [] h r m = elim m [ ]
All-Memᴰ P (y ∷ xs) h r (Memᴰ.head e) = subst P (sym e) h.0
All-Memᴰ P (y ∷ xs) h r (Memᴰ.tail m) = All-Memᴰ P xs h.1 r m

pub All-split : (P : Ref → Type 0) (xs ys : List Ref) → All P (xs ++ ys) → All P xs × All P ys
All-split P [] ys h = (tt, h)
All-split P (x ∷ xs) ys h = let (a, b) = All-split P xs ys h.1 in ((h.0, a), b)

-- Fewer members have fewer references.
pub All-class_links :
    (P : Ref → Type 0) (c : Class) (ms : List Member)
    → (All P (member_types c.members) → All P (member_types ms))
    → All P (class_links c)
    → All P (class_links (record c { members = ms }))
All-class_links P c ms fewer h =
    let (ps, t) = All-split P (param_types c.template_params) _ h in
    let (qs, u) = All-split P (parent_types c.parents) _ t in
    let (m, cs) = All-split P (member_types c.members) _ u in
    All-append P (param_types c.template_params) _ ps
      (All-append P (parent_types c.parents) _ qs (All-append P (member_types ms) _ (fewer m) cs))

-- The types that a graph has for the code generation: the roots, and what these refer to.
pub data Reachable (g : TypeGraph) : Ref → Type 0 where
  root : {r : Ref} → Memᴰ r g.root_types → Reachable g r
  link :
      {r x : Ref} {n : Node} → Reachable g r → deref g r ≡ some n → Memᴰ x (links n) → Reachable g x

module _ {S : Type 0} where
  bind-ok : (o : Outcome S) → (o >>= ok) ≡ o
  bind-ok (ok s) = refl
  bind-ok (err e) = refl
  bind-ok out_of_fuel = refl

  bind-bind :
      {A : Type 0} (o : Outcome A) (f : A → Outcome S) (g : S → Outcome S)
      → ((o >>= f) >>= g) ≡ (o >>= λ s. f s >>= g)
  bind-bind (ok s) f g = refl
  bind-bind (err e) f g = refl
  bind-bind out_of_fuel f g = refl

  module _ (accept : Ref → S → Outcome S) where
    for_each-append :
        (xs ys : List Ref) (s : S)
        → for_each accept (xs ++ ys) s ≡ (for_each accept xs s >>= for_each accept ys)
    for_each-append [] ys s = refl
    for_each-append (x ∷ xs) ys s =
        ap (λ k. accept x s >>= k) (fun_ext (for_each-append xs ys))
        ∙ sym (bind-bind (accept x s) (for_each accept xs) (for_each accept ys))

    pub visit_class-links :
        (c : Class) (s : S) → visit_class accept c s ≡ for_each accept (class_links c) s
    unfolding visit_class
    visit_class-links c s =
        let params = param_types c.template_params in
        let parents = parent_types c.parents in
        let members = member_types c.members in
        sym (
          for_each-append params (parents ++ (members ++ c.children)) s
          ∙ ap (λ k. for_each accept params s >>= k)
              (fun_ext (for_each-append parents (members ++ c.children))
                ∙ ap (λ k. λ t. for_each accept parents t >>= k)
                    (fun_ext (for_each-append members c.children))))

    accept_pointer-links :
        (o : Option Ref) (s : S) → accept_pointer accept o s ≡ for_each accept (of_pointer o) s
    accept_pointer-links none s = refl
    accept_pointer-links (some r) s = sym (bind-ok (accept r s))

    pub visit_default-links :
        (n : Node) (s : S) → visit_default accept n s ≡ for_each accept (links n) s
    unfolding visit_default visit_container
    visit_default-links (class_node c) s = visit_class-links c s
    visit_default-links (container c) s =
        let params = param_types c.template_params in
        ap (λ k. for_each accept params s >>= k) (fun_ext (accept_pointer-links c.underlying))
        ∙ sym (for_each-append params (of_pointer c.underlying) s)
    visit_default-links (incomplete t) s = refl
    visit_default-links (primitive k) s = refl
    visit_default-links (enum_node t) s = refl
    visit_default-links (array t) s = sym (bind-ok (accept t.element_type s))
    visit_default-links (typedef t) s = sym (bind-ok (accept t.underlying_type s))
    visit_default-links (pointer t) s = sym (bind-ok (accept t.pointee_type s))
    visit_default-links (reference t) s = sym (bind-ok (accept t.pointee_type s))
    visit_default-links (dummy t) s = refl
    visit_default-links (dummy_allocator t) s = sym (bind-ok (accept t.type s))
    visit_default-links (capture_keys t) s = sym (bind-ok (accept t.underlying_type s))
