-- ===== src/TopoSorter/Needs.antt =====
-- What C++ asks of a declaration: the types that have to be complete before a type, and those that it
-- mentions at all. The calls that the sorter makes for a type are these.
use mathlib.Core.List.{append-nil}
use object_introspection.Prelude.{
  ℕ, suc, ◌≡◌, refl, List, [], ◌∷◌, ◌++◌, map, Bool, true, false, arith, All, Option, some, none,
  Bool-cases, inl, inr, ◌∙◌, ap, ◌==◌,
}
use object_introspection.Types.{
  Ref, TemplateParam, Container, Node, incomplete, class_node, container, primitive, enum_node,
  array, typedef, pointer, reference, dummy, dummy_allocator, capture_keys,
}
use object_introspection.Store.{TypeGraph, deref}
use object_introspection.Visitor.{param_types, parent_types, member_types}
use object_introspection.TopoSorter.{
  Call, now, later, calls_before, children_of, param_calls, pointee_call, allows_incomplete,
  is_typedef, container_allows_incomplete_param,
}

-- The types that stand in a class, in a container (without the first parameter of a container that
-- may be of an incomplete type) or behind an alias; a typedef cannot be declared forward, so it
-- has to stand before a pointer to it.
abbrev pub pointee_needs : Option Node → Ref → List Ref
pointee_needs (some (typedef t)) r = r ∷ []
pointee_needs _ r = []

abbrev pub complete_params : Bool → List TemplateParam → List Ref
complete_params true [] = []
complete_params true (p ∷ ps) = param_types ps
complete_params false ps = param_types ps

abbrev pub needs : TypeGraph → Node → List Ref
needs g (incomplete t) = []
needs g (class_node c) =
    parent_types c.parents ++ member_types c.members ++ param_types c.template_params
needs g (container c) = complete_params (allows_incomplete c.container_info.ctype) c.template_params
needs g (primitive k) = []
needs g (enum_node t) = []
needs g (array t) = t.element_type ∷ []
needs g (typedef t) = t.underlying_type ∷ []
needs g (pointer t) = pointee_needs (deref g t.pointee_type) t.pointee_type
needs g (reference t) = pointee_needs (deref g t.pointee_type) t.pointee_type
needs g (dummy t) = []
needs g (dummy_allocator t) = t.type ∷ []
needs g (capture_keys t) = t.underlying_type ∷ []

-- All types that a node mentions, but the container that an adapter is made of.
abbrev pub mentions : Node → List Ref
mentions (incomplete t) = []
mentions (class_node c) =
    (parent_types c.parents ++ member_types c.members ++ param_types c.template_params)
    ++ c.children
mentions (container c) = param_types c.template_params
mentions (primitive k) = []
mentions (enum_node t) = []
mentions (array t) = t.element_type ∷ []
mentions (typedef t) = t.underlying_type ∷ []
mentions (pointer t) = t.pointee_type ∷ []
mentions (reference t) = t.pointee_type ∷ []
mentions (dummy t) = []
mentions (dummy_allocator t) = t.type ∷ []
mentions (capture_keys t) = t.underlying_type ∷ []

-- The references among a node's calls that come first, those that are put off, and all.
unfoldable pub firsts : List Call → List Ref
firsts [] = []
firsts (now r ∷ cs) = r ∷ firsts cs
firsts (later r ∷ cs) = firsts cs

unfoldable pub put_off : List Call → List Ref
put_off [] = []
put_off (now r ∷ cs) = put_off cs
put_off (later r ∷ cs) = r ∷ put_off cs

unfoldable pub targets : List Call → List Ref
targets [] = []
targets (now r ∷ cs) = r ∷ targets cs
targets (later r ∷ cs) = r ∷ targets cs

module _ {ℓ} (P : Ref → Type ℓ) where
  pub All-parts : (cs : List Call) → All P (targets cs) → All P (firsts cs) × All P (put_off cs)
  unfolding targets firsts put_off
  All-parts [] h = (tt, tt)
  All-parts (now r ∷ cs) h = let (a, b) = All-parts cs h.1 in ((h.0, a), b)
  All-parts (later r ∷ cs) h = let (a, b) = All-parts cs h.1 in (a, (h.0, b))

  pub All-targets : (cs : List Call) → All P (firsts cs) → All P (put_off cs) → All P (targets cs)
  unfolding targets firsts put_off
  All-targets [] h k = tt
  All-targets (now r ∷ cs) h k = (h.0, All-targets cs h.1 k)
  All-targets (later r ∷ cs) h k = (k.0, All-targets cs h k.1)

  pub All-split : (xs ys : List Ref) → All P (xs ++ ys) → All P xs × All P ys
  All-split [] ys h = (tt, h)
  All-split (x ∷ xs) ys h = let (a, b) = All-split xs ys h.1 in ((h.0, a), b)

firsts-now : (rs : List Ref) → firsts (map now rs) ≡ rs
unfolding firsts
firsts-now [] = refl
firsts-now (r ∷ rs) = ap (λ l. r ∷ l) (firsts-now rs)

targets-now : (rs : List Ref) → targets (map now rs) ≡ rs
unfolding targets
targets-now [] = refl
targets-now (r ∷ rs) = ap (λ l. r ∷ l) (targets-now rs)

firsts_later_params :
    (c : Container) (i : ℕ) (ps : List TemplateParam)
    → firsts (param_calls c (suc i) ps) ≡ param_types ps
unfolding param_calls container_allows_incomplete_param firsts
firsts_later_params c i [] = refl
firsts_later_params c i (p ∷ ps) =
    let rest = firsts_later_params c (suc i) ps in
    let past_first : (suc i == 0) ≡ false = ground arith in
    elim (Bool-cases (allows_incomplete c.container_info.ctype)) [
      | inl a ↦ rw (a, past_first, rest)
      | inr a ↦ rw (a, rest)
    ]

firsts_params :
    (c : Container) (ps : List TemplateParam)
    → firsts (param_calls c 0 ps) ≡ complete_params (allows_incomplete c.container_info.ctype) ps
unfolding param_calls container_allows_incomplete_param firsts
firsts_params c [] = elim (Bool-cases (allows_incomplete c.container_info.ctype)) [
  | inl a ↦ rw a
  | inr a ↦ rw a
]
firsts_params c (p ∷ ps) =
    let rest = firsts_later_params c 0 ps in
    elim (Bool-cases (allows_incomplete c.container_info.ctype)) [
      | inl a ↦ rw (a, rest)
      | inr a ↦ rw (a, rest)
    ]

targets_params :
    (c : Container) (i : ℕ) (ps : List TemplateParam)
    → targets (param_calls c i ps) ≡ param_types ps
unfolding param_calls targets
targets_params c i [] = refl
targets_params c i (p ∷ ps) =
    let rest = targets_params c (suc i) ps in
    elim (Bool-cases (container_allows_incomplete_param c i)) [
      | inl a ↦ rw (a, rest)
      | inr a ↦ rw (a, rest)
    ]

pointee_parts :
    (g : TypeGraph) (r : Ref) (o : Option Node)
    → deref g r ≡ o
    → (firsts (pointee_call g r ∷ []) ≡ pointee_needs o r)
      × (targets (pointee_call g r ∷ []) ≡ r ∷ [])
unfolding pointee_call is_typedef firsts targets
pointee_parts g r none e = rw e (refl, refl)
pointee_parts g r (some (incomplete t)) e = rw e (refl, refl)
pointee_parts g r (some (class_node t)) e = rw e (refl, refl)
pointee_parts g r (some (container t)) e = rw e (refl, refl)
pointee_parts g r (some (primitive t)) e = rw e (refl, refl)
pointee_parts g r (some (enum_node t)) e = rw e (refl, refl)
pointee_parts g r (some (array t)) e = rw e (refl, refl)
pointee_parts g r (some (typedef t)) e = rw e (refl, refl)
pointee_parts g r (some (pointer t)) e = rw e (refl, refl)
pointee_parts g r (some (reference t)) e = rw e (refl, refl)
pointee_parts g r (some (dummy t)) e = rw e (refl, refl)
pointee_parts g r (some (dummy_allocator t)) e = rw e (refl, refl)
pointee_parts g r (some (capture_keys t)) e = rw e (refl, refl)

-- The types that the calls of a visit sort first are those that the node needs, in the same order.
pub firsts-calls_before : (g : TypeGraph) (n : Node) → firsts (calls_before g n) ≡ needs g n
unfolding calls_before firsts
firsts-calls_before g (incomplete t) = refl
firsts-calls_before g (class_node c) =
    firsts-now (parent_types c.parents ++ member_types c.members ++ param_types c.template_params)
firsts-calls_before g (container c) = firsts_params c c.template_params
firsts-calls_before g (primitive k) = refl
firsts-calls_before g (enum_node t) = refl
firsts-calls_before g (array t) = refl
firsts-calls_before g (typedef t) = refl
firsts-calls_before g (pointer t) = (pointee_parts g t.pointee_type (deref g t.pointee_type) refl).0
firsts-calls_before g (reference t) =
    (pointee_parts g t.pointee_type (deref g t.pointee_type) refl).0
firsts-calls_before g (dummy t) = refl
firsts-calls_before g (dummy_allocator t) = refl
firsts-calls_before g (capture_keys t) = refl

-- All calls of a visit go to the types that the node mentions.
pub targets-calls_before :
    (g : TypeGraph) (n : Node) → targets (calls_before g n) ++ children_of n ≡ mentions n
unfolding calls_before targets children_of
targets-calls_before g (incomplete t) = refl
targets-calls_before g (class_node c) =
    ap (λ l. l ++ c.children)
      (targets-now
        (parent_types c.parents ++ member_types c.members ++ param_types c.template_params))
targets-calls_before g (container c) =
    append-nil (targets (param_calls c 0 c.template_params)) ∙ targets_params c 0 c.template_params
targets-calls_before g (primitive k) = refl
targets-calls_before g (enum_node t) = refl
targets-calls_before g (array t) = refl
targets-calls_before g (typedef t) = refl
targets-calls_before g (pointer t) =
    append-nil (targets (pointee_call g t.pointee_type ∷ []))
    ∙ (pointee_parts g t.pointee_type (deref g t.pointee_type) refl).1
targets-calls_before g (reference t) =
    append-nil (targets (pointee_call g t.pointee_type ∷ []))
    ∙ (pointee_parts g t.pointee_type (deref g t.pointee_type) refl).1
targets-calls_before g (dummy t) = refl
targets-calls_before g (dummy_allocator t) = refl
targets-calls_before g (capture_keys t) = refl
