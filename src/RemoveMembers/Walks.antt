-- ===== src/RemoveMembers/Walks.antt =====
-- What a run of the pass from one state to a later one keeps, and what it makes of the nodes it visits.
use object_introspection.Prelude.{
  ◌≡◌, refl, sym, ◌∙◌, subst, List, [], some, true, false, All, All-map, arith, Bool-cases,
  eq_of_==, inl, inr, ◌⊎◌, ◌==◌, ◌<◌, length, String,
}
use object_introspection.Types.{
  Ref, Member, ClassKind, class, struct, union, Node, incomplete, class_node, container, primitive,
  enum_node, array, typedef, pointer, reference, dummy, dummy_allocator, capture_keys,
}
use object_introspection.Store.{TypeGraph, deref}
use object_introspection.Visitor.{Walk, enter, contains}
use object_introspection.Visitor.Links.{links}
use object_introspection.RemoveMembers.{is_incomplete, is_removed}

abbrev pub Seen : Walk → Ref → Type 0
Seen s x = contains s.visited x ≡ true

-- Every node refers to nodes of the graph only.
abbrev pub Bounded : TypeGraph → Type 0
Bounded g = (x : Ref) (n : Node) → deref g x ≡ some n → All (λ y. y < length g.nodes) (links n)

abbrev pub UnionIsEmpty : ClassKind → List Member → Type 0
UnionIsEmpty union ms = ms ≡ []
UnionIsEmpty class ms = Unit
UnionIsEmpty struct ms = Unit

module _ (ignored : List (String × String)) where
  -- A class has no member that the pass removes, and a union none at all.
  abbrev pub IsClean : TypeGraph → Node → Type 0
  IsClean g (class_node c) =
      All (λ m. is_removed ignored g c.input_name m ≡ false) c.members
      × UnionIsEmpty c.kind c.members
  IsClean g _ = Unit

  -- A node that the pass is through with: what it refers to is visited.
  abbrev pub Done : Walk → Ref → Type 0
  Done s x = (n : Node) × (deref s.graph x ≡ some n) × IsClean s.graph n × All (Seen s) (links n)

  pub record Grows (s s' : Walk) : Type 0 where
    pub more : (x : Ref) → Seen s x → Seen s' x
    pub same : (x : Ref) → Seen s x → deref s'.graph x ≡ deref s.graph x
    pub kind : (x : Ref) → is_incomplete (deref s'.graph x) ≡ is_incomplete (deref s.graph x)
    pub count : length s'.graph.nodes ≡ length s.graph.nodes
    pub roots : s'.graph.root_types ≡ s.graph.root_types
    pub bounded : Bounded s.graph → Bounded s'.graph
    pub done : (x : Ref) → Seen s' x → Seen s x ⊎ Done s' x

  is_removed-kind :
      (g g' : TypeGraph)
      → ((x : Ref) → is_incomplete (deref g' x) ≡ is_incomplete (deref g x))
      → (name : String) (m : Member) → is_removed ignored g' name m ≡ is_removed ignored g name m
  is_removed-kind g g' kind name m = rw (kind m.type) refl

  pub IsClean-kind :
      (g g' : TypeGraph)
      → ((x : Ref) → is_incomplete (deref g' x) ≡ is_incomplete (deref g x))
      → (n : Node) → IsClean g n
      → IsClean g' n
  IsClean-kind g g' kind (class_node c) h =
      (All-map (λ m e. is_removed-kind g g' kind c.input_name m ∙ e) c.members h.0, h.1)
  IsClean-kind g g' kind (incomplete t) h = tt
  IsClean-kind g g' kind (container t) h = tt
  IsClean-kind g g' kind (primitive t) h = tt
  IsClean-kind g g' kind (enum_node t) h = tt
  IsClean-kind g g' kind (array t) h = tt
  IsClean-kind g g' kind (typedef t) h = tt
  IsClean-kind g g' kind (pointer t) h = tt
  IsClean-kind g g' kind (reference t) h = tt
  IsClean-kind g g' kind (dummy t) h = tt
  IsClean-kind g g' kind (dummy_allocator t) h = tt
  IsClean-kind g g' kind (capture_keys t) h = tt

  Grows-Done : (s s' : Walk) → Grows s s' → (x : Ref) → Seen s x → Done s x → Done s' x
  Grows-Done s s' g x seen (n, e, clean, all) = (
    n,
    g.same x seen ∙ e,
    IsClean-kind s.graph s'.graph g.kind n clean,
    All-map g.more (links n) all,
  )

  pub Grows-self : (s : Walk) → Grows s s
  Grows-self s = record {
    more = λ x h. h;
    same = λ x h. refl;
    kind = λ x. refl;
    count = refl;
    roots = refl;
    bounded = λ h. h;
    done = λ x h. inl h;
  }

  pub Grows-trans : (s t u : Walk) → Grows s t → Grows t u → Grows s u
  Grows-trans s t u p q = record {
    more = λ x h. q.more x (p.more x h);
    same = λ x h. q.same x (p.more x h) ∙ p.same x h;
    kind = λ x. q.kind x ∙ p.kind x;
    count = q.count ∙ p.count;
    roots = q.roots ∙ p.roots;
    bounded = λ h. q.bounded (p.bounded h);
    done = λ x h. elim (q.done x h) [
      | inl seen ↦ elim (p.done x seen) [
        | inl before ↦ inl before
        | inr done ↦ inr (Grows-Done t u q x seen done)
      ]
      | inr done ↦ inr done
    ];
  }

  -- A node that is visited again.
  pub Grows-again : (r : Ref) (s : Walk) → Seen s r → Grows s (enter r s).1
  Grows-again r s seen = record {
    more = λ x h. ground arith;
    same = λ x h. refl;
    kind = λ x. refl;
    count = refl;
    roots = refl;
    bounded = λ h. h;
    done = λ x h. elim (Bool-cases (x == r)) [
      | inl e ↦ inl (subst (Seen s) (sym (eq_of_== x r e)) seen)
      | inr other ↦ inl (ground arith)
    ];
  }

  -- A node that is new, and that the run behind `enter` is through with.
  pub Grows-enter : (r : Ref) (s s' : Walk) → Grows (enter r s).1 s' → Done s' r → Grows s s'
  Grows-enter r s s' g done = record {
    more = λ x h. g.more x (ground arith);
    same = λ x h. g.same x (ground arith);
    kind = g.kind;
    count = g.count;
    roots = g.roots;
    bounded = g.bounded;
    done = λ x h. elim (g.done x h) [
      | inl seen ↦ elim (Bool-cases (x == r)) [
        | inl e ↦ inr (subst (Done s') (sym (eq_of_== x r e)) done)
        | inr other ↦ inl (ground arith)
      ]
      | inr d ↦ inr d
    ];
  }
