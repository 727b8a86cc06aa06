-- ===== src/RemoveMembers/Edits.antt =====
-- The visit of a class: its members are cleared or removed, and nothing else that was visited changes.
use object_introspection.Prelude.{
  ◌≡◌, refl, sym, ◌∙◌, ap, subst, List, [], ◌∷◌, some, false, All, arith, Bool-cases, ==_self,
  eq_of_==, inl, inr, ◌==◌, ◌<◌, length, String, length-set, get_elem?-set_self, get_elem?-set_ne,
  lt-length_of_get_elem?,
}
use object_introspection.Types.{
  Ref, Member, Class, ClassKind, class, struct, union, Node, class_node,
}
use object_introspection.Store.{TypeGraph, deref, put}
use object_introspection.Visitor.{Walk, enter, contains, member_types}
use object_introspection.Visitor.Links.{class_links, links, All-class_links}
use object_introspection.RemoveMembers.{
  is_incomplete, is_removed, erase_members, clear_union, cleaned,
}
use object_introspection.RemoveMembers.Walks.{
  Seen, Bounded, UnionIsEmpty, Done, Grows, IsClean-kind,
}

-- The node at an address of the graph is replaced by one with references of its own bounds.
module _ (g : TypeGraph) (r : Ref) (n : Node) where
  pub deref-put_self : {m : Node} → deref g r ≡ some m → deref (put r n g) r ≡ some n
  deref-put_self h = get_elem?-set_self g.nodes r n (lt-length_of_get_elem? g.nodes r h)

  pub deref-put_other : (x : Ref) → (x == r) ≡ false → deref (put r n g) x ≡ deref g x
  deref-put_other x h = get_elem?-set_ne g.nodes n (λ e. cc (h, sym (==_self x), e))

  pub length-put : length (put r n g).nodes ≡ length g.nodes
  length-put = length-set g.nodes r n

  Bounded-put :
      {m : Node}
      → deref g r ≡ some m
      → All (λ y. y < length g.nodes) (links n)
      → Bounded g
      → Bounded (put r n g)
  Bounded-put at fits h x k e = elim (Bool-cases (x == r)) [
    | inl same ↦
        let here : deref (put r n g) x ≡ some n = rw (eq_of_== x r same) (deref-put_self at) in
        let n_k : n ≡ k = cc (here, e) in
        subst (λ k. All (λ y. y < length (put r n g).nodes) (links k)) n_k (rw length-put fits)
    | inr other ↦ rw length-put (h x k (sym (deref-put_other x other) ∙ e))
  ]

Seen-ne : (s : Walk) (x r : Ref) → Seen s x → contains s.visited r ≡ false → (x == r) ≡ false
Seen-ne s x r h new = elim (Bool-cases (x == r)) [
  | inl same ↦ cc (h, ap (contains s.visited) (eq_of_== x r same), new)
  | inr other ↦ other
]

-- Classes stay classes.
kind-put :
    (g : TypeGraph) (r : Ref) (c d : Class)
    → deref g r ≡ some (class_node c)
    → (x : Ref) → is_incomplete (deref (put r (class_node d) g) x) ≡ is_incomplete (deref g x)
kind-put g r c d at x = elim (Bool-cases (x == r)) [
  | inl same ↦
      rw (eq_of_== x r same)
        (ap is_incomplete (deref-put_self g r (class_node d) at) ∙ sym (ap is_incomplete at))
  | inr other ↦ ap is_incomplete (deref-put_other g r (class_node d) x other)
]

module _ (P : Ref → Type 0) where
  All-erase :
      (ignored : List (String × String)) (g : TypeGraph) (name : String) (ms : List Member)
      → All P (member_types ms)
      → All P (member_types (erase_members ignored g name ms))
  All-erase ignored g name [] h = tt
  All-erase ignored g name (m ∷ ms) h = elim (Bool-cases (is_removed ignored g name m)) [
    | inl out ↦ rw out (All-erase ignored g name ms h.1)
    | inr kept ↦ rw kept (h.0, All-erase ignored g name ms h.1)
  ]

  All-cleared :
      (k : ClassKind) (ms : List Member)
      → All P (member_types ms)
      → All P (member_types (elim k [ union ↦ [] | class ↦ ms | struct ↦ ms ]))
  All-cleared union ms h = tt
  All-cleared class ms h = h
  All-cleared struct ms h = h

module _ (r : Ref) (s : Walk) (c : Class) where
  abbrev pub started : Walk
  started = record (enter r s).1 { graph = put r (class_node (clear_union c)) s.graph }

  pub Bounded-started :
      deref s.graph r ≡ some (class_node c) → Bounded s.graph → Bounded started.graph
  Bounded-started at h =
      Bounded-put s.graph r (class_node (clear_union c)) at
        (All-class_links _ c _ (All-cleared _ c.kind c.members) (h r (class_node c) at)) h

module _ (ignored : List (String × String)) where
  erase-kept :
      (g : TypeGraph) (name : String) (ms : List Member)
      → All (λ m. is_removed ignored g name m ≡ false) (erase_members ignored g name ms)
  erase-kept g name [] = tt
  erase-kept g name (m ∷ ms) = elim (Bool-cases (is_removed ignored g name m)) [
    | inl out ↦ rw out (erase-kept g name ms)
    | inr kept ↦ rw kept (kept, erase-kept g name ms)
  ]

  erase-UnionIsEmpty :
      (g : TypeGraph) (name : String) (k : ClassKind) (ms : List Member)
      → UnionIsEmpty k
          (erase_members ignored g name (elim k [ union ↦ [] | class ↦ ms | struct ↦ ms ]))
  erase-UnionIsEmpty g name union ms = refl
  erase-UnionIsEmpty g name class ms = tt
  erase-UnionIsEmpty g name struct ms = tt

  module _ (r : Ref) (s : Walk) (c : Class) (s₂ : Walk) where
    abbrev pub result : Class
    result = cleaned ignored s₂.graph (clear_union c)

    abbrev pub finished : Walk
    finished = record s₂ { graph = put r (class_node result) s₂.graph }

    pub Grows-class :
        contains s.visited r ≡ false
        → deref s.graph r ≡ some (class_node c)
        → Grows ignored (started r s c) s₂
        → All (Seen s₂) (class_links (clear_union c))
        → Grows ignored s finished
    Grows-class new at g all = record {
      more = λ x h. g.more x (ground arith);
      same = λ x h.
          let ne = Seen-ne s x r h new in
          deref-put_other s₂.graph r (class_node result) x ne
          ∙ g.same x (ground arith)
          ∙ deref-put_other s.graph r (class_node (clear_union c)) x ne;
      kind = λ x. kind₂ x ∙ g.kind x ∙ kind-put s.graph r c (clear_union c) at x;
      count =
          length-put s₂.graph r (class_node result)
          ∙ g.count
          ∙ length-put s.graph r (class_node (clear_union c));
      roots = g.roots;
      bounded = λ h.
          let b₂ = g.bounded (Bounded-started r s c at h) in
          Bounded-put s₂.graph r (class_node result) at₂
            (All-class_links _ (clear_union c) _ (fewer _) (b₂ r (class_node (clear_union c)) at₂))
            b₂;
      done = λ x h. elim (Bool-cases (x == r)) [
        | inl same ↦ inr (subst (Done ignored finished) (sym (eq_of_== x r same)) done_r)
        | inr other ↦ elim (g.done x h) [
          | inl seen ↦ inl (ground arith)
          | inr (n, e, clean, seen) ↦ inr (
            n,
            deref-put_other s₂.graph r (class_node result) x other ∙ e,
            IsClean-kind ignored s₂.graph finished.graph kind₂ n clean,
            seen,
          )
        ]
      ];
    }
      where
        at₂ : deref s₂.graph r ≡ some (class_node (clear_union c))
        at₂ = g.same r (ground arith) ∙ deref-put_self s.graph r _ at

        kind₂ :
            (x : Ref) → is_incomplete (deref finished.graph x) ≡ is_incomplete (deref s₂.graph x)
        kind₂ = kind-put s₂.graph r (clear_union c) result at₂

        fewer :
            (P : Ref → Type 0)
            → All P (member_types (clear_union c).members)
            → All P (member_types result.members)
        fewer P = All-erase P ignored s₂.graph c.input_name (clear_union c).members

        done_r : Done ignored finished r
        done_r = (
          class_node result,
          deref-put_self s₂.graph r (class_node result) at₂,
          IsClean-kind ignored s₂.graph finished.graph kind₂ (class_node result) (
            erase-kept s₂.graph c.input_name (clear_union c).members,
            erase-UnionIsEmpty s₂.graph c.input_name c.kind c.members,
          ),
          All-class_links (Seen s₂) (clear_union c) _ (fewer (Seen s₂)) all,
        )
