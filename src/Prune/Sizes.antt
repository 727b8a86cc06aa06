-- ===== src/Prune/Sizes.antt =====
-- Pruning changes no size and no alignment of any type.
use object_introspection.Prelude.{
  ℕ, zero, suc, ◌≡◌, ◌⊎◌, refl, sym, ◌∙◌, ap, fun_ext, some, Option, Outcome, of_option, dangling,
  ◌>>=◌, Bool-cases, inl, inr, ◌==◌, eq_of_==, get_elem?-set_self, get_elem?-set_ne,
  lt-length_of_get_elem?, arith,
}
use object_introspection.Types.{Ref, Node}
use object_introspection.Store.{TypeGraph, deref, put}
use object_introspection.Layout.{size_of, align_of, node_size, node_align}

-- The types of two graphs have the same sizes and alignments.
pub record SameLayout (g g' : TypeGraph) : Type 0 where
  pub sizes : (f : ℕ) (r : Ref) → size_of f g' r ≡ size_of f g r
  pub aligns : (f : ℕ) (r : Ref) → align_of f g' r ≡ align_of f g r

module _ (g : TypeGraph) (r : Ref) (n n' : Node) (here : deref g r ≡ some n) where
  pub deref-put :
      (x : Ref) → ((x ≡ r) × (deref (put r n' g) x ≡ some n')) ⊎ (deref (put r n' g) x ≡ deref g x)
  deref-put x = elim (Bool-cases (x == r)) [
    | inl same ↦
        let e = eq_of_== x r same in
        inl (
          e,
          ap (λ y. deref (put r n' g) y) e
              ∙ get_elem?-set_self g.nodes r n' (lt-length_of_get_elem? g.nodes r here),
        )
    | inr other ↦ inr (get_elem?-set_ne g.nodes n' (λ e. ground arith))
  ]

  module _
      (same : (rec : Ref → Outcome ℕ)
        → (node_size rec n' ≡ node_size rec n) × (node_align rec n' ≡ node_align rec n)) where
    put_size : (f : ℕ) (x : Ref) → size_of f (put r n' g) x ≡ size_of f g x
    unfolding size_of
    put_size zero x = refl
    put_size (suc f) x =
        let rest : size_of f (put r n' g) ≡ size_of f g = fun_ext (put_size f) in
        let size =
          λ (rec : Ref → Outcome ℕ) (o : Option Node). of_option dangling o >>= node_size rec in
        elim (deref-put x) [
          | inr e ↦ ap (size (size_of f (put r n' g))) e ∙ ap (λ rec. size rec (deref g x)) rest
          | inl (e, e') ↦
              ap (size (size_of f (put r n' g))) e'
              ∙ (same (size_of f (put r n' g))).0
              ∙ ap (λ rec. node_size rec n) rest
              ∙ ap (size (size_of f g)) (sym (ap (deref g) e ∙ here))
        ]

    put_align : (f : ℕ) (x : Ref) → align_of f (put r n' g) x ≡ align_of f g x
    unfolding align_of
    put_align zero x = refl
    put_align (suc f) x =
        let rest : align_of f (put r n' g) ≡ align_of f g = fun_ext (put_align f) in
        let align =
          λ (rec : Ref → Outcome ℕ) (o : Option Node). of_option dangling o >>= node_align rec in
        elim (deref-put x) [
          | inr e ↦ ap (align (align_of f (put r n' g))) e ∙ ap (λ rec. align rec (deref g x)) rest
          | inl (e, e') ↦
              ap (align (align_of f (put r n' g))) e'
              ∙ (same (align_of f (put r n' g))).1
              ∙ ap (λ rec. node_align rec n) rest
              ∙ ap (align (align_of f g)) (sym (ap (deref g) e ∙ here))
        ]

    -- A node replaced by one that answers alike changes no type's layout.
    pub put-SameLayout : SameLayout g (put r n' g)
    put-SameLayout = record { sizes = put_size; aligns = put_align }
