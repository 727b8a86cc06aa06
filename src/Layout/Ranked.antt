-- ===== src/Layout/Ranked.antt =====
-- Where no array, typedef or key capture contains itself, sizes and alignments do not depend on the
-- fuel, which does not run out, and typedefs are stripped.
use object_introspection.Prelude.{
  out_of_fuel, ◌≢◌, Bool, true, false, ℕ, zero, suc, ◌<◌, ◌≤◌, ◌≡◌, refl, inl, inr, some, ok, arith,
  sym, ◌∙◌, Option-cases,
}
use object_introspection.Types.{Ref, Node, typedef, Typedef}
use object_introspection.Store.{TypeGraph, deref}
use object_introspection.Layout.Inner.{
  inner, node_size_agree, node_align_agree, node_size_answers, node_align_answers,
}
use object_introspection.Layout.{size_of, align_of, strip_typedefs}

-- `rank` falls from a node to its inner node, which exists.
pub record IsRanked (rank : Ref → ℕ) (g : TypeGraph) : Type 0 where
  pub falls :
      (r : Ref) (n : Node) (x : Ref) → deref g r ≡ some n → inner n ≡ some x → rank x < rank r
  pub refers :
      (r : Ref) (n : Node) (x : Ref)
      → deref g r ≡ some n
      → inner n ≡ some x
      → (m : Node) × (deref g x ≡ some m)

abbrev pub is_typedef : Node → Bool
is_typedef (typedef t) = true
is_typedef _ = false

size_of-typedef :
    (f : ℕ) (g : TypeGraph) (r : Ref) (d : Typedef)
    → deref g r ≡ some (typedef d)
    → size_of (suc f) g r ≡ size_of f g d.underlying_type
unfolding size_of
size_of-typedef f g r d e = rw e

align_of-typedef :
    (f : ℕ) (g : TypeGraph) (r : Ref) (d : Typedef)
    → deref g r ≡ some (typedef d)
    → align_of (suc f) g r ≡ align_of f g d.underlying_type
unfolding align_of
align_of-typedef f g r d e = rw e

module _ {rank : Ref → ℕ} {g : TypeGraph} (ranked : IsRanked rank g) where
  -- More fuel than the rank changes nothing, whether there is a size or an error.
  pub size_of_settled : (f : ℕ) (r : Ref) → rank r < f → size_of (suc f) g r ≡ size_of f g r
  unfolding size_of
  size_of_settled zero r h = elim h [ ]
  size_of_settled (suc f) r h = elim (Option-cases (deref g r)) [
    | inl e ↦ rw e refl
    | inr (n, e) ↦ rw e (
        node_size_agree (size_of (suc f) g) (size_of f g) n
          λ x k. size_of_settled f x (omega (arith, ranked.falls r n x e k)))
  ]

  pub align_of_settled : (f : ℕ) (r : Ref) → rank r < f → align_of (suc f) g r ≡ align_of f g r
  unfolding align_of
  align_of_settled zero r h = elim h [ ]
  align_of_settled (suc f) r h = elim (Option-cases (deref g r)) [
    | inl e ↦ rw e refl
    | inr (n, e) ↦ rw e (
        node_align_agree (align_of (suc f) g) (align_of f g) n
          λ x k. align_of_settled f x (omega (arith, ranked.falls r n x e k)))
  ]

  -- More fuel than the rank does not run out.
  size_of_answers : (f : ℕ) (r : Ref) → rank r < f → size_of f g r ≢ out_of_fuel
  unfolding size_of
  size_of_answers zero r h = elim h [ ]
  size_of_answers (suc f) r h = elim (Option-cases (deref g r)) [
    | inl e ↦ rw e (λ k. cc)
    | inr (n, e) ↦ rw e (
        node_size_answers (size_of f g) n
          λ x k. size_of_answers f x (omega (arith, ranked.falls r n x e k)))
  ]

  align_of_answers : (f : ℕ) (r : Ref) → rank r < f → align_of f g r ≢ out_of_fuel
  unfolding align_of
  align_of_answers zero r h = elim h [ ]
  align_of_answers (suc f) r h = elim (Option-cases (deref g r)) [
    | inl e ↦ rw e (λ k. cc)
    | inr (n, e) ↦ rw e (
        node_align_answers (align_of f g) n
          λ x k. align_of_answers f x (omega (arith, ranked.falls r n x e k)))
  ]

  -- What `strip_typedefs` answers at a reference: the type behind the typedefs.
  pub record Stripped (f : ℕ) (r t : Ref) : Type 0 where
    pub node : Node
    pub found : deref g t ≡ some node
    pub bare : is_typedef node ≡ false
    pub lower : rank t ≤ rank r
    pub size_answers : size_of f g r ≢ out_of_fuel
    pub align_answers : align_of f g r ≢ out_of_fuel
    pub same_size : size_of f g r ≡ size_of f g t
    pub same_align : align_of f g r ≡ align_of f g t

  Stripped-self :
      (f : ℕ) (r : Ref) (n : Node)
      → deref g r ≡ some n
      → is_typedef n ≡ false
      → rank r < f
      → Stripped f r r
  Stripped-self f r n e b h = record {
    size_answers = size_of_answers f r h;
    align_answers = align_of_answers f r h;
    node = n;
    found = e;
    bare = b;
    lower = omega arith;
    same_size = refl;
    same_align = refl;
  }

  Stripped-typedef :
      (f : ℕ) (r : Ref) (d : Typedef) (t : Ref)
      → deref g r ≡ some (typedef d)
      → rank r < suc f
      → Stripped f d.underlying_type t
      → Stripped (suc f) r t
  Stripped-typedef f r d t e h s =
      let low = ranked.falls r (typedef d) d.underlying_type e refl in
      record {
        node = s.node;
        found = s.found;
        bare = s.bare;
        lower = omega (arith, s.lower);
        size_answers = size_of_answers (suc f) r h;
        align_answers = align_of_answers (suc f) r h;
        same_size =
            size_of-typedef f g r d e
            ∙ s.same_size
            ∙ sym (size_of_settled f t (omega (arith, s.lower)));
        same_align =
            align_of-typedef f g r d e
            ∙ s.same_align
            ∙ sym (align_of_settled f t (omega (arith, s.lower)));
      }

  -- In a graph with a rank that falls from each array, typedef and key capture to the type inside it,
  -- where these types exist, `stripTypedefs` returns for each type of a rank less than the fuel: it
  -- gives a type that exists, is no typedef and is of no higher rank, and whose size and alignment
  -- are those of the type given, or the same errors; and this fuel is enough to compute them.
  pub strip_typedefs-Stripped :
      (f : ℕ) (r : Ref) (n : Node)
      → deref g r ≡ some n
      → rank r < f
      → (t : Ref) × (strip_typedefs f g r ≡ ok t) × Stripped f r t
  unfolding strip_typedefs
  strip_typedefs-Stripped zero r n e h = elim h [ ]
  strip_typedefs-Stripped (suc f) r (typedef d) e h =
      let (m, found) = ranked.refers r (typedef d) d.underlying_type e refl in
      let low = ranked.falls r (typedef d) d.underlying_type e refl in
      let (t, strips, s) = strip_typedefs-Stripped f d.underlying_type m found (omega arith) in
      (t, rw e strips, Stripped-typedef f r d t e h s)
  strip_typedefs-Stripped (suc f) r n e h = (r, rw e, Stripped-self (suc f) r n e refl h)
