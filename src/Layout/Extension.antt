-- ===== src/Layout/Extension.antt =====
-- The size of a type does not change as the graph grows.
use object_introspection.Prelude.{ℕ, zero, suc, ◌≡◌, ok, Option-cases, inl, inr}
use object_introspection.Types.{Ref}
use object_introspection.Store.{TypeGraph, deref}
use object_introspection.Store.Extension.{Extends}
use object_introspection.Layout.{size_of}
use object_introspection.Layout.Inner.{node_size_mono}

pub size_of-Extends :
    (f : ℕ) (g g' : TypeGraph) (r : Ref) (s : ℕ)
    → Extends g g'
    → size_of f g r ≡ ok s
    → size_of f g' r ≡ ok s
unfolding size_of
size_of-Extends zero g g' r s ext h = cc
size_of-Extends (suc f) g g' r s ext h = elim (Option-cases (deref g r)) [
  | inl e ↦ cc (rw (e, size_of) at h)
  | inr (n, e) ↦ rw (ext r n e) (
      node_size_mono (size_of f g) (size_of f g') n s (λ x a. size_of-Extends f g g' x a ext)
        (rw e at h))
]
