-- ===== src/RemoveTopLevelPointer.antt =====
-- oi/type_graph/RemoveTopLevelPointer.cpp: a root type that is a pointer or a reference is replaced by
-- what it refers to.
use object_introspection.Prelude.{List, [], ◌∷◌, Outcome, ok, dangling, of_option, ◌>>=◌}
use object_introspection.Types.{Ref, Node, pointer, reference}
use object_introspection.Store.{TypeGraph, deref}

-- The `visit`s: what `topLevelType_` is behind them, given what it was.
abbrev pub top_level_type : Node → Ref → Ref
top_level_type (pointer p) r = p.pointee_type
top_level_type (reference p) r = p.pointee_type
top_level_type _ r = r

-- The loop over the root types.
unfoldable pub top_level_types : TypeGraph → List Ref → Outcome (List Ref)
top_level_types g [] = ok []
top_level_types g (r ∷ rs) = of_option dangling (deref g r) >>= λ n.
    top_level_types g rs >>= λ out. ok (top_level_type n r ∷ out)

unfoldable pub remove_top_level_pointers : TypeGraph → Outcome TypeGraph
unfolding top_level_types
remove_top_level_pointers g =
    top_level_types g g.root_types >>= λ roots. ok (record g { root_types = roots })
