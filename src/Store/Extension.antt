-- ===== src/Store/Extension.antt =====
-- Graphs that only grow: every reference keeps what it refers to.
use object_introspection.Prelude.{◌≡◌, some}
use object_introspection.Types.{Ref, NodeId, Node}
use object_introspection.Store.{TypeGraph, deref, make_type}
use object_introspection.Store.Ids.{deref-make_type}

abbrev pub Extends : TypeGraph → TypeGraph → Type 0
Extends g g' = (r : Ref) (n : Node) → deref g r ≡ some n → deref g' r ≡ some n

pub Extends-make_type : (make : NodeId → Node) (g : TypeGraph) → Extends g (make_type make g).1
Extends-make_type make g r n = deref-make_type make g r n

pub Extends-trans : (g g' g'' : TypeGraph) → Extends g g' → Extends g' g'' → Extends g g''
Extends-trans g g' g'' h k r n e = k r n (h r n e)
