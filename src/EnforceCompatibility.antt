-- ===== src/EnforceCompatibility.antt =====
-- oi/type_graph/EnforceCompatibility.cpp: the members of some classes, and those that stand for the
-- parents that are containers, are removed.
use object_introspection.Prelude.{
  ℕ, List, [], ◌∷◌, Bool, true, false, Outcome, ok, dangling, of_option, ◌>>=◌, for_each, String,
  starts_with, if◌then◌else◌,
}
use object_introspection.Types.{Ref, Member, Class, Node, class_node}
use object_introspection.Store.{deref, put}
use object_introspection.Visitor.{load_class, visit_class, visit_default, accept_with}
use object_introspection.Flattener.{Tracked, enter, parent_prefix}

-- `OICodeGen::typesToStub`
abbrev pub types_to_stub : List String
types_to_stub =
    "SharedMutex" ∷ "EnumMap" ∷ "function" ∷ "Function" ∷ "ConcurrentHashMap" ∷ "DelayedDestruction"
    ∷ "McServerSession" ∷ "Range" ∷ "ReadResumableHandle" ∷ "CountedIntrusiveList"
    ∷ "EventBaseAtomicNotificationQueue" ∷ "IOBufIovecBuilder" ∷ "event" ∷ []

abbrev starts_with_any : List String → String → Bool
starts_with_any [] name = false
starts_with_any (t ∷ ts) name =
    let rest = starts_with_any ts name in if starts_with name t then true else rest

abbrev pub is_type_to_stub : Class → Bool
is_type_to_stub c = starts_with_any types_to_stub c.name

abbrev pub stubbed : Class → Class
stubbed c = if is_type_to_stub c then record c { members = [] } else c

abbrev pub without_parents : List Member → List Member
without_parents [] = []
without_parents (m ∷ ms) =
    let rest = without_parents ms in if starts_with m.name parent_prefix then rest else m ∷ rest

unfoldable pub visit_node :
    (Ref → Tracked → Outcome Tracked) → Ref → Node → Tracked → Outcome Tracked
unfolding visit_class visit_default
visit_node accept r (class_node c) s =
    visit_class accept (stubbed c) (record s { graph = put r (class_node (stubbed c)) s.graph })
    >>= λ s'. load_class s'.graph r >>= λ c'. ok (record s' {
      graph = put r (class_node (record c' { members = without_parents c'.members })) s'.graph;
    })
visit_node accept r n s = visit_default accept n s

unfoldable pub visit : (Ref → Tracked → Outcome Tracked) → Ref → Tracked → Outcome Tracked
unfolding visit_node
visit accept r s = of_option dangling (deref s.graph r) >>= λ n. visit_node accept r n s

-- The pass over the root types.
unfoldable pub enforce_compatibility : ℕ → Tracked → Outcome Tracked
unfolding visit accept_with
enforce_compatibility fuel s = for_each (accept_with enter visit fuel) s.graph.root_types s
