-- ===== src/Store.antt =====
-- oi/type_graph/TypeGraph.h and TypeGraph.cpp: the nodes of a graph, their addresses and their ids.
-- The store holds the static Primitive singletons at the addresses 0 to 14, and behind them
-- `types_`, whose nodes never move. `NodeId` is an int32_t; a graph stays below 2 ^ 31 nodes.
pub mod Ids
pub mod Extension
use object_introspection.Prelude.{
  ℕ, ◌+◌, ◌-◌, max, List, [], ◌∷◌, ◌++◌, Option, Outcome, ok, err, aborted, ◌>>=◌, get_elem?, set,
  length,
}
use object_introspection.Types.{
  Ref, NodeId, Node, primitive, PrimitiveKind, int8, int16, int32, int64, uint8, uint16, uint32,
  uint64, float32, float64, float80, float128, bool, stubbed_pointer, void, get_name,
}

pub record TypeGraph : Type 0 where
  pub nodes : List Node
  pub root_types : List Ref
  pub final_types : List Ref
  pub next_id : NodeId

abbrev pub singletons : List Node
singletons =
    primitive int8
    ∷ primitive int16
    ∷ primitive int32
    ∷ primitive int64
    ∷ primitive uint8
    ∷ primitive uint16
    ∷ primitive uint32
    ∷ primitive uint64
    ∷ primitive float32
    ∷ primitive float64
    ∷ primitive float80
    ∷ primitive float128
    ∷ primitive bool
    ∷ primitive stubbed_pointer
    ∷ primitive void
    ∷ []

abbrev pub empty : TypeGraph
empty = record { nodes = singletons; root_types = []; final_types = []; next_id = 0 }

-- The address of the singleton of a kind.
abbrev pub primitive_ref : PrimitiveKind → Ref
primitive_ref int8 = 0
primitive_ref int16 = 1
primitive_ref int32 = 2
primitive_ref int64 = 3
primitive_ref uint8 = 4
primitive_ref uint16 = 5
primitive_ref uint32 = 6
primitive_ref uint64 = 7
primitive_ref float32 = 8
primitive_ref float64 = 9
primitive_ref float80 = 10
primitive_ref float128 = 11
primitive_ref bool = 12
primitive_ref stubbed_pointer = 13
primitive_ref void = 14

-- `makeType<Primitive>`: the constructor of the singleton calls `getName`, which may abort.
unfoldable pub make_primitive : PrimitiveKind → Outcome Ref
unfolding get_name
make_primitive kind = get_name kind >>= λ _. ok (primitive_ref kind)

-- What a `Type&` refers to.
abbrev pub deref : TypeGraph → Ref → Option Node
deref g r = get_elem? g.nodes r

-- The node at an address, changed in place.
abbrev pub put : Ref → Node → TypeGraph → TypeGraph
put r n g = record g { nodes = set g.nodes r n }

abbrev pub size : TypeGraph → ℕ
size g = length g.nodes - 15

unfoldable pub add_root : Ref → TypeGraph → TypeGraph
add_root r g = record g { root_types = g.root_types ++ r ∷ [] }

-- `makeType<T>(id, args...)`, where `make` is the constructor of T with its other arguments given.
unfoldable pub make_type_at : NodeId → (NodeId → Node) → TypeGraph → Ref × TypeGraph
make_type_at id make g =
    (length g.nodes, record g { nodes = g.nodes ++ make id ∷ []; next_id = max g.next_id (id + 1) })

-- `makeType<T>(args...)` for a T with a node id, and for one without.
unfoldable pub make_type : (NodeId → Node) → TypeGraph → Ref × TypeGraph
unfolding make_type_at
make_type make g = make_type_at g.next_id make (record g { next_id = g.next_id + 1 })

unfoldable pub make_leaf : Node → TypeGraph → Ref × TypeGraph
make_leaf n g = (length g.nodes, record g { nodes = g.nodes ++ n ∷ [] })
