-- ===== src/Examples/Removal.antt =====
-- Removing members from a class with an ignored member, one of an incomplete type, a pointer back to
-- the class and a union.
use object_introspection.Prelude.{
  ℕ, ◌≡◌, refl, ok, true, Bool, List, [], ◌∷◌, ◌++◌, some, arith, All, All-get_elem?, ltb, ◌&&◌,
  ◌<◌, String,
}
use object_introspection.Types.{Ref, Node, Class, union, class_node, incomplete, pointer, named}
use object_introspection.Store.{TypeGraph, empty, deref}
use object_introspection.Visitor.{Walk}
use object_introspection.Visitor.Links.{links, Reachable}
use object_introspection.RemoveMembers.{remove_members}
use object_introspection.RemoveMembers.Walks.{IsClean}
use object_introspection.RemoveMembers.Clean.{remove_members-Clean}
use object_introspection.Examples.Samples.{member, plain_class}

abbrev below : ℕ → List Ref → Bool
below k [] = true
below k (r ∷ rs) = ltb r k && below k rs

below-All : (k : ℕ) (rs : List Ref) → below k rs ≡ true → All (λ r. r < k) rs
below-All k [] h = tt
below-All k (r ∷ rs) h = (ground arith, below-All k rs (ground arith))

abbrev nodes_below : ℕ → List Node → Bool
nodes_below k [] = true
nodes_below k (n ∷ ns) = below k (links n) && nodes_below k ns

nodes_below-All :
    (k : ℕ) (ns : List Node) → nodes_below k ns ≡ true → All (λ n. All (λ r. r < k) (links n)) ns
nodes_below-All k [] h = tt
nodes_below-All k (n ∷ ns) h =
    (below-All k (links n) (ground arith), nodes_below-All k ns (ground arith))

abbrev holder : Class
holder =
    plain_class "Holder"
      (member 2 "a" 0 ∷ member 16 "hidden" 32 ∷ member 17 "next" 64 ∷ member 18 "either" 128 ∷ [])
      [] 24 0

abbrev either : Class
either = record (plain_class "Either" (member 2 "i" 0 ∷ member 3 "l" 0 ∷ []) [] 8 1) {
  kind = union;
}

abbrev graph_of : Class → Class → TypeGraph
graph_of c u = record empty {
  nodes =
      empty.nodes
      ++ (class_node c
          ∷ incomplete (record { id = 2; underlying_type = named "Hidden"; name = "Hidden" })
          ∷ pointer
              (record { pointee_type = 15; input_name = "Holder *"; id = 3; name = "Holder *" })
          ∷ class_node u
          ∷ []);
  root_types = 15 ∷ [];
}

abbrev before : TypeGraph
before = graph_of holder either

abbrev ignored : List (String × String)
ignored = ("Holder", "a") ∷ ("Other", "*") ∷ []

abbrev after : Walk
after = record {
  visited = 18 ∷ 15 ∷ 17 ∷ 16 ∷ 2 ∷ 15 ∷ [];
  graph =
      graph_of (record holder { members = member 17 "next" 64 ∷ member 18 "either" 128 ∷ [] })
        (record either { members = [] });
}

removed_members : remove_members ignored 20 before ≡ ok after
unfolding remove_members
removed_members = refl

remove_members-Clean_example :
    (s : Walk) × (remove_members ignored 20 before ≡ ok s)
    × ((x : Ref)
        → Reachable s.graph x
        → (n : Node) × (deref s.graph x ≡ some n) × IsClean ignored s.graph n)
remove_members-Clean_example =
    remove_members-Clean ignored 20 before
      (λ x n.
        All-get_elem? (λ k. All (λ r. r < 19) (links k)) before.nodes x n
          (nodes_below-All 19 before.nodes refl))
      (below-All 19 before.root_types refl) (omega arith)
