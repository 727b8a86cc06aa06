-- ===== src/Examples/Naming.antt =====
-- Names for a class with two members of the same name and a pointer to itself.
use object_introspection.Prelude.{
  ◌≡◌, refl, ok, List, [], ◌∷◌, ◌++◌, String, arith, ◌>>=◌, map, ◌≢◌, to_string,
}
use object_introspection.Types.{Class, Member, class_node, pointer}
use object_introspection.Store.{TypeGraph, empty}
use object_introspection.NameGen.{Naming, generate_names, name_members, name_member, name_at}
use object_introspection.NameGen.Texts.{deduplicate}
use object_introspection.NameGen.Numbers.{deduplicate-ne}
use object_introspection.NameGen.Members.{name_members-ne}
use object_introspection.NameGen.Runs.{generate_names-apart}
use object_introspection.Examples.Samples.{member, plain_class}

abbrev twins : List Member
twins = member 2 "x.y" 0 ∷ member 16 "x.y" 64 ∷ member 2 "" 128 ∷ []

abbrev node_graph : TypeGraph
node_graph = record empty {
  nodes =
      empty.nodes
      ++ (class_node (plain_class "Node<int>" twins [] 24 0)
          ∷ pointer (record { pointee_type = 15; input_name = ""; id = 1; name = "Node<int>*" })
          ∷ []);
  root_types = 15 ∷ [];
}

twin_names : map (λ m. m.name) (name_members 0 twins) ≡ "x$y_0" ∷ "x$y_1" ∷ "__oi_anon_2" ∷ []
unfolding name_members to_string
twin_names = refl

pointer_name : (generate_names 3 node_graph >>= λ s. name_at s.graph 16) ≡ ok "Node_0*"
unfolding generate_names name_at to_string
pointer_name = refl

name_members-ne_example :
    ◌≢◌ {A = String}
      (name_member 0 (member 2 "x.y" 0)).name
      (name_member 1 (member 16 "x.y" 64)).name
unfolding name_members
name_members-ne_example = name_members-ne twins 0 1 _ _ refl refl (omega arith)

deduplicate-ne_example : deduplicate 2 "Node_1" ≢ deduplicate 12 "Node"
deduplicate-ne_example = deduplicate-ne 2 12 "Node_1" "Node" (omega arith)

abbrev two_nodes : Class → Class → TypeGraph
two_nodes c d = record empty {
  nodes = empty.nodes ++ (class_node c ∷ class_node d ∷ []);
  root_types = 15 ∷ [];
}

abbrev of_int : Class
of_int = plain_class "Node<int>" (member 16 "next" 0 ∷ []) [] 8 0

abbrev of_char : Class
of_char = plain_class "Node<char>" [] [] 1 1

abbrev two_named : Naming
two_named = record {
  visited = 16 ∷ 15 ∷ [];
  n = 2;
  graph =
      two_nodes
        (record of_int {
          name = "Node_0";
          members = record (member 16 "next" 0) { name = "next_0" } ∷ [];
        })
        (record of_char { name = "Node_1" });
}

name_two : generate_names 3 (two_nodes of_int of_char) ≡ ok two_named
unfolding generate_names to_string
name_two = refl

generate_names-apart_example : ◌≢◌ {A = String} "Node_0" "Node_1"
generate_names-apart_example =
    generate_names-apart 3 (two_nodes of_int of_char) two_named name_two 15 16 "Node_0" "Node_1"
      refl refl refl refl (omega arith)
