-- ===== src/RemoveMembers.antt =====
-- oi/type_graph/RemoveMembers.cpp: the members that the configuration ignores, those of unions and
-- those of incomplete types are removed.
pub mod Walks
pub mod Edits
pub mod Clean
use object_introspection.Prelude.{
  ℕ, List, [], ◌∷◌, none, some, Option, Bool, true, false, Outcome, ok, dangling, of_option, ◌>>=◌,
  for_each, ◌||◌, ◌&&◌, String, str_eq, if◌then◌else◌,
}
use object_introspection.Types.{
  Ref, Member, Class, union, class, struct, Node, incomplete, class_node,
}
use object_introspection.Store.{TypeGraph, deref, put}
use object_introspection.Visitor.{load_class, visit_class, visit_default, accept_with, Walk, enter}

abbrev pub ignore_member : List (String × String) → String → String → Bool
ignore_member [] type_name member_name = false
ignore_member ((ignored_type, ignored_member) ∷ ignored) type_name member_name =
    if str_eq type_name ignored_type
      && (str_eq member_name ignored_member || str_eq ignored_member "*")
    then true
    else ignore_member ignored type_name member_name

-- `dynamic_cast<Incomplete*>(&type) != nullptr`.
abbrev pub is_incomplete : Option Node → Bool
is_incomplete (some (incomplete t)) = true
is_incomplete _ = false

-- The predicate of `std::erase_if`.
abbrev pub is_removed : List (String × String) → TypeGraph → String → Member → Bool
is_removed ignored g type_name m =
    ignore_member ignored type_name m.name || is_incomplete (deref g m.type)

abbrev pub erase_members : List (String × String) → TypeGraph → String → List Member → List Member
erase_members ignored g type_name [] = []
erase_members ignored g type_name (m ∷ ms) =
    let rest = erase_members ignored g type_name ms in
    if is_removed ignored g type_name m then rest else m ∷ rest

-- `if (c.kind() == Class::Kind::Union) c.members.clear();`
abbrev pub clear_union : Class → Class
clear_union c = record c {
  members = elim c.kind [ union ↦ [] | class ↦ c.members | struct ↦ c.members ];
}

abbrev pub cleaned : List (String × String) → TypeGraph → Class → Class
cleaned ignored g c = record c { members = erase_members ignored g c.input_name c.members }

module _ (ignored : List (String × String)) where
  unfoldable pub visit_node : (Ref → Walk → Outcome Walk) → Ref → Node → Walk → Outcome Walk
  unfolding visit_class visit_default
  visit_node accept r (class_node c) s =
      visit_class accept (clear_union c)
        (record s { graph = put r (class_node (clear_union c)) s.graph })
      >>= λ s'. load_class s'.graph r >>= λ c'.
          ok (record s' { graph = put r (class_node (cleaned ignored s'.graph c')) s'.graph })
  visit_node accept r n s = visit_default accept n s

  unfoldable pub visit : (Ref → Walk → Outcome Walk) → Ref → Walk → Outcome Walk
  unfolding visit_node
  visit accept r s = of_option dangling (deref s.graph r) >>= λ n. visit_node accept r n s

  -- The pass over the root types.
  unfoldable pub remove_members : ℕ → TypeGraph → Outcome Walk
  unfolding visit accept_with
  remove_members fuel g =
      for_each (accept_with enter visit fuel) g.root_types (record { visited = []; graph = g })
