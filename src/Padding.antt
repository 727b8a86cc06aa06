-- ===== src/Padding.antt =====
-- oi/type_graph/AddPadding.cpp: members that stand for the padding of a class.
pub mod Gap
pub mod Tiling
pub mod Structs
pub mod Again
use object_introspection.Prelude.{
  ℕ, suc, ◌+◌, ◌*◌, ◌/◌, ◌%◌, ◌^◌, List, [], ◌∷◌, ◌++◌, Option, none, some, Bool, true, false,
  String, Outcome, ok, err, aborted, dangling, of_option, ◌>>=◌, for_each, if◌then◌else◌, ◌==◌,
  ◌||◌, ltb, not, add_u64, sub_u64, mul_u64, ◌&◌, to_string,
}
use object_introspection.Types.{
  Ref, NodeId, Member, Class, ClassKind, union, Node, class_node, array, Array, int8, Parent,
}
use object_introspection.Store.{TypeGraph, deref, put, primitive_ref, make_primitive, make_type}
use object_introspection.Layout.{size_of}
use object_introspection.Visitor.{
  Walk, enter, load_class, param_types, member_types, visit_default, accept_with,
}

abbrev pub member_prefix : String
member_prefix = "__oi_padding"

-- `Member(type, name, bitOffset, bitsize)`.
abbrev pub new_member : Ref → String → ℕ → ℕ → Member
new_member type name bit_offset bitsize = record {
  type = type;
  name = name;
  input_name = name;
  bit_offset = bit_offset;
  bitsize = bitsize;
  align = 0;
}

-- `Array(id, elementType, len)` over the int8_t singleton, with the name that it generates.
abbrev pub byte_array : ℕ → NodeId → Node
byte_array len id = array (record {
  element_type = primitive_ref int8;
  input_name = "";
  len = len;
  id = id;
  name = "OIArray<" & "int8_t" & ", " & to_string len & ">";
})

-- The vector under construction, and the graph that the new nodes go to.
pub record Padded : Type 0 where
  pub members : List Member
  pub graph : TypeGraph

abbrev pub push : Member → Padded → Padded
push m out = record out { members = out.members ++ m ∷ [] }

-- The bitfield that fills up the current byte.
unfoldable pub pad_bits : Ref → ℕ → ℕ → Padded → Padded
pad_bits primitive start bits out =
    if bits % 8 == 0 then out else push (new_member primitive member_prefix start (bits % 8)) out

-- The array of whole bytes.
unfoldable pub pad_bytes : ℕ → ℕ → Padded → Padded
pad_bytes start bits out =
    let bytes = bits / 8 in
    let start_byte = add_u64 start 7 / 8 in
    let (a, graph) = make_type (byte_array bytes) out.graph in
    let m = record (new_member a "" (mul_u64 start_byte 8) 0) { name = member_prefix } in
    if ltb 0 bytes then record { members = out.members ++ m ∷ []; graph = graph } else out

-- `addPadding(uint64_t, uint64_t, ...)`.
unfoldable pub add_padding_between : ℕ → ℕ → Padded → Outcome Padded
unfolding pad_bits pad_bytes make_primitive
add_padding_between start end out =
    let bits = sub_u64 end start in
    let padded = make_primitive int8 >>= λ primitive.
    ok (pad_bytes start bits (pad_bits primitive start bits out)) in
    if bits == 0 then ok out else padded

module _ (depth : ℕ) where
  unfoldable pub member_bits : TypeGraph → Member → Outcome ℕ
  member_bits g m =
      if m.bitsize == 0 then (size_of depth g m.type >>= λ s. ok (mul_u64 s 8)) else ok m.bitsize

  -- `addPadding(const Member&, uint64_t, ...)`.
  unfoldable pub add_padding_after : Member → ℕ → Padded → Outcome Padded
  unfolding member_bits add_padding_between
  add_padding_after prev end out = member_bits out.graph prev >>= λ bits.
      add_padding_between (add_u64 prev.bit_offset bits) end out

  -- The call in front of a member or of the end: behind the member before, or at 0 if there is none.
  unfoldable pub add_padding_from : Option Member → ℕ → Padded → Outcome Padded
  unfolding add_padding_after
  add_padding_from none end out = add_padding_between 0 end out
  add_padding_from (some prev) end out = add_padding_after prev end out

  -- The loop over the members, and the call behind it.
  unfoldable pub pad_members : Option Member → List Member → ℕ → Padded → Outcome Padded
  unfolding add_padding_from
  pad_members prev [] end out = add_padding_from prev end out
  pad_members prev (m ∷ ms) end out =
      add_padding_from prev m.bit_offset out >>= λ out'. pad_members (some m) ms end (push m out')

  -- Whether some member of a union is as large as the union.
  unfoldable pub fills_union : TypeGraph → ℕ → List Member → Outcome Bool
  fills_union g size [] = ok false
  fills_union g size (m ∷ ms) =
      let rest = fills_union g size ms in
      let by_type = size_of depth g m.type >>= λ s. if s == size then ok true else rest in
      if m.bitsize == mul_u64 size 8 then ok true else by_type

  -- The new members of a union, `none` where they stay.
  unfoldable pub pad_union : Class → TypeGraph → Outcome Padded
  unfolding fills_union add_padding_between
  pad_union c g = fills_union g c.size c.members >>= λ filled.
      if filled
      then ok (record { members = c.members; graph = g })
      else add_padding_between 0 (mul_u64 c.size 8) (record { members = c.members; graph = g })

  unfoldable pub pad_struct : Class → TypeGraph → Outcome Padded
  unfolding pad_members
  pad_struct c g =
      pad_members none c.members (mul_u64 c.size 8) (record { members = []; graph = g })

abbrev pub store_members : Ref → Class → Walk → Padded → Walk
store_members r c s out = record s {
  graph = put r (class_node (record c { members = out.members })) out.graph;
}

-- `assert(c.parents.empty())`.
abbrev pub assert_no_parents : List Parent → Outcome (Unit {0})
assert_no_parents [] = ok tt
assert_no_parents (p ∷ ps) = err aborted

module _ (depth : ℕ) where
  -- The part of `visit(Class&)` behind the first two loops.
  unfoldable pub pad_class :
      (Ref → Walk → Outcome Walk) → Ref → ClassKind → List Ref → Walk → Outcome Walk
  unfolding pad_union pad_struct
  pad_class accept r union children s = do
    c ← load_class s.graph r
    out ← pad_union depth c s.graph
    ok (store_members r c s out)
  pad_class accept r _ children s = do
    c ← load_class s.graph r
    out ← pad_struct depth c s.graph
    for_each accept children (store_members r c s out)

  unfoldable pub visit_node : (Ref → Walk → Outcome Walk) → Ref → Node → Walk → Outcome Walk
  unfolding pad_class visit_default
  visit_node accept r (class_node c) s = do
    checked ← assert_no_parents c.parents
    s₁ ← for_each accept (param_types c.template_params) s
    s₂ ← for_each accept (member_types c.members) s₁
    pad_class accept r c.kind c.children s₂
  visit_node accept r n s = visit_default accept n s

  unfoldable pub visit : (Ref → Walk → Outcome Walk) → Ref → Walk → Outcome Walk
  unfolding visit_node
  visit accept r s = of_option dangling (deref s.graph r) >>= λ n. visit_node accept r n s

  -- The pass over the root types.
  unfoldable pub add_padding : ℕ → TypeGraph → Outcome Walk
  unfolding accept_with visit
  add_padding fuel g =
      for_each (accept_with enter visit fuel) g.root_types (record { visited = []; graph = g })
