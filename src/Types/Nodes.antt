-- ===== src/Types/Nodes.antt =====
-- A node of the type graph: the class hierarchy below `Type` (oi/type_graph/Types.h) as one data
-- type, with what each class answers without looking at another node.
use object_introspection.Prelude.{
  ℕ, is_zero, List, [], ◌∷◌, Option, none, some, Bool, true, false, not, ◌||◌, String, Outcome, ok,
  err, aborted, if◌then◌else◌, str_eq,
}
use object_introspection.Types.Records.{
  NodeId, Function, Incomplete, Class, Container, Enum, Array, PrimitiveKind, Typedef, Pointer,
  Dummy, DummyAllocator, CaptureKeys, int8, int16, int32, int64, uint8, uint16, uint32, uint64,
  float32, float64, float80, float128, bool, stubbed_pointer, void,
}

pub data Node : Type 0 where
  incomplete : Incomplete → Node
  class_node : Class → Node
  container : Container → Node
  primitive : PrimitiveKind → Node
  enum_node : Enum → Node
  array : Array → Node
  typedef : Typedef → Node
  pointer : Pointer → Node
  reference : Pointer → Node
  dummy : Dummy → Node
  dummy_allocator : DummyAllocator → Node
  capture_keys : CaptureKeys → Node

-- `id()`, with `none` for the -1 of a leaf.
abbrev pub node_id : Node → Option NodeId
node_id (incomplete t) = some t.id
node_id (class_node t) = some t.id
node_id (container t) = some t.id
node_id (primitive k) = none
node_id (enum_node t) = none
node_id (array t) = some t.id
node_id (typedef t) = some t.id
node_id (pointer t) = some t.id
node_id (reference t) = some t.id
node_id (dummy t) = some t.id
node_id (dummy_allocator t) = some t.id
node_id (capture_keys t) = none

-- `Primitive::getName`; Float80 aborts.
unfoldable pub get_name : PrimitiveKind → Outcome String
get_name int8 = ok "int8_t"
get_name int16 = ok "int16_t"
get_name int32 = ok "int32_t"
get_name int64 = ok "int64_t"
get_name uint8 = ok "uint8_t"
get_name uint16 = ok "uint16_t"
get_name uint32 = ok "uint32_t"
get_name uint64 = ok "uint64_t"
get_name float32 = ok "float"
get_name float64 = ok "double"
get_name float80 = err aborted
get_name float128 = ok "long double"
get_name bool = ok "bool"
get_name stubbed_pointer = ok "StubbedPointer"
get_name void = ok "void"

-- `Primitive::size`, where a `uintptr_t` has 8 bytes.
abbrev pub primitive_size : PrimitiveKind → Outcome ℕ
primitive_size int8 = ok 1
primitive_size int16 = ok 2
primitive_size int32 = ok 4
primitive_size int64 = ok 8
primitive_size uint8 = ok 1
primitive_size uint16 = ok 2
primitive_size uint32 = ok 4
primitive_size uint64 = ok 8
primitive_size float32 = ok 4
primitive_size float64 = ok 8
primitive_size float80 = err aborted
primitive_size float128 = ok 16
primitive_size bool = ok 1
primitive_size stubbed_pointer = ok 8
primitive_size void = ok 0

-- The loop of `Class::isDynamic` over the functions.
any_virtual : List Function → Bool
any_virtual [] = false
any_virtual (f ∷ fs) = not (is_zero f.virtuality) || any_virtual fs

unfoldable pub is_dynamic : Class → Bool
unfolding any_virtual
is_dynamic c = if not (is_zero c.virtuality) then true else any_virtual c.functions

-- The loop of `TypeIdentifier::isAllocator` over the functions.
any_allocate : List Function → Bool
any_allocate [] = false
any_allocate (f ∷ fs) = if str_eq f.name "allocate" then true else any_allocate fs

unfoldable pub is_allocator : Node → Bool
unfolding any_allocate
is_allocator (class_node c) = any_allocate c.functions
is_allocator _ = false
