-- ===== src/Layout.antt =====
-- The virtual `size()` and `align()` of oi/type_graph/Types.h, and `stripTypedefs` of Types.cpp.
-- The calls that follow references have fuel; `Layout.Ranked` shows how much is enough.
pub mod Inner
pub mod Ranked
pub mod Extension
use object_introspection.Prelude.{
  ℕ, zero, suc, ◌*◌, ◌%◌, ◌^◌, Option, none, some, Outcome, ok, out_of_fuel, of_option, dangling,
  ◌>>=◌,
}
use object_introspection.Types.{
  Ref, Node, incomplete, class_node, container, primitive, enum_node, array, typedef, pointer,
  reference, dummy, dummy_allocator, capture_keys, primitive_size,
}
use object_introspection.Store.{TypeGraph, deref}

-- `size()`, given that of other nodes. A size_t has 64 bits, and a pointer 8 bytes.
abbrev pub node_size : (Ref → Outcome ℕ) → Node → Outcome ℕ
node_size rec (incomplete t) = ok 0
node_size rec (class_node t) = ok t.size
node_size rec (container t) = ok t.size
node_size rec (primitive k) = primitive_size k
node_size rec (enum_node t) = ok t.size
node_size rec (array t) = rec t.element_type >>= λ s. ok (t.len * s % 2 ^ 64)
node_size rec (typedef t) = rec t.underlying_type
node_size rec (pointer t) = ok 8
node_size rec (reference t) = ok 8
node_size rec (dummy t) = ok t.size
node_size rec (dummy_allocator t) = ok t.size
node_size rec (capture_keys t) = rec t.underlying_type

unfoldable pub size_of : ℕ → TypeGraph → Ref → Outcome ℕ
size_of zero g r = out_of_fuel
size_of (suc f) g r = of_option dangling (deref g r) >>= node_size (size_of f g)

-- `align()`, given that of other nodes.
abbrev pub node_align : (Ref → Outcome ℕ) → Node → Outcome ℕ
node_align rec (incomplete t) = ok 0
node_align rec (class_node t) = ok t.align
node_align rec (container t) = ok t.align
node_align rec (primitive k) = primitive_size k
node_align rec (enum_node t) = ok t.size
node_align rec (array t) = rec t.element_type
node_align rec (typedef t) = rec t.underlying_type
node_align rec (pointer t) = ok 8
node_align rec (reference t) = ok 8
node_align rec (dummy t) = ok t.align
node_align rec (dummy_allocator t) = ok t.align
node_align rec (capture_keys t) = rec t.underlying_type

unfoldable pub align_of : ℕ → TypeGraph → Ref → Outcome ℕ
align_of zero g r = out_of_fuel
align_of (suc f) g r = of_option dangling (deref g r) >>= node_align (align_of f g)

-- One round of the loop of `stripTypedefs`: at a typedef it goes on.
abbrev pub strip_node : (Ref → Outcome Ref) → Ref → Node → Outcome Ref
strip_node rec r (typedef t) = rec t.underlying_type
strip_node rec r _ = ok r

unfoldable pub strip_typedefs : ℕ → TypeGraph → Ref → Outcome Ref
strip_typedefs zero g r = out_of_fuel
strip_typedefs (suc f) g r = of_option dangling (deref g r) >>= strip_node (strip_typedefs f g) r
