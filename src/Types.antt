-- ===== src/Types.antt =====
-- The data model of the type graph: oi/type_graph/Types.h, oi/type_graph/Types.cpp,
-- oi/ContainerInfo.h, oi/ContainerTypeEnum.h.
mod Containers
mod Records
mod Nodes
pub use Containers.*
pub use Records.*
unfoldable pub use Nodes.{get_name, is_dynamic, is_allocator}
pub use Nodes.{
  Node, incomplete, class_node, container, primitive, enum_node, array, typedef, pointer, reference,
  dummy, dummy_allocator, capture_keys, node_id, primitive_size,
}
