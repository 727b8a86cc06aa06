-- ===== src/Types/Containers.antt =====
-- Container descriptions: oi/ContainerTypeEnum.h and oi/ContainerInfo.h.
use object_introspection.Prelude.{ℕ, List, Option, Bool, String}

pub data ContainerTypeEnum : Type 0 where
  unknown_type array_type small_vec_type set_type multi_set_type : ContainerTypeEnum
  unordered_set_type unordered_multiset_type seq_type list_type : ContainerTypeEnum
  std_map_type std_unordered_map_type std_unordered_multimap_type : ContainerTypeEnum
  map_seq_type by_multi_qrt_type f14_map f14_set : ContainerTypeEnum
  feed_quick_hash_set feed_quick_hash_map radix_tree_type pair_type : ContainerTypeEnum
  string_type folly_iobuf_type folly_iobufqueue_type fb_string_type : ContainerTypeEnum
  uniq_ptr_type shrd_ptr_type fb_hash_map_type fb_hash_set_type : ContainerTypeEnum
  folly_optional_type optional_type try_type ref_wrapper_type : ContainerTypeEnum
  sorted_vec_set_type repeated_field_type caffe2_blob_type : ContainerTypeEnum
  multi_map_type folly_small_heap_vector_map container_adapter_type : ContainerTypeEnum
  microlist_type enum_map_type boost_bimap_type std_variant_type : ContainerTypeEnum
  thrift_isset_type dummy_type weak_ptr_type : ContainerTypeEnum

pub record Processor : Type 0 where
  pub type : String
  pub func : String

pub record Codegen : Type 0 where
  pub decl : String
  pub func : String
  pub traversal_func : String
  pub extra : String
  pub scoped_extra : String
  pub processors : List Processor

-- `matcher` is the compiled boost::regex, by what `regex_search` answers on a name. The set
-- `required_features` is the word of its bits.
pub record ContainerInfo : Type 0 where
  pub type_name : String
  pub num_template_params : Option ℕ
  pub ctype : ContainerTypeEnum
  pub header : String
  pub ns : List String
  pub replace_template_param_index : List ℕ
  pub allocator_index : Option ℕ
  pub underlying_container_index : Option ℕ
  pub stub_template_params : List ℕ
  pub capture_keys : Bool
  pub required_features : ℕ
  pub codegen : Codegen
  pub matcher : String → Bool

abbrev pub matches : ContainerInfo → String → Bool
matches info name = info.matcher name
