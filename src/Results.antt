-- ===== src/Results.antt =====
-- include/oi/result/Element.h: one element of an introspection result.
pub mod Sized
pub mod Csv
pub mod Json
pub mod Iterator
use object_introspection.Prelude.{ℕ, List, Option, Bool, String}

pub record ContainerStats : Type 0 where
  pub capacity : ℕ
  pub len : ℕ

-- `std::variant<std::nullopt_t, Pointer, Scalar, std::string>`.
pub data ElementData : Type 0 where
  no_data : ElementData
  pointer_data : ℕ → ElementData
  scalar : ℕ → ElementData
  text : String → ElementData

-- `is_set_stats` holds its only field, `is_set`.
pub record Element : Type 0 where
  pub name : String
  pub type_path : List String
  pub type_names : List String
  pub static_size : ℕ
  pub exclusive_size : ℕ
  pub pointer : Option ℕ
  pub payload : ElementData
  pub container_stats : Option ContainerStats
  pub is_set_stats : Option Bool
  pub is_primitive : Bool
