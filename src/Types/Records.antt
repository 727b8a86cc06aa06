-- ===== src/Types/Records.antt =====
-- The classes of oi/type_graph/Types.h, one record each. A `Type&` or `Type*` is an address in the
-- store of the graph (`Store`).
use object_introspection.Prelude.{ℕ, ℤ, List, Option, Bool, String}
use object_introspection.Types.Containers.{ContainerInfo}

-- The address of a node.
abbrev pub Ref : Type 0
Ref = ℕ

abbrev pub NodeId : Type 0
NodeId = ℕ

pub record QualifierSet : Type 0 where
  pub const : Bool

-- `bit_offset`, `bitsize` and `align` are uint64_t; a bitsize of 0 says "no bitfield", and an
-- alignment of 0 "not known".
pub record Member : Type 0 where
  pub type : Ref
  pub name : String
  pub input_name : String
  pub bit_offset : ℕ
  pub bitsize : ℕ
  pub align : ℕ

pub record Function : Type 0 where
  pub name : String
  pub virtuality : ℤ

pub record Parent : Type 0 where
  pub type : Ref
  pub bit_offset : ℕ

pub record TemplateParam : Type 0 where
  pub type : Ref
  pub qualifiers : QualifierSet
  pub value : Option String

-- std::variant<std::string, std::reference_wrapper<Type>>
pub data Underlying : Type 0 where
  named : String → Underlying
  known : Ref → Underlying

pub record Incomplete : Type 0 where
  pub id : NodeId
  pub underlying_type : Underlying
  pub name : String

pub data ClassKind : Type 0 where
  class struct union : ClassKind

pub record Class : Type 0 where
  pub template_params : List TemplateParam
  pub parents : List Parent
  pub members : List Member
  pub functions : List Function
  pub children : List Ref
  pub name : String
  pub input_name : String
  pub size : ℕ
  pub align : ℕ
  pub kind : ClassKind
  pub virtuality : ℤ
  pub id : NodeId
  pub packed : Bool

-- `underlying` is `none` for the null pointer.
pub record Container : Type 0 where
  pub template_params : List TemplateParam
  pub container_info : ContainerInfo
  pub underlying : Option Ref
  pub name : String
  pub input_name : String
  pub size : ℕ
  pub align : ℕ
  pub id : NodeId

pub record Enum : Type 0 where
  pub name : String
  pub input_name : String
  pub size : ℕ
  pub enumerators : List (ℤ × String)

pub record Array : Type 0 where
  pub element_type : Ref
  pub input_name : String
  pub len : ℕ
  pub id : NodeId
  pub name : String

pub data PrimitiveKind : Type 0 where
  int8 int16 int32 int64 uint8 uint16 uint32 uint64 : PrimitiveKind
  float32 float64 float80 float128 bool stubbed_pointer void : PrimitiveKind

pub record Typedef : Type 0 where
  pub name : String
  pub input_name : String
  pub underlying_type : Ref
  pub id : NodeId

-- Pointer and Reference have the same fields.
pub record Pointer : Type 0 where
  pub pointee_type : Ref
  pub input_name : String
  pub id : NodeId
  pub name : String

pub record Dummy : Type 0 where
  pub size : ℕ
  pub align : ℕ
  pub id : NodeId
  pub name : String
  pub input_name : String

pub record DummyAllocator : Type 0 where
  pub type : Ref
  pub size : ℕ
  pub align : ℕ
  pub id : NodeId
  pub name : String
  pub input_name : String

pub record CaptureKeys : Type 0 where
  pub underlying_type : Ref
  pub container_info : ContainerInfo
  pub name : String
