-- ===== src/Generator/Ir.antt =====
-- internal/gen/ir.go: the generator's types. A Go type with a name is a GoType, since Type is taken.
use herdr_client.Prelude.{ℕ, String, Bool, List}

pub data TypeKind : Type 0 where
  kind_enum kind_struct kind_union : TypeKind

pub record EnumValue : Type 0 where
  pub name : String
  pub value : String

pub record Field : Type 0 where
  pub name : String
  pub json : String
  pub type : String
  pub value_type : String
  pub doc : String
  pub required : Bool
  pub nullable : Bool
  pub optional : Bool
  pub omit_empty : Bool
  pub union : String
  pub union_slice : Bool

pub record GoType : Type 0 where
  pub name : String
  pub kind : TypeKind
  pub doc : String
  pub file : String
  pub values : List EnumValue
  pub fields : List Field
  pub tag_field : String
  pub tag_value : String
  pub union_name : String
  pub result_tag : String
  pub event_name : String
  pub discriminator : String
  -- the variants, by the names that they are registered under
  pub variants : List String

pub data MethodKind : Type 0 where
  method_single method_multi method_stream : MethodKind

pub record Method : Type 0 where
  pub name : String
  pub const : String
  pub wrapper : String
  pub params : String
  pub kind : MethodKind
  pub result_type : String
  pub result_tag : String
  pub result_types : List String

pub record EventRef : Type 0 where
  pub name : String
  pub type : String

pub record Package : Type 0 where
  pub name : String
  pub protocol : ℕ
  pub types : List GoType
  pub event_kind : List EnumValue
  pub subscriptions : List EventRef
  pub methods : List Method
  pub manual_types : List String
  pub auxiliary_types : List GoType
