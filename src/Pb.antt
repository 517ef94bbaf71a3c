-- ===== src/Pb.antt =====
-- Protobuf, as zpp/src/pb2json.cpp uses it: messages by reflection, as an interface.
pub mod Load
pub mod Save
mod Tiny
mod Tests
use zpp_adapter.Prelude.{ℕ, ◌≡◌, Bool, true, false, if◌then◌else◌, Option, none, some, List}
use zpp_adapter.Json.{Keys, Rapid}

-- `FieldDescriptor::CppType`.
pub data CppType : Type 0 where
  int32_type int64_type uint32_type uint64_type double_type float_type : CppType
  bool_type enum_type string_type message_type : CppType

-- What a field holds; the number of an enum is given as the `uint32_t` that it is cast to.
pub data Content {k : Keys} (r : Rapid k) (Float Message : Type 0) : Type 0 where
  int32 : r.int.T → Content r Float Message
  int64 : r.int64.T → Content r Float Message
  uint32 : r.uint.T → Content r Float Message
  uint64 : r.uint64.T → Content r Float Message
  double : r.double.T → Content r Float Message
  float : Float → Content r Float Message
  bool : Bool → Content r Float Message
  enum : r.uint.T → Content r Float Message
  string : r.string.T → Content r Float Message
  message : Message → Content r Float Message

-- `reflects` is that neither `GetReflection` nor `GetDescriptor` is NULL. `create` is `New` of the
-- prototype, `none` for NULL. `starts_at` is that the first byte is `@`. `submessage` is what
-- `AddMessage` or `MutableMessage` give, before it is written. `same_type` is what `Swap` demands.
pub record Protobuf {k : Keys} (r : Rapid k) : Type 1 where
  pub Message : Type 0
  pub Descriptor : Type 0
  pub Field : Type 0
  pub Float : Type 0
  pub narrow : r.double.T → Float
  pub widen : Float → r.double.T
  pub key_of : r.string.T → k.Key
  pub starts_at : k.Key → Bool
  pub type_key : k.Key
  pub reflects : Message → Bool
  pub descriptor : Message → Descriptor
  pub full_name : Descriptor → r.string.T
  pub find_message : r.string.T → Option Descriptor
  pub create : Descriptor → Option Message
  pub find_field : Descriptor → k.Key → Option Field
  pub name : Field → k.Key
  pub cpp_type : Field → CppType
  pub repeated : Field → Bool
  pub is_bytes : Field → Bool
  pub set : Field → Content r Float Message → Message → Message
  pub add : Field → Content r Float Message → Message → Message
  pub submessage : Field → Message → Message
  pub same_type : Message → Message → Bool
  pub is_any : Descriptor → Bool
  pub as_any : Message → Bool
  pub pack_from : Message → Message → Message
  pub any_type : Message → r.string.T
  pub unpack_to : Message → Message → Option Message
  pub fields : Message → List Field
  pub contents : Field → Message → List (Content r Float Message)
  pub has_field : Field → Message → Bool

module _ {k : Keys} {r : Rapid k} (p : Protobuf r) where
  abbrev pub Value : Type 0
  Value = Content r p.Float p.Message

  -- `field->is_repeated() ? ref->Add…(…) : ref->Set…(…)`.
  abbrev pub write : p.Field → Value → p.Message → p.Message
  write f c m = if p.repeated f then p.add f c m else p.set f c m
