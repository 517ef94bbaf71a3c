-- ===== src/Pb/Tiny.antt =====
-- A small protobuf over the small rapidjson: fields 0 and 2 hold numbers, 1 and 3 messages of type 1,
-- and 2 and 3 are repeated. The name of field `f` is `f + 1`, and key 0 begins with `@`.
use zpp_adapter.Prelude.{
  ℕ, zero, suc, Bool, true, false, ◌==◌, ltb, if◌then◌else◌, Option, none, some, List, [], ◌∷◌,
}
use zpp_adapter.Json.Small.{small}
use zpp_adapter.Pb.{Protobuf, Content, int32, message, CppType, int32_type, message_type}

-- A type, behind the fields that are set.
pub data Msg : Type 0 where
  end : ℕ → Msg
  num : ℕ → ℕ → Msg → Msg
  sub : ℕ → Msg → Msg → Msg

abbrev pub type_of : Msg → ℕ
type_of (end t) = t
type_of (num f x m) = type_of m
type_of (sub f c m) = type_of m

-- A field at the end; what is no number and no message is not stored.
abbrev put : ℕ → Content small ℕ Msg → Msg → Msg
put f c (num g x m) = num g x (put f c m)
put f c (sub g d m) = sub g d (put f c m)
put f (int32 x) (end t) = num f x (end t)
put f (message c) (end t) = sub f c (end t)
put f _ (end t) = end t

abbrev contents : ℕ → Msg → List (Content small ℕ Msg)
contents f (end t) = []
contents f (num g x m) = let rest = contents f m in if f == g then int32 x ∷ rest else rest
contents f (sub g c m) = let rest = contents f m in if f == g then message c ∷ rest else rest

-- A field in front of a list that does not begin with it.
abbrev in_front : ℕ → List ℕ → List ℕ
in_front f [] = f ∷ []
in_front f (g ∷ gs) = if f == g then g ∷ gs else f ∷ (g ∷ gs)

abbrev fields : Msg → List ℕ
fields (end t) = []
fields (num f x m) = in_front f (fields m)
fields (sub f c m) = in_front f (fields m)

abbrev is_set : List (Content small ℕ Msg) → Bool
is_set [] = false
is_set (_ ∷ _) = true

abbrev field_of : ℕ → Option ℕ
field_of zero = none
field_of (suc f) = some f

abbrev type_in : ℕ → CppType
type_in f = if f == 1 then message_type else if f == 3 then message_type else int32_type

abbrev pub tiny : Protobuf small
tiny = record {
  Message = Msg;
  Descriptor = ℕ;
  Field = ℕ;
  Float = ℕ;
  narrow = λ x. x;
  widen = λ x. x;
  key_of = λ s. s;
  starts_at = λ key. key == 0;
  type_key = 0;
  reflects = λ m. true;
  descriptor = type_of;
  full_name = λ d. d;
  find_message = λ t. if ltb t 2 then some t else none;
  create = λ d. some (end d);
  find_field = λ d key. field_of key;
  name = suc;
  cpp_type = type_in;
  repeated = λ f. ltb 1 f;
  is_bytes = λ f. false;
  set = put;
  add = put;
  submessage = λ f m. end 1;
  same_type = λ a b. type_of a == type_of b;
  is_any = λ d. false;
  as_any = λ m. false;
  pack_from = λ c old. old;
  any_type = type_of;
  unpack_to = λ new m. none;
  fields = fields;
  contents = contents;
  has_field = λ f m. is_set (contents f m);
}
