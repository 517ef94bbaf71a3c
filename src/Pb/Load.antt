-- ===== src/Pb/Load.antt =====
-- zpp/src/pb2json.cpp, Json2pb: the events of RJson::ForEach build a message on a stack.
pub mod Meaning
pub mod Frame
pub mod Sound
pub mod Failing
use zpp_adapter.Prelude.{
  ℕ, ◌≡◌, Bool, true, false, not, ◌&&◌, if◌then◌else◌, Option, none, some, List, [], ◌∷◌, length,
}
use zpp_adapter.Zsi.{
  Err, ok, param_invalid, mem_insufficient, not_support, not_exist, cast_fail, is_ok,
}
use zpp_adapter.Json.{
  Keys, Rapid, ValueType, val_null, val_false, val_true, val_object, val_array, val_string,
  val_number, array_begin, array_end, object_begin, object_end,
}
use zpp_adapter.Json.Each.{Callback, for_each}
use zpp_adapter.Pb.{
  Protobuf, CppType, int32_type, int64_type, uint32_type, uint64_type, double_type, float_type,
  bool_type, enum_type, string_type, message_type, Content, int32, int64, uint32, uint64, double,
  float, bool, enum, string, message, Value, write,
}

-- The pointer `msg`: not initialised, NULL, or a message.
pub data Slot (Message : Type 0) : Type 0 where
  wild null : Slot Message
  made : Message → Slot Message

-- `msg_t`; `is_array` is `flag`.
pub record Entry (Key Message : Type 0) : Type 0 where
  pub is_array : Bool
  pub msg : Slot Message
  pub key : Option Key

module _ {k : Keys} {r : Rapid k} (p : Protobuf r) where
  -- `Msgs`, its back first.
  abbrev pub Msgs : Type 0
  Msgs = List (Entry k.Key p.Message)

  -- `none` where the source leaves the behaviour undefined or protobuf ends the program.
  abbrev pub Outcome : Type 0
  Outcome = Option (Err × Msgs)

  -- The key of an entry without one: that of the array around it, or the name of the type.
  abbrev pub key_for : r.string.T → Option k.Key → Msgs → Option k.Key
  key_for type_name (some key) rest = some key
  key_for type_name none [] = some (p.key_of type_name)
  key_for type_name none (above ∷ rest) = above.key

  pub create_message : r.string.T → Msgs → Outcome
  create_message type_name msgs = elim (p.find_message type_name) [
    | none ↦ some (cast_fail, msgs)
    | some d ↦ elim (p.create d) [
      | none ↦ some (mem_insufficient, msgs)
      | some m ↦ elim msgs [
        | [] ↦ none
        | e ∷ rest ↦ some (
          ok,
          record { is_array = false; msg = made m; key = key_for type_name e.key rest } ∷ rest,
        )
      ]
    ]
  ]

  -- What a number gives for a field: `none` is a type that takes no number, `some none` a number of
  -- another C++ type, which is dropped.
  abbrev pub number_for : CppType → r.Value → Option (Option (Value p))
  number_for double_type v = some (if r.double.is v then some (double (r.double.get v)) else none)
  number_for float_type v =
      some (if r.double.is v then some (float (p.narrow (r.double.get v))) else none)
  number_for int32_type v = some (if r.int.is v then some (int32 (r.int.get v)) else none)
  number_for uint32_type v = some (if r.uint.is v then some (uint32 (r.uint.get v)) else none)
  number_for uint64_type v = some (if r.uint64.is v then some (uint64 (r.uint64.get v)) else none)
  number_for int64_type v = some (if r.int64.is v then some (int64 (r.int64.get v)) else none)
  number_for _ v = none

  abbrev pub is_string_type : CppType → Bool
  is_string_type string_type = true
  is_string_type _ = false

  abbrev pub is_bool_type : CppType → Bool
  is_bool_type bool_type = true
  is_bool_type _ = false

  abbrev pub set_string : p.Field → r.Value → p.Message → Err × p.Message
  set_string f v m =
      if is_string_type (p.cpp_type f)
      then (ok, write p f (string (r.string.get v)) m)
      else (param_invalid, m)

  abbrev pub set_number : p.Field → r.Value → p.Message → Err × p.Message
  set_number f v m = elim (number_for (p.cpp_type f) v) [
    | none ↦ (cast_fail, m)
    | some none ↦ (ok, m)
    | some (some c) ↦ (ok, write p f c m)
  ]

  abbrev pub set_bool : Bool → p.Field → p.Message → Err × p.Message
  set_bool b f m =
      if is_bool_type (p.cpp_type f) then (ok, write p f (bool b) m) else (param_invalid, m)

  -- The field that the key names; the lookup takes no NULL for a key.
  abbrev pub with_field :
      Option k.Key → p.Message → (p.Field → Err × p.Message) → Option (Err × p.Message)
  with_field key m f =
      if p.reflects m
      then elim key [
        | none ↦ none
        | some name ↦ elim (p.find_field (p.descriptor m) name) [
          | none ↦ some (param_invalid, m)
          | some field ↦ some (f field)
        ]
      ]
      else some (param_invalid, m)

  -- The cases of `SetMessage` on a message, but for the creation of one.
  unfoldable pub set_field :
      ValueType → Option k.Key → r.Value → p.Message → Option (Err × p.Message)
  set_field val_string key v m = with_field key m (λ f. set_string f v m)
  set_field val_number key v m = with_field key m (λ f. set_number f v m)
  set_field val_false key v m = with_field key m (λ f. set_bool false f m)
  set_field val_true key v m = with_field key m (λ f. set_bool true f m)
  set_field _ key v m = some (not_support, m)

  abbrev pub at_key : Option k.Key → Bool
  at_key none = false
  at_key (some key) = p.starts_at key

  abbrev pub is_string : ValueType → Bool
  is_string val_string = true
  is_string _ = false

  -- `put` writes the message back to where the pointer was taken from.
  abbrev pub set_target :
      ValueType → Option k.Key → r.Value → Slot p.Message → (p.Message → Msgs) → Msgs → Outcome
  set_target status key v target put msgs =
      if is_string status && at_key key then create_message (r.string.get v) msgs else elim target [
        | wild ↦ none
        | null ↦ elim key [
          | none ↦ none
          | some name ↦ if p.starts_at name then none else some (param_invalid, msgs)
        ]
        | made m ↦ elim (set_field status key v m) [
          | none ↦ none
          | some (ret, m') ↦ some (ret, put m')
        ]
      ]

  abbrev pub holding : Entry k.Key p.Message → p.Message → Entry k.Key p.Message
  holding e m = record e { msg = made m }

  pub set_message : ValueType → Option k.Key → r.Value → Msgs → Outcome
  unfolding create_message set_field
  set_message status key v [] = none
  set_message status (some key) v (e ∷ rest) =
      set_target status (some key) v e.msg (λ m. holding e m ∷ rest) (e ∷ rest)
  set_message status none v (e ∷ []) = none
  set_message status none v (e ∷ (above ∷ rest)) =
      set_target status e.key v above.msg (λ m. e ∷ (holding above m ∷ rest)) (e ∷ (above ∷ rest))

  abbrev pub is_message_type : CppType → Bool
  is_message_type message_type = true
  is_message_type _ = false

  -- What stands in the field afterwards: an `Any` packs the child, any other message is exchanged
  -- with it, which needs the same type. `child` is `null` for NULL.
  abbrev pub merged : p.Message → Slot p.Message → Option p.Message
  merged old child =
      if p.is_any (p.descriptor old)
      then (if p.as_any old
          then elim child [ made c ↦ some (p.pack_from c old) | _ ↦ none ]
          else some old)
      else elim child [ made c ↦ if p.same_type old c then some c else none | _ ↦ none ]

  unfoldable pub merge_message :
      Option k.Key → p.Message → Slot p.Message → Option (Err × p.Message)
  merge_message key parent child =
      if p.reflects parent
      then elim key [
        | none ↦ none
        | some name ↦ elim (p.find_field (p.descriptor parent) name) [
          | none ↦ some (param_invalid, parent)
          | some f ↦
              (if is_message_type (p.cpp_type f)
                then elim (merged (p.submessage f parent) child) [
                  | none ↦ none
                  | some c ↦ some (param_invalid, write p f (message c) parent)
                ]
                else none)
        ]
      ]
      else some (param_invalid, parent)

  -- The merge into the message of an entry; the pointer of the child is deleted then.
  abbrev pub merge_into :
      Entry k.Key p.Message → Entry k.Key p.Message → Option (Entry k.Key p.Message)
  merge_into e parent = elim parent.msg [
    | made m ↦ elim (merge_message e.key m e.msg) [
      | none ↦ none
      | some (_, m') ↦ some (holding parent m')
    ]
    | _ ↦ none
  ]

  -- `statObjectEnd`.
  pub object_done : Msgs → Outcome
  unfolding merge_message
  object_done [] = some (ok, [])
  object_done (e ∷ []) = some (ok, e ∷ [])
  object_done (e ∷ (parent ∷ rest)) =
      if e.is_array
      then some (param_invalid, parent ∷ rest)
      else if parent.is_array
      then elim rest [
        | [] ↦ some (param_invalid, parent ∷ [])
        | father ∷ more ↦
            (if father.is_array
              then some (param_invalid, parent ∷ (father ∷ more))
              else elim (merge_into e father) [
                | none ↦ none
                | some f ↦ some (ok, parent ∷ (f ∷ more))
              ])
      ]
      else elim (merge_into e parent) [ none ↦ none | some f ↦ some (ok, f ∷ rest) ]

  abbrev pub popped : Msgs → Outcome
  popped [] = none
  popped (e ∷ rest) = some (ok, rest)

  pub json2field_at : ValueType → Option k.Key → r.Value → Msgs → Outcome
  unfolding set_message object_done
  json2field_at val_null name v msgs = some (ok, msgs)
  json2field_at val_object name v msgs = some (ok, msgs)
  json2field_at val_array name v msgs = some (ok, msgs)
  json2field_at array_begin name v msgs =
      some (ok, record { is_array = true; msg = wild; key = name } ∷ msgs)
  json2field_at array_end name v msgs = popped msgs
  json2field_at object_begin name v msgs =
      some (ok, record { is_array = false; msg = null; key = name } ∷ msgs)
  json2field_at object_end name v msgs = object_done msgs
  json2field_at val_false name v msgs = set_message val_false name v msgs
  json2field_at val_true name v msgs = set_message val_true name v msgs
  json2field_at val_string name v msgs = set_message val_string name v msgs
  json2field_at val_number name v msgs = set_message val_number name v msgs

  -- The callback. After an undefined step nothing is known.
  pub json2field : Callback r (Option Msgs)
  unfolding json2field_at
  json2field status name v none = (param_invalid, none)
  json2field status name v (some msgs) = elim (json2field_at status name v msgs) [
    | none ↦ (param_invalid, none)
    | some (ret, msgs') ↦ (ret, some msgs')
  ]

  -- What `pb` is after the first overload.
  abbrev pub Loaded : Type 0
  Loaded = Option (Err × Slot p.Message)

  abbrev pub taken : Err → Msgs → Loaded
  taken ok (e ∷ []) = some (ok, e.msg)
  taken ok _ = some (param_invalid, null)
  taken ret _ = some (ret, null)

  -- After the walk; `none` also where its fuel ran out.
  abbrev pub loaded : Option (Err × Option Msgs) → Loaded
  loaded none = none
  loaded (some (ret, none)) = none
  loaded (some (ret, some msgs)) = taken ret msgs

  -- `Json2pb` with a pointer to a pointer.
  pub json2pb_new : ℕ → r.Value → Loaded
  unfolding json2field
  json2pb_new fuel v = loaded (for_each r (Option Msgs) fuel json2field v (some []))

  -- The `Swap` with the message that was loaded.
  abbrev pub swapped : p.Message → Loaded → Option (Err × p.Message)
  swapped pb none = none
  swapped pb (some (ok, made m)) = if p.same_type pb m then some (ok, m) else none
  swapped pb (some (ok, _)) = none
  swapped pb (some (ret, _)) = some (ret, pb)

  -- `Json2pb` into a message that is there.
  pub json2pb : ℕ → r.Value → p.Message → Option (Err × p.Message)
  unfolding json2pb_new
  json2pb fuel v pb = swapped pb (json2pb_new fuel v)
