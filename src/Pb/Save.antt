-- ===== src/Pb/Save.antt =====
-- zpp/src/pb2json.cpp, Pb2json: a message becomes a JSON object by reflection. Memory for a part of
-- the document is taken to be there.
pub mod Meaning
pub mod Loop
pub mod Parts
pub mod RoundTrip
use zpp_adapter.Prelude.{
  ℕ, zero, suc, Bool, true, false, if◌then◌else◌, Option, none, some, List, [], ◌∷◌,
}
use zpp_adapter.Zsi.{Err, ok, param_invalid, mem_insufficient, not_exist, cast_fail}
use zpp_adapter.Json.{
  Keys, Rapid, RJson, set_int, set_uint, set_int64, set_uint64, set_string, set_double, set_bool,
  add_member,
}
use zpp_adapter.Pb.{
  Protobuf, Content, int32, int64, uint32, uint64, double, float, bool, enum, string, message,
  Value,
}

module _ {k : Keys} {r : Rapid k} (p : Protobuf r) where
  -- An object after a call whose result is not looked at.
  abbrev after : Option (Err × RJson r) → Option (RJson r)
  after none = none
  after (some (ret, j)) = some j

  -- `PushBack`: the array and the allocator have to be there.
  abbrev pub push_back : r.Value → RJson r → Option (RJson r)
  push_back x j = elim j.val [
    | none ↦ none
    | some a ↦ if j.alloc then some (record j { val = some (r.push x a) }) else none
  ]

  -- `RJson js(alloc)` with `SetObject` or `SetArray`: with no allocator the value is NULL.
  abbrev pub fresh_part : r.Value → RJson r → Option (RJson r)
  fresh_part v j = if j.alloc then some (record { val = some v; alloc = true }) else none

  -- A part that is done goes to its place: `PushBack`, or `AddMember` under the name.
  abbrev pub place_part : Bool → k.Key → RJson r → RJson r → Option (RJson r)
  place_part repeated name part j = elim part.val [
    | none ↦ none
    | some v ↦ if repeated then push_back v j else after (add_member r (some name) v j)
  ]

  -- `Field2json` for a value of the field: the setters' results are not looked at. `save` is
  -- `Pb2json`; the part is placed whatever it returns.
  pub field2json :
      (RJson r → p.Message → Option (Err × RJson r))
      → p.Field
      → Value p
      → RJson r
      → Option (RJson r)
  unfolding set_double set_int64 set_uint64 set_int set_uint set_bool set_string add_member
  field2json save f (double x) j =
      if p.repeated f
      then push_back (r.double.make x) j
      else after (set_double r (some (p.name f)) x j)
  field2json save f (float x) j =
      if p.repeated f
      then push_back (r.double.make (p.widen x)) j
      else after (set_double r (some (p.name f)) (p.widen x) j)
  field2json save f (int64 x) j =
      if p.repeated f
      then push_back (r.int64.make x) j
      else after (set_int64 r (some (p.name f)) x j)
  field2json save f (uint64 x) j =
      if p.repeated f
      then push_back (r.uint64.make x) j
      else after (set_uint64 r (some (p.name f)) x j)
  field2json save f (int32 x) j =
      if p.repeated f then push_back (r.int.make x) j else after (set_int r (some (p.name f)) x j)
  field2json save f (uint32 x) j =
      if p.repeated f then push_back (r.uint.make x) j else after (set_uint r (some (p.name f)) x j)
  field2json save f (bool b) j =
      if p.repeated f
      then push_back (r.bool.make (r.of_bool b)) j
      else after (set_bool r (some (p.name f)) (r.of_bool b) j)
  field2json save f (string x) j =
      if p.is_bytes f
      then some j
      else if p.repeated f
      then push_back (r.string.make x) j
      else after (set_string r (some (p.name f)) x j)
  field2json save f (message m) j = elim (fresh_part r.object j) [
    | none ↦ none
    | some js ↦ elim (save js m) [
      | none ↦ none
      | some (ret, js') ↦ place_part (p.repeated f) (p.name f) js' j
    ]
  ]
  field2json save f (enum x) j =
      if p.repeated f then push_back (r.uint.make x) j else after (set_uint r (some (p.name f)) x j)

  -- The loop over the values of a repeated field.
  pub each_content :
      (RJson r → p.Message → Option (Err × RJson r))
      → p.Field
      → List (Value p)
      → RJson r
      → Option (RJson r)
  each_content save f [] j = some j
  each_content save f (c ∷ cs) j = elim (field2json save f c j) [
    | none ↦ none
    | some j' ↦ each_content save f cs j'
  ]

  -- A repeated field with a value: an array of its values is added.
  abbrev pub add_array :
      (RJson r → p.Message → Option (Err × RJson r))
      → p.Field
      → List (Value p)
      → RJson r
      → Option (RJson r)
  add_array save f cs j = elim (fresh_part r.array j) [
    | none ↦ none
    | some part ↦ elim (each_content save f cs part) [
      | none ↦ none
      | some part' ↦ place_part false (p.name f) part' j
    ]
  ]

  -- A field that is set and not repeated has one value.
  abbrev pub add_single :
      (RJson r → p.Message → Option (Err × RJson r))
      → p.Field
      → List (Value p)
      → RJson r
      → Option (RJson r)
  add_single save f [] j = none
  add_single save f (c ∷ _) j = field2json save f c j

  abbrev is_empty : List (Value p) → Bool
  is_empty [] = true
  is_empty (_ ∷ _) = false

  abbrev go_on : Option (RJson r) → (RJson r → Option (Err × RJson r)) → Option (Err × RJson r)
  go_on none rest = none
  go_on (some j) rest = rest j

  -- The loop over the fields that are listed for the message.
  pub each_field :
      (RJson r → p.Message → Option (Err × RJson r))
      → p.Message
      → List p.Field
      → RJson r
      → Option (Err × RJson r)
  each_field save m [] j = some (ok, j)
  each_field save m (f ∷ fs) j =
      let next = each_field save m fs in
      if p.repeated f
      then (if is_empty (p.contents f m)
          then next j
          else go_on (add_array save f (p.contents f m) j) next)
      else if p.has_field f m
      then go_on (add_single save f (p.contents f m) j) next
      else some (not_exist, j)

  -- An `Any`: its message is unpacked and saved, and the result of that is not looked at.
  abbrev pub save_any :
      (RJson r → p.Message → Option (Err × RJson r)) → RJson r → p.Message → Option (Err × RJson r)
  save_any save j m = elim (p.find_message (p.any_type m)) [
    | none ↦ some (cast_fail, j)
    | some d ↦ elim (p.create d) [
      | none ↦ some (mem_insufficient, j)
      | some new ↦
          (if p.as_any m
            then elim (p.unpack_to new m) [
              | none ↦ some (cast_fail, j)
              | some inner ↦ elim (save j inner) [ none ↦ none | some (ret, j') ↦ some (ok, j') ]
            ]
            else none)
    ]
  ]

  -- `fuel` bounds the nesting of messages; `none` where it runs out or a pointer is NULL.
  pub pb2json : ℕ → RJson r → p.Message → Option (Err × RJson r)
  pb2json zero j m = none
  pb2json (suc fuel) j m =
      if p.reflects m
      then (if p.is_any (p.descriptor m) then save_any (pb2json fuel) j m else elim j.val [
        | none ↦ none
        | some _ ↦
            elim (set_string r (some p.type_key) (p.full_name (p.descriptor m))
              (record j { val = some r.object })) [
                | none ↦ none
                | some (ret, j') ↦ each_field (pb2json fuel) m (p.fields m) j'
              ]
      ])
      else some (param_invalid, j)
