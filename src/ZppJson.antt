-- ===== src/ZppJson.antt =====
-- zpp/json.h, class json: another wrapper of rapidjson, which replaces a member where RJson keeps it.
pub mod Sets
pub mod Arrays
pub mod Loads
mod Tests
use zpp_adapter.Prelude.{
  ℕ, ◌+◌, ◌≡◌, Str, Bool, true, false, ◌==◌, if◌then◌else◌, Option, none, some, List, [], ◌∷◌, ◌++◌,
  length, get_elem?,
}
use zpp_adapter.Zsi.{Err, ok, not_exist, not_support, param_invalid}
use zpp_adapter.Std.Assoc.{Same, look, drop_key}
use zpp_adapter.Json.{Keys, Rapid, ValueType, val_null, val_object, is_object, is_array}
use zpp_adapter.Json.Doc.{Texts, read_bytes}

abbrev pub is_null : ValueType → Bool
is_null val_null = true
is_null _ = false

-- What this class uses of rapidjson beyond RJson: the value null, and the order of the members of an
-- object, in which `FindMember` looks and `EraseMember` erases.
pub record Ordered {k : Keys} (r : Rapid k) : Type 0 where
  pub keys : Same k.Key
  pub null : r.Value
  pub kind-null : r.kind null ≡ val_null
  pub find-members :
      (i : k.Key) (o : r.Value) → r.kind o ≡ val_object → r.find i o ≡ look keys i (r.members o)
  pub members-erase :
      (i : k.Key) (o : r.Value)
      → r.kind o ≡ val_object
      → r.members (r.erase i o) ≡ drop_key keys i (r.members o)

-- Where `pv` points: at `doc`, at `v`, or at a value in another object.
pub data Place (V : Type 0) : Type 0 where
  at_doc at_v : Place V
  elsewhere : V → Place V

module _ {k : Keys} (r : Rapid k) (m : Ordered r) where
  -- `doc` is `none` for nullptr. A change through `pv` of a value elsewhere is seen here only.
  pub record ZppJson : Type 0 where
    pub doc : Option r.Value
    pub v : r.Value
    pub pv : Place r.Value

  -- `json()` and `json(json &)`.
  pub new_json : ZppJson
  new_json = record { doc = some m.null; v = m.null; pv = at_doc }

  pub part_of : ZppJson → ZppJson
  part_of j = record { doc = none; v = m.null; pv = at_v }

  -- What `pv` points to, and a write through it.
  unfoldable pub read : ZppJson → Option r.Value
  read j = elim j.pv [ at_doc ↦ j.doc | at_v ↦ some j.v | elsewhere x ↦ some x ]

  pub write : r.Value → ZppJson → ZppJson
  write w j = elim j.pv [
    | at_doc ↦ record j { doc = some w }
    | at_v ↦ record j { v = w }
    | elsewhere x ↦ record j { pv = elsewhere w }
  ]

  -- `FindMember` and `EraseMember`, and then `AddMember`, in an object.
  abbrev pub replaced : k.Key → r.Value → r.Value → r.Value
  replaced key x o = elim (r.find key o) [
    | none ↦ r.add key x o
    | some _ ↦ r.add key x (r.erase key o)
  ]

  -- `SetObject` unless it is one.
  abbrev pub made_object : r.Value → r.Value
  made_object v = if is_object (r.kind v) then v else r.object

  pub set_int : k.Key → r.int.T → ZppJson → Option (Err × ZppJson)
  set_int key x j = elim (read j) [
    | none ↦ none
    | some v ↦ some (ok, write (replaced key (r.int.make x) (made_object v)) j)
  ]

  -- Here the value has to be an object.
  pub set_string : k.Key → r.string.T → ZppJson → Option (Err × ZppJson)
  set_string key x j = elim (read j) [
    | none ↦ none
    | some v ↦
        (if is_object (r.kind v)
          then some (ok, write (replaced key (r.string.make x) v) j)
          else none)
  ]

  pub get_int : k.Key → ZppJson → Option (Err × Option r.int.T)
  get_int key j = elim (read j) [
    | none ↦ none
    | some v ↦
        (if is_object (r.kind v)
          then elim (r.find key v) [
            | none ↦ some (not_exist, none)
            | some x ↦ some (if r.int.is x then (ok, some (r.int.get x)) else (not_exist, none))
          ]
          else none)
  ]

  pub get_string : k.Key → ZppJson → Option (Err × Option r.string.T)
  get_string key j = elim (read j) [
    | none ↦ none
    | some v ↦
        (if is_object (r.kind v)
          then elim (r.find key v) [
            | none ↦ some (not_exist, none)
            | some x ↦
                some (if r.string.is x then (ok, some (r.string.get x)) else (not_exist, none))
          ]
          else none)
  ]

  -- The object, and `value`, whose value is moved away; they are different objects.
  pub set_member : k.Key → ZppJson → ZppJson → Option (Err × ZppJson × ZppJson)
  set_member key value j =
      if is_null (r.kind value.v) then some (not_exist, j, value) else elim (read j) [
        | none ↦ none
        | some o ↦ elim (read value) [
          | none ↦ none
          | some x ↦ some (ok, write (replaced key x (made_object o)) j, write m.null value)
        ]
      ]

  -- `value` after the call.
  pub get_member : k.Key → ZppJson → ZppJson → Option (Err × ZppJson)
  get_member key j value = elim (read j) [
    | none ↦ none
    | some o ↦
        (if is_object (r.kind o)
          then elim (r.find key o) [
            | none ↦ some (not_exist, value)
            | some x ↦ some (ok, record value { pv = elsewhere x })
          ]
          else some (not_support, value))
  ]

  -- `SetArray` where it is null; `none` where it is something else.
  abbrev pub made_array : r.Value → Option r.Value
  made_array v =
      if is_array (r.kind v) then some v else if is_null (r.kind v) then some r.array else none

  pub push_back : r.Value → ZppJson → Option (Err × ZppJson)
  push_back x j = elim (read j) [
    | none ↦ none
    | some v ↦ elim (made_array v) [
      | none ↦ some (not_support, j)
      | some a ↦ some (ok, write (r.push x a) j)
    ]
  ]

  -- The array, and `js`, whose value is moved away; they are different objects.
  pub push_json : ZppJson → ZppJson → Option (Err × ZppJson × ZppJson)
  push_json js j = elim (read j) [
    | none ↦ none
    | some v ↦ elim (made_array v) [
      | none ↦ some (not_support, j, js)
      | some a ↦ elim (read js) [
        | none ↦ none
        | some x ↦ some (ok, write (r.push x a) j, write m.null js)
      ]
    ]
  ]

  pub array_size : ZppJson → Option ℕ
  array_size j = elim (read j) [
    | none ↦ none
    | some v ↦ some (if is_array (r.kind v) then length (r.elements v) else 0)
  ]

  -- `js` after the call; `none` is a position out of the array.
  pub at : ZppJson → ℕ → ZppJson → Option (Err × ZppJson)
  at js pos j = elim (read j) [
    | none ↦ none
    | some v ↦
        (if is_array (r.kind v)
          then elim (get_elem? (r.elements v) pos) [
            | none ↦ none
            | some x ↦ some (ok, record js { pv = elsewhere x })
          ]
          else some (not_support, js))
  ]

module _ {k : Keys} (r : Rapid k) (m : Ordered r) (t : Texts r) where
  -- `Parse` into `doc`; a text that cannot be parsed leaves it.
  abbrev parse_into : Str → r.Value → r.Value
  parse_into s v = elim (t.parse s) [ none ↦ v | some w ↦ w ]

  -- `disk` is what `fopen` finds.
  pub load_file : Option Str → ZppJson r m → Err × ZppJson r m
  load_file disk j = elim j.doc [
    | none ↦ (param_invalid, j)
    | some v ↦ elim disk [
      | none ↦ (param_invalid, j)
      | some s ↦ (ok, record j { doc = some (parse_into s v) })
    ]
  ]

  -- `none` where it is read beyond the bytes.
  pub load_string : Str → ℕ → ZppJson r m → Option (Err × ZppJson r m)
  load_string bytes len j = elim j.doc [
    | none ↦ some (not_support, j)
    | some v ↦ elim (read_bytes r t bytes len) [
      | none ↦ none
      | some s ↦ some (ok, record j { doc = some (parse_into s v) })
    ]
  ]

  pub to_string : (is_pretty : Bool) → ZppJson r m → Option Str
  to_string is_pretty j = elim (read r m j) [
    | none ↦ none
    | some v ↦ some (if is_pretty then t.pretty v else t.print v)
  ]
