-- ===== src/Json.antt =====
-- zpp/json_rapid.hpp, class RJson: typed access to the members of a JSON object, over rapidjson. This
-- file has rapidjson as an interface, and the class.
pub mod Access
pub mod Each
pub mod Doc
pub mod Handle
pub mod Small
mod Tests
use zpp_adapter.Prelude.{
  ℕ, ◌+◌, ◌<◌, ◌≡◌, Bool, true, false, ◌==◌, ◌||◌, ◌&&◌, if◌then◌else◌, Option, none, some, List,
  [], ◌∷◌, ◌++◌, map,
}
use zpp_adapter.Zsi.{Err, ok, fail, not_exist, param_invalid, cast_fail}

-- Keys, with a test of equality.
pub record Keys : Type 1 where
  pub Key : Type 0
  pub same : Key → Key → Bool

-- `ValueType`.
pub data ValueType : Type 0 where
  val_null val_false val_true val_object val_array val_string val_number : ValueType
  array_begin array_end object_begin object_end : ValueType

-- A C++ type that a value can hold: `IsInt`, `GetInt` and `SetInt`, and their like.
pub record Scalar (Value : Type 0) : Type 1 where
  pub T : Type 0
  pub is : Value → Bool
  pub get : Value → T
  pub make : T → Value
  pub is-make : (x : T) → is (make x) ≡ true
  pub get-make : (x : T) → get (make x) ≡ x

-- Every value of the list has a rank below `n`.
abbrev pub Below : {Value : Type 0} → (Value → ℕ) → ℕ → List Value → Type 0
Below rank n [] = Unit {0}
Below rank n (v ∷ vs) = (rank v < n) × Below rank n vs

-- rapidjson as documented. `find` is `FindMember` with `MemberEnd` as `none`; `put` writes through the
-- iterator that `FindMember` gave; `add`, `erase` and `push` are `AddMember`, `EraseMember` and
-- `PushBack`; `object` and `array` are what `SetObject` and `SetArray` leave. `rank` bounds the nesting.
pub record Rapid (k : Keys) : Type 1 where
  pub Value : Type 0
  pub kind : Value → ValueType
  pub members : Value → List (k.Key × Value)
  pub elements : Value → List Value
  pub find : k.Key → Value → Option Value
  pub put : k.Key → Value → Value → Value
  pub add : k.Key → Value → Value → Value
  pub erase : k.Key → Value → Value
  pub int : Scalar Value
  pub uint : Scalar Value
  pub int64 : Scalar Value
  pub uint64 : Scalar Value
  pub string : Scalar Value
  pub double : Scalar Value
  pub bool : Scalar Value
  pub of_bool : Bool → bool.T
  pub object : Value
  pub array : Value
  pub push : Value → Value → Value
  pub rank : Value → ℕ
  pub rank-elements : (v : Value) → Below rank (rank v) (elements v)
  pub rank-members : (v : Value) → Below rank (rank v) (map (λ m. m.1) (members v))
  pub find-put :
      (i j : k.Key) (x o old : Value)
      → find j o ≡ some old
      → find i (put j x o) ≡ (if k.same j i then some x else find i o)
  pub find-add :
      (i j : k.Key) (x o : Value)
      → kind o ≡ val_object
      → find j o ≡ none
      → find i (add j x o) ≡ (if k.same j i then some x else find i o)
  pub object-put : (j : k.Key) (x o : Value) → kind o ≡ val_object → kind (put j x o) ≡ val_object
  pub object-erase : (j : k.Key) (o : Value) → kind o ≡ val_object → kind (erase j o) ≡ val_object
  pub members-add :
      (j : k.Key) (x o : Value)
      → kind o ≡ val_object
      → members (add j x o) ≡ members o ++ ((j, x) ∷ [])
  pub elements-push :
      (x a : Value) → kind a ≡ val_array → elements (push x a) ≡ elements a ++ (x ∷ [])
  pub array-push : (x a : Value) → kind a ≡ val_array → kind (push x a) ≡ val_array
  pub kind-object : kind object ≡ val_object
  pub members-object : members object ≡ []
  pub find-object : (j : k.Key) → find j object ≡ none
  pub kind-array : kind array ≡ val_array
  pub elements-array : elements array ≡ []
  pub kind-int : (x : int.T) → kind (int.make x) ≡ val_number
  pub kind-uint : (x : uint.T) → kind (uint.make x) ≡ val_number
  pub kind-int64 : (x : int64.T) → kind (int64.make x) ≡ val_number
  pub kind-uint64 : (x : uint64.T) → kind (uint64.make x) ≡ val_number
  pub kind-double : (x : double.T) → kind (double.make x) ≡ val_number
  pub kind-string : (x : string.T) → kind (string.make x) ≡ val_string
  pub kind-bool : (b : Bool) → kind (bool.make (of_bool b)) ≡ (if b then val_true else val_false)
  pub object-add : (j : k.Key) (x o : Value) → kind o ≡ val_object → kind (add j x o) ≡ val_object

abbrev pub is_object : ValueType → Bool
is_object val_object = true
is_object _ = false

abbrev pub is_array : ValueType → Bool
is_array val_array = true
is_array _ = false

-- `val` is `none` for NULL, and then so is `doc`; `alloc` is false for NULL.
pub record RJson {k : Keys} (r : Rapid k) : Type 0 where
  pub val : Option r.Value
  pub alloc : Bool

module _ {k : Keys} (r : Rapid k) where
  -- The common body of the setters; `none` is an access through a NULL pointer or of the members of
  -- a value that is no object.
  abbrev set_scalar : (s : Scalar r.Value) → Option k.Key → s.T → RJson r → Option (Err × RJson r)
  set_scalar s none x j = elim j.val [
    | none ↦ some (param_invalid, j)
    | some v ↦ some (ok, record j { val = some (s.make x) })
  ]
  set_scalar s (some key) x j = elim j.val [
    | none ↦ none
    | some v ↦
        (if is_object (r.kind v)
          then elim (r.find key v) [
            | none ↦
                (if j.alloc
                  then some (ok, record j { val = some (r.add key (s.make x) v) })
                  else none)
            | some old ↦
                (if s.is old
                  then some (ok, record j { val = some (r.put key (s.make x) v) })
                  else some (cast_fail, j))
          ]
          else none)
  ]

  -- The lookup by key that the getters share.
  abbrev get_by_key : (s : Scalar r.Value) → k.Key → r.Value → Option (Err × Option s.T)
  get_by_key s key v =
      if is_object (r.kind v)
      then elim (r.find key v) [
        | none ↦ some (not_exist, none)
        | some x ↦ some (if s.is x then (ok, some (s.get x)) else (not_exist, none))
      ]
      else none

  -- The body of the getters but `GetInt`: with no key they go on to `FindMember(NULL)` where the
  -- value is of the type.
  abbrev get_scalar : (s : Scalar r.Value) → Option k.Key → RJson r → Option (Err × Option s.T)
  get_scalar s key j = elim j.val [
    | none ↦ none
    | some v ↦ elim key [
      | none ↦ if s.is v then none else some (param_invalid, none)
      | some i ↦ get_by_key s i v
    ]
  ]

  unfoldable pub set_int : Option k.Key → r.int.T → RJson r → Option (Err × RJson r)
  set_int = set_scalar r.int

  pub get_int : Option k.Key → RJson r → Option (Err × Option r.int.T)
  get_int key j = elim j.val [
    | none ↦ none
    | some v ↦ elim key [
      | none ↦ some (if r.int.is v then (ok, some (r.int.get v)) else (param_invalid, none))
      | some i ↦ get_by_key r.int i v
    ]
  ]

  unfoldable pub set_uint : Option k.Key → r.uint.T → RJson r → Option (Err × RJson r)
  set_uint = set_scalar r.uint

  pub get_uint : Option k.Key → RJson r → Option (Err × Option r.uint.T)
  get_uint = get_scalar r.uint

  unfoldable pub set_int64 : Option k.Key → r.int64.T → RJson r → Option (Err × RJson r)
  set_int64 = set_scalar r.int64

  pub get_int64 : Option k.Key → RJson r → Option (Err × Option r.int64.T)
  get_int64 = get_scalar r.int64

  unfoldable pub set_uint64 : Option k.Key → r.uint64.T → RJson r → Option (Err × RJson r)
  set_uint64 = set_scalar r.uint64

  pub get_uint64 : Option k.Key → RJson r → Option (Err × Option r.uint64.T)
  get_uint64 = get_scalar r.uint64

  -- Without an allocator nothing is tried.
  unfoldable pub set_string : Option k.Key → r.string.T → RJson r → Option (Err × RJson r)
  set_string key x j = if j.alloc then set_scalar r.string key x j else some (param_invalid, j)

  pub get_string : Option k.Key → RJson r → Option (Err × Option r.string.T)
  get_string = get_scalar r.string

  unfoldable pub set_double : Option k.Key → r.double.T → RJson r → Option (Err × RJson r)
  set_double = set_scalar r.double

  pub get_double : Option k.Key → RJson r → Option (Err × Option r.double.T)
  get_double = get_scalar r.double

  unfoldable pub set_bool : Option k.Key → r.bool.T → RJson r → Option (Err × RJson r)
  set_bool = set_scalar r.bool

  pub get_bool : Option k.Key → RJson r → Option (Err × Option r.bool.T)
  get_bool = get_scalar r.bool

  -- What `rj->val` is then; `none` where it stays.
  pub get_member : Option k.Key → RJson r → Option (Err × Option r.Value)
  get_member none j = some (param_invalid, none)
  get_member (some key) j = elim j.val [
    | none ↦ none
    | some v ↦
        (if is_object (r.kind v)
          then elim (r.find key v) [ none ↦ some (not_exist, none) | some x ↦ some (ok, some x) ]
          else none)
  ]

  -- `x` is the value of the other object, which is moved in.
  unfoldable pub add_member : Option k.Key → r.Value → RJson r → Option (Err × RJson r)
  add_member none x j = some (param_invalid, j)
  add_member (some key) x j =
      if j.alloc
      then elim j.val [
        | none ↦ none
        | some v ↦
            (if is_object (r.kind v)
              then elim (r.find key v) [
                | none ↦ some (ok, record j { val = some (r.add key x v) })
                | some old ↦
                    (if is_object (r.kind old) || is_array (r.kind old)
                      then some (ok, record j { val = some (r.add key x (r.erase key v)) })
                      else some (cast_fail, j))
              ]
              else none)
      ]
      else some (param_invalid, j)
