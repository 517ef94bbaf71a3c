-- ===== src/Pb/Load/Meaning.antt =====
-- What a JSON document means as a message: Json2pb without its stack, keys and pointers.
use zpp_adapter.Prelude.{◌≡◌, Bool, true, false, some, List, [], ◌∷◌}
use zpp_adapter.Zsi.{Err, ok}
use zpp_adapter.Json.{
  Keys, Rapid, ValueType, val_null, val_false, val_true, val_object, val_array, val_string,
  val_number,
}
use zpp_adapter.Pb.{Protobuf}
use zpp_adapter.Pb.Load.{made, set_field, merge_message}

abbrev pub is_scalar : ValueType → Bool
is_scalar val_false = true
is_scalar val_true = true
is_scalar val_string = true
is_scalar val_number = true
is_scalar _ = false

module _ {k : Keys} {r : Rapid k} (p : Protobuf r) where
  mutual
    -- An object whose first member names a type that can be created, filled with the others.
    pub data Denotes : r.Value → p.Message → Type 0 where
      typed :
          {v t : r.Value} {key : k.Key} {ms : List (k.Key × r.Value)} {d : p.Descriptor}
          {m n : p.Message}
          → r.kind v ≡ val_object
          → r.members v ≡ (key, t) ∷ ms
          → p.starts_at key ≡ true
          → r.kind t ≡ val_string
          → p.find_message (r.string.get t) ≡ some d
          → p.create d ≡ some m
          → Fills ms m n
          → Denotes v n

    -- A value for the field `name` of a message: null, a scalar, or a message.
    pub data Puts : k.Key → r.Value → p.Message → p.Message → Type 0 where
      nothing : {name : k.Key} {v : r.Value} {m : p.Message} → r.kind v ≡ val_null → Puts name v m m
      scalar :
          {name : k.Key} {v : r.Value} {m n : p.Message}
          → is_scalar (r.kind v) ≡ true
          → p.starts_at name ≡ false
          → set_field p (r.kind v) (some name) v m ≡ some (ok, n)
          → Puts name v m n
      child :
          {name : k.Key} {v : r.Value} {ret : Err} {c m n : p.Message}
          → Denotes v c
          → merge_message p (some name) m (made c) ≡ some (ret, n)
          → Puts name v m n

    pub data Fills : List (k.Key × r.Value) → p.Message → p.Message → Type 0 where
      done : {m : p.Message} → Fills [] m m
      one :
          {name : k.Key} {v : r.Value} {ms : List (k.Key × r.Value)} {m n o : p.Message}
          → Puts name v m n
          → Fills ms n o
          → Fills ((name, v) ∷ ms) m o
      list :
          {name : k.Key} {v : r.Value} {ms : List (k.Key × r.Value)} {m n o : p.Message}
          → r.kind v ≡ val_array
          → Items name (r.elements v) m n
          → Fills ms n o
          → Fills ((name, v) ∷ ms) m o

    pub data Items : k.Key → List r.Value → p.Message → p.Message → Type 0 where
      no_more : {name : k.Key} {m : p.Message} → Items name [] m m
      item :
          {name : k.Key} {v : r.Value} {vs : List r.Value} {m n o : p.Message}
          → Puts name v m n
          → Items name vs n o
          → Items name (v ∷ vs) m o
