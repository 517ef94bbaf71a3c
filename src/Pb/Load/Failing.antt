-- ===== src/Pb/Load/Failing.antt =====
-- Json2pb on a document that does not denote a message: the first part that is refused, and the parts
-- at which the program ends or its behaviour is undefined.
pub mod Stopping
pub mod Reported
pub mod Crashing
pub mod Fatal
use zpp_adapter.Prelude.{◌≡◌, Bool, true, false, Option, none, some, List, [], ◌∷◌}
use zpp_adapter.Zsi.{Err, is_ok, cast_fail}
use zpp_adapter.Json.{Keys, Rapid, val_object, val_array, val_string}
use zpp_adapter.Pb.{Protobuf}
use zpp_adapter.Pb.Load.{null, made, set_field, merge_message}
use zpp_adapter.Pb.Load.Meaning.{is_scalar, Denotes, Puts, Fills, Items}
use zpp_adapter.Pb.Load.Frame.{at_name}

module _ {k : Keys} {r : Rapid k} (p : Protobuf r) where
  -- An object whose first member names a type that can be created: the new message and the other
  -- members.
  pub record Opens (v : r.Value) (m : p.Message) (ms : List (k.Key × r.Value)) : Type 0 where
    pub key : k.Key
    pub first : r.Value
    pub type : p.Descriptor
    pub object : r.kind v ≡ val_object
    pub members : r.members v ≡ (key, first) ∷ ms
    pub at : p.starts_at key ≡ true
    pub text : r.kind first ≡ val_string
    pub found : p.find_message (r.string.get first) ≡ some type
    pub created : p.create type ≡ some m

  -- An object whose first member names a type that is not known.
  pub record Unknown (v : r.Value) : Type 0 where
    pub key : k.Key
    pub first : r.Value
    pub others : List (k.Key × r.Value)
    pub object : r.kind v ≡ val_object
    pub members : r.members v ≡ (key, first) ∷ others
    pub at : p.starts_at key ≡ true
    pub text : r.kind first ≡ val_string
    pub not_found : p.find_message (r.string.get first) ≡ none

  mutual
    -- A value for a field stops the walk with an error; the flag is true inside an array, and the
    -- second message is the first with what was done until then. The parts that were built of an inner
    -- message are merged all the same.
    pub data FailsAt : Bool → k.Key → r.Value → p.Message → Err → p.Message → Type 0 where
      refused :
          {b : Bool} {name : k.Key} {v : r.Value} {ret : Err} {m n : p.Message}
          → is_scalar (r.kind v) ≡ true
          → p.starts_at name ≡ false
          → set_field p (r.kind v) (some name) v m ≡ some (ret, n)
          → is_ok ret ≡ false
          → FailsAt b name v m ret n
      unknown :
          {b : Bool} {name : k.Key} {v : r.Value} {ret : Err} {m n : p.Message}
          → Unknown v
          → merge_message p (at_name b name) m null ≡ some (ret, n)
          → FailsAt b name v m cast_fail n
      inside :
          {b : Bool} {name : k.Key} {v : r.Value} {ms : List (k.Key × r.Value)} {ret done : Err}
          {new c m n : p.Message}
          → Opens v new ms
          → Fails ms new ret c
          → merge_message p (some name) m (made c) ≡ some (done, n)
          → FailsAt b name v m ret n

    pub data Fails : List (k.Key × r.Value) → p.Message → Err → p.Message → Type 0 where
      here :
          {name : k.Key} {v : r.Value} {ms : List (k.Key × r.Value)} {ret : Err} {m n : p.Message}
          → FailsAt false name v m ret n
          → Fails ((name, v) ∷ ms) m ret n
      in_list :
          {name : k.Key} {v : r.Value} {ms : List (k.Key × r.Value)} {ret : Err} {m n : p.Message}
          → r.kind v ≡ val_array
          → FailsItems name (r.elements v) m ret n
          → Fails ((name, v) ∷ ms) m ret n
      later :
          {name : k.Key} {v : r.Value} {ms : List (k.Key × r.Value)} {ret : Err} {m n o : p.Message}
          → Puts p name v m n
          → Fails ms n ret o
          → Fails ((name, v) ∷ ms) m ret o
      after_list :
          {name : k.Key} {v : r.Value} {ms : List (k.Key × r.Value)} {ret : Err} {m n o : p.Message}
          → r.kind v ≡ val_array
          → Items p name (r.elements v) m n
          → Fails ms n ret o
          → Fails ((name, v) ∷ ms) m ret o

    pub data FailsItems : k.Key → List r.Value → p.Message → Err → p.Message → Type 0 where
      this :
          {name : k.Key} {v : r.Value} {vs : List r.Value} {ret : Err} {m n : p.Message}
          → FailsAt true name v m ret n
          → FailsItems name (v ∷ vs) m ret n
      next :
          {name : k.Key} {v : r.Value} {vs : List r.Value} {ret : Err} {m n o : p.Message}
          → Puts p name v m n
          → FailsItems name vs n ret o
          → FailsItems name (v ∷ vs) m ret o

  -- A whole document is refused with an error.
  pub data Refused : r.Value → Err → Type 0 where
    unknown_root : {v : r.Value} → Unknown v → Refused v cast_fail
    part :
        {v : r.Value} {ms : List (k.Key × r.Value)} {ret : Err} {new n : p.Message}
        → Opens v new ms
        → Fails ms new ret n
        → Refused v ret

  mutual
    -- A value for a field at which `Json2pb` goes through a NULL pointer, or protobuf ends the program:
    -- an object of a type that is not known or with no members, or a message of another type than the field.
    pub data CrashesAt : Bool → k.Key → r.Value → p.Message → Type 0 where
      unknown :
          {b : Bool} {name : k.Key} {v : r.Value} {m : p.Message}
          → Unknown v
          → merge_message p (at_name b name) m null ≡ none
          → CrashesAt b name v m
      empty :
          {b : Bool} {name : k.Key} {v : r.Value} {m : p.Message}
          → r.kind v ≡ val_object
          → r.members v ≡ []
          → merge_message p (at_name b name) m null ≡ none
          → CrashesAt b name v m
      clash :
          {b : Bool} {name : k.Key} {v : r.Value} {c m : p.Message}
          → Denotes p v c
          → merge_message p (some name) m (made c) ≡ none
          → CrashesAt b name v m
      inside :
          {b : Bool} {name : k.Key} {v : r.Value} {ms : List (k.Key × r.Value)} {new m : p.Message}
          → Opens v new ms
          → Crashes ms new
          → CrashesAt b name v m

    pub data Crashes : List (k.Key × r.Value) → p.Message → Type 0 where
      here :
          {name : k.Key} {v : r.Value} {ms : List (k.Key × r.Value)} {m : p.Message}
          → CrashesAt false name v m
          → Crashes ((name, v) ∷ ms) m
      in_list :
          {name : k.Key} {v : r.Value} {ms : List (k.Key × r.Value)} {m : p.Message}
          → r.kind v ≡ val_array
          → CrashesItems name (r.elements v) m
          → Crashes ((name, v) ∷ ms) m
      later :
          {name : k.Key} {v : r.Value} {ms : List (k.Key × r.Value)} {m n : p.Message}
          → Puts p name v m n
          → Crashes ms n
          → Crashes ((name, v) ∷ ms) m
      after_list :
          {name : k.Key} {v : r.Value} {ms : List (k.Key × r.Value)} {m n : p.Message}
          → r.kind v ≡ val_array
          → Items p name (r.elements v) m n
          → Crashes ms n
          → Crashes ((name, v) ∷ ms) m

    pub data CrashesItems : k.Key → List r.Value → p.Message → Type 0 where
      this :
          {name : k.Key} {v : r.Value} {vs : List r.Value} {m : p.Message}
          → CrashesAt true name v m
          → CrashesItems name (v ∷ vs) m
      next :
          {name : k.Key} {v : r.Value} {vs : List r.Value} {m n : p.Message}
          → Puts p name v m n
          → CrashesItems name vs n
          → CrashesItems name (v ∷ vs) m
