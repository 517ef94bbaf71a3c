-- ===== src/Pb/Save/Meaning.antt =====
-- Which messages a JSON document can hold: those without an Any, an enum or bytes, whose fields
-- behave as protobuf documents it.
use zpp_adapter.Prelude.{◌≡◌, true, false, some, List, [], ◌∷◌}
use zpp_adapter.Json.{Keys, Rapid}
use zpp_adapter.Pb.{
  Protobuf, int32_type, int64_type, uint32_type, uint64_type, double_type, float_type, bool_type,
  string_type, message_type, int32, int64, uint32, uint64, double, float, bool, enum, string,
  message, Value, write,
}

module _ {k : Keys} {r : Rapid k} (p : Protobuf r) where
  -- The field is found in `m` by its name.
  abbrev pub Found : p.Field → p.Message → Type 0
  Found f m =
      (p.reflects m ≡ true)
      × (p.find_field (p.descriptor m) (p.name f) ≡ some f)
      × (p.starts_at (p.name f) ≡ false)

  -- A scalar of the type of the field, and one that a number or a text of JSON can hold.
  abbrev pub Holds : p.Field → Value p → Type 0
  Holds f (int32 x) = p.cpp_type f ≡ int32_type
  Holds f (int64 x) = p.cpp_type f ≡ int64_type
  Holds f (uint32 x) = p.cpp_type f ≡ uint32_type
  Holds f (uint64 x) = p.cpp_type f ≡ uint64_type
  Holds f (double x) = p.cpp_type f ≡ double_type
  Holds f (float x) = (p.cpp_type f ≡ float_type) × (p.narrow (p.widen x) ≡ x)
  Holds f (bool b) = p.cpp_type f ≡ bool_type
  Holds f (string x) = (p.cpp_type f ≡ string_type) × (p.is_bytes f ≡ false)
  Holds f (enum x) = ⊥
  Holds f (message m) = ⊥

  -- No field of the list has the key for its name.
  abbrev pub Apart : k.Key → List p.Field → Type 0
  Apart key [] = Unit {0}
  Apart key (f ∷ fs) = (k.same key (p.name f) ≡ false) × Apart key fs

  -- The names differ.
  abbrev pub Distinct : List p.Field → Type 0
  Distinct [] = Unit {0}
  Distinct (f ∷ fs) = Apart (p.name f) fs × Distinct fs

  mutual
    -- The type of the message is known by its name, and a new message of it that is given the listed
    -- fields, one after the other, is the message.
    pub data Savable : p.Message → Type 0 where
      plain :
          {m new : p.Message} {d : p.Descriptor}
          → p.reflects m ≡ true
          → p.is_any (p.descriptor m) ≡ false
          → p.find_message (p.full_name (p.descriptor m)) ≡ some d
          → p.create d ≡ some new
          → p.starts_at p.type_key ≡ true
          → Apart p.type_key (p.fields m)
          → Distinct (p.fields m)
          → SavesFields m (p.fields m) new m
          → Savable m

    -- Writing the value into the field of the one message makes it the other.
    pub data Saves : p.Field → Value p → p.Message → p.Message → Type 0 where
      scalar :
          {f : p.Field} {c : Value p} {m : p.Message}
          → Found f m
          → Holds f c
          → Saves f c m (write p f c m)
      child :
          {f : p.Field} {c m : p.Message}
          → Found f m
          → p.cpp_type f ≡ message_type
          → p.is_any (p.descriptor (p.submessage f m)) ≡ false
          → p.same_type (p.submessage f m) c ≡ true
          → Savable c
          → Saves f (message c) m (write p f (message c) m)

    pub data SavesEach : p.Field → List (Value p) → p.Message → p.Message → Type 0 where
      no_more : {f : p.Field} {m : p.Message} → SavesEach f [] m m
      more :
          {f : p.Field} {c : Value p} {cs : List (Value p)} {m n o : p.Message}
          → Saves f c m n
          → SavesEach f cs n o
          → SavesEach f (c ∷ cs) m o

    -- The listed fields of the first message, from the second to the third.
    pub data SavesFields : p.Message → List p.Field → p.Message → p.Message → Type 0 where
      done : {whole m : p.Message} → SavesFields whole [] m m
      single :
          {f : p.Field} {fs : List p.Field} {c : Value p} {whole m n o : p.Message}
          → p.repeated f ≡ false
          → p.has_field f whole ≡ true
          → p.contents f whole ≡ c ∷ []
          → Saves f c m n
          → SavesFields whole fs n o
          → SavesFields whole (f ∷ fs) m o
      many :
          {f : p.Field} {fs : List p.Field} {c : Value p} {cs : List (Value p)}
          {whole m n o : p.Message}
          → p.repeated f ≡ true
          → p.contents f whole ≡ c ∷ cs
          → SavesEach f (c ∷ cs) m n
          → SavesFields whole fs n o
          → SavesFields whole (f ∷ fs) m o
