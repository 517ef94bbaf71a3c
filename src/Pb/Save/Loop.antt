-- ===== src/Pb/Save/Loop.antt =====
-- Pb2json: what a field adds to the document, and the objects and arrays that the loops build.
use zpp_adapter.Prelude.{
  ◌≡◌, refl, ap, sym, ◌∙◌, true, false, Option, none, some, List, [], ◌∷◌, ◌++◌, append_assoc,
  append-nil, arith,
}
use zpp_adapter.Zsi.{Err, ok, param_invalid}
use zpp_adapter.Json.{
  Keys, Rapid, RJson, ValueType, val_number, val_string, val_true, val_false, val_object, val_array,
  add_member,
}
use zpp_adapter.Json.Access.{holding}
use zpp_adapter.Pb.{
  Protobuf, message_type, int32, int64, uint32, uint64, double, float, bool, enum, string, message,
  Value, write,
}
use zpp_adapter.Pb.Load.{made, merge_message, set_field}
use zpp_adapter.Pb.Load.Meaning.{Puts, scalar, is_scalar}
use zpp_adapter.Pb.Save.{field2json, place_part}
use zpp_adapter.Pb.Save.Meaning.{Found, Holds, Apart}

module _ {k : Keys} {r : Rapid k} (p : Protobuf r) where
  -- The JSON value of a scalar.
  abbrev pub made_of : Value p → r.Value
  made_of (int32 x) = r.int.make x
  made_of (int64 x) = r.int64.make x
  made_of (uint32 x) = r.uint.make x
  made_of (uint64 x) = r.uint64.make x
  made_of (double x) = r.double.make x
  made_of (float x) = r.double.make (p.widen x)
  made_of (bool b) = r.bool.make (r.of_bool b)
  made_of (string x) = r.string.make x
  made_of (enum x) = r.uint.make x
  made_of (message m) = r.object

  Puts-of :
      (t : ValueType) (f : p.Field) (v : r.Value) (m n : p.Message)
      → r.kind v ≡ t
      → is_scalar t ≡ true
      → p.starts_at (p.name f) ≡ false
      → set_field p t (some (p.name f)) v m ≡ some (ok, n)
      → Puts p (p.name f) v m n
  Puts-of t f v m n e s a h = scalar (rw e s) a (rw e h)

  pub scalar-Puts :
      (f : p.Field) (c : Value p) (m : p.Message)
      → Found p f m
      → Holds p f c
      → Puts p (p.name f) (made_of c) m (write p f c m)
  unfolding set_field
  scalar-Puts f (int32 x) m (a, b, s) h =
      Puts-of val_number f _ m _ (r.kind-int x) refl s
        (ground (arith, a, b, h, r.int.is-make x, r.int.get-make x))
  scalar-Puts f (int64 x) m (a, b, s) h =
      Puts-of val_number f _ m _ (r.kind-int64 x) refl s
        (ground (arith, a, b, h, r.int64.is-make x, r.int64.get-make x))
  scalar-Puts f (uint32 x) m (a, b, s) h =
      Puts-of val_number f _ m _ (r.kind-uint x) refl s
        (ground (arith, a, b, h, r.uint.is-make x, r.uint.get-make x))
  scalar-Puts f (uint64 x) m (a, b, s) h =
      Puts-of val_number f _ m _ (r.kind-uint64 x) refl s
        (ground (arith, a, b, h, r.uint64.is-make x, r.uint64.get-make x))
  scalar-Puts f (double x) m (a, b, s) h =
      Puts-of val_number f _ m _ (r.kind-double x) refl s
        (ground (arith, a, b, h, r.double.is-make x, r.double.get-make x))
  scalar-Puts f (float x) m (a, b, s) (h, same) =
      let made = r.double.get-make (p.widen x) in
      Puts-of val_number f _ m _ (r.kind-double (p.widen x)) refl s
        (ground (arith, a, b, h, same, r.double.is-make (p.widen x), made))
  scalar-Puts f (bool true) m (a, b, s) h =
      Puts-of val_true f _ m _ (r.kind-bool true) refl s (ground (arith, a, b, h))
  scalar-Puts f (bool false) m (a, b, s) h =
      Puts-of val_false f _ m _ (r.kind-bool false) refl s (ground (arith, a, b, h))
  scalar-Puts f (string x) m (a, b, s) (h, text) =
      Puts-of val_string f _ m _ (r.kind-string x) refl s
        (ground (arith, a, b, h, r.string.get-make x))
  scalar-Puts f (enum x) m (a, b, s) h = absurd h
  scalar-Puts f (message x) m (a, b, s) h = absurd h

  -- The parts of a document in the order in which they are added.
  abbrev pub pushes : List r.Value → r.Value → r.Value
  pushes [] a = a
  pushes (x ∷ xs) a = pushes xs (r.push x a)

  abbrev pub adds : List (k.Key × r.Value) → r.Value → r.Value
  adds [] o = o
  adds ((key, x) ∷ ps) o = adds ps (r.add key x o)

  pub elements-pushes :
      (xs : List r.Value) (a : r.Value)
      → r.kind a ≡ val_array
      → (r.elements (pushes xs a) ≡ r.elements a ++ xs) × (r.kind (pushes xs a) ≡ val_array)
  elements-pushes [] a e = (sym (append-nil _), e)
  elements-pushes (x ∷ xs) a e =
      let (more, kind) = elements-pushes xs (r.push x a) (r.array-push x a e) in
      (more ∙ ap (λ l. l ++ xs) (r.elements-push x a e) ∙ append_assoc _ (x ∷ []) xs, kind)

  pub members-adds :
      (ps : List (k.Key × r.Value)) (o : r.Value)
      → r.kind o ≡ val_object
      → (r.members (adds ps o) ≡ r.members o ++ ps) × (r.kind (adds ps o) ≡ val_object)
  members-adds [] o e = (sym (append-nil _), e)
  members-adds ((key, x) ∷ ps) o e =
      let (more, kind) = members-adds ps (r.add key x o) (r.object-add key x o e) in
      (more ∙ ap (λ l. l ++ ps) (r.members-add key x o e) ∙ append_assoc _ ((key, x) ∷ []) ps, kind)

  -- None of the fields has a member.
  abbrev pub Absent : List p.Field → r.Value → Type 0
  Absent [] o = Unit {0}
  Absent (f ∷ fs) o = (r.find (p.name f) o ≡ none) × Absent fs o

  pub Absent-add :
      (fs : List p.Field) (key : k.Key) (x o : r.Value)
      → r.kind o ≡ val_object
      → r.find key o ≡ none
      → Apart p key fs
      → Absent fs o
      → Absent fs (r.add key x o)
  Absent-add [] key x o e h a b = tt
  Absent-add (f ∷ fs) key x o e h (a, as') (b, bs) =
      (ground (arith, r.find-add (p.name f) key x o e h, a, b), Absent-add fs key x o e h as' bs)

  -- `Pb2json`, for the messages inside.
  abbrev pub Saver : Type 0
  Saver = RJson r → p.Message → Option (Err × RJson r)

  -- A value of the field goes to the end of an array, or becomes a new member of an object.
  abbrev pub Places : Saver → p.Field → Value p → r.Value → Type 0
  Places save f c x =
      (p.repeated f ≡ true
        → (a : r.Value) → field2json p save f c (holding r a) ≡ some (holding r (r.push x a)))
      × (p.repeated f ≡ false
          → (o : r.Value) → r.kind o ≡ val_object
          → r.find (p.name f) o ≡ none
          → field2json p save f c (holding r o) ≡ some (holding r (r.add (p.name f) x o)))

  pub scalar-Places :
      (save : Saver) (f : p.Field) (c : Value p) → Holds p f c → Places save f c (made_of c)
  unfolding field2json
  scalar-Places save f (int32 x) h =
      ((λ e a. ground (arith, e)), λ e o y n. ground (arith, e, y, n))
  scalar-Places save f (int64 x) h =
      ((λ e a. ground (arith, e)), λ e o y n. ground (arith, e, y, n))
  scalar-Places save f (uint32 x) h =
      ((λ e a. ground (arith, e)), λ e o y n. ground (arith, e, y, n))
  scalar-Places save f (uint64 x) h =
      ((λ e a. ground (arith, e)), λ e o y n. ground (arith, e, y, n))
  scalar-Places save f (double x) h =
      ((λ e a. ground (arith, e)), λ e o y n. ground (arith, e, y, n))
  scalar-Places save f (float x) h =
      ((λ e a. ground (arith, e)), λ e o y n. ground (arith, e, y, n))
  scalar-Places save f (bool b) h = ((λ e a. ground (arith, e)), λ e o y n. ground (arith, e, y, n))
  scalar-Places save f (string x) (h, text) =
      ((λ e a. ground (arith, e, text)), λ e o y n. ground (arith, e, y, n, text))
  scalar-Places save f (enum x) h = absurd h
  scalar-Places save f (message m) h = absurd h

  pub child-Places :
      (save : Saver) (f : p.Field) (c : p.Message) (x : r.Value)
      → save (holding r r.object) c ≡ some (ok, holding r x)
      → Places save f (message c) x
  unfolding field2json
  child-Places save f c x h = ((λ e a. ground (arith, e, h)), λ e o y n. ground (arith, e, y, n, h))

  -- An array that is done becomes a new member.
  pub placed_array :
      (f : p.Field) (x o : r.Value)
      → r.kind o ≡ val_object
      → r.find (p.name f) o ≡ none
      → place_part p false (p.name f) (holding r x) (holding r o)
        ≡ some (holding r (r.add (p.name f) x o))
  unfolding add_member
  placed_array f x o kind absent = ground (arith, kind, absent)

  pub child-merges :
      (f : p.Field) (c m : p.Message)
      → Found p f m
      → p.cpp_type f ≡ message_type
      → p.is_any (p.descriptor (p.submessage f m)) ≡ false
      → p.same_type (p.submessage f m) c ≡ true
      → merge_message p (some (p.name f)) m (made c) ≡ some (param_invalid, write p f (message c) m)
  unfolding merge_message
  child-merges f c m (a, b, s) t any same = ground (arith, a, b, t, any, same)
