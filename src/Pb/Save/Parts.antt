-- ===== src/Pb/Save/Parts.antt =====
-- Pb2json: what is saved of the fields of a message, put together.
use zpp_adapter.Prelude.{
  ℕ, zero, suc, ◌+◌, ◌≤◌, ◌≡◌, ap, ◌∙◌, true, false, some, List, [], ◌∷◌, ◌++◌, arith,
}
use zpp_adapter.Zsi.{ok}
use zpp_adapter.Json.{Keys, Rapid, val_object, set_string}
use zpp_adapter.Json.Access.{holding}
use zpp_adapter.Json.Each.Ends.{enough}
use zpp_adapter.Pb.{Protobuf, Value}
use zpp_adapter.Pb.Load.Meaning.{Denotes, Puts, Fills, one, list, Items, item}
use zpp_adapter.Pb.Save.{each_content, each_field, pb2json}
use zpp_adapter.Pb.Save.Meaning.{Apart}
use zpp_adapter.Pb.Save.Loop.{
  pushes, adds, elements-pushes, Absent, Absent-add, Places, placed_array,
}

module _ {k : Keys} {r : Rapid k} (p : Protobuf r) where
  -- The document of a message, and a fuel for `Pb2json` into any object that is there.
  pub record Saved (m : p.Message) : Type 0 where
    pub doc : r.Value
    pub fuel : ℕ
    pub saves :
        (n : ℕ) (old : r.Value)
        → fuel ≤ n
        → pb2json p n (holding r old) m ≡ some (ok, holding r doc)
    pub denotes : Denotes p doc m

  pub record SavedValue (f : p.Field) (c : Value p) (m n : p.Message) : Type 0 where
    pub part : r.Value
    pub fuel : ℕ
    pub places : (n : ℕ) → fuel ≤ n → Places p (pb2json p n) f c part
    pub puts : Puts p (p.name f) part m n

  pub record SavedEach (f : p.Field) (cs : List (Value p)) (m n : p.Message) : Type 0 where
    pub parts : List r.Value
    pub fuel : ℕ
    pub pushes_all :
        (n : ℕ) (a : r.Value)
        → fuel ≤ n
        → each_content p (pb2json p n) f cs (holding r a) ≡ some (holding r (pushes p parts a))
    pub items : Items p (p.name f) parts m n

  pub record SavedFields (whole : p.Message) (fs : List p.Field) (m n : p.Message) : Type 0 where
    pub parts : List (k.Key × r.Value)
    pub fuel : ℕ
    pub adds_all :
        (n : ℕ) (o : r.Value)
        → fuel ≤ n
        → r.kind o ≡ val_object
        → Absent p fs o
        → each_field p (pb2json p n) whole fs (holding r o) ≡ some (ok, holding r (adds p parts o))
    pub fills : Fills p parts m n

  pub more_saved :
      (f : p.Field) (c : Value p) (cs : List (Value p)) (m n o : p.Message)
      → p.repeated f ≡ true
      → SavedValue f c m n
      → SavedEach f cs n o
      → SavedEach f (c ∷ cs) m o
  unfolding each_content
  more_saved f c cs m n o rep v e = record {
    parts = v.part ∷ e.parts;
    fuel = v.fuel + e.fuel;
    pushes_all = λ n a le.
        let here = (v.places n (omega arith)).0 rep a in
        let more = e.pushes_all n (r.push v.part a) (omega arith) in ground (arith, here, more);
    items = item v.puts e.items;
  }

  pub single_saved :
      (whole : p.Message) (f : p.Field) (fs : List p.Field) (c : Value p) (m n o : p.Message)
      → p.repeated f ≡ false
      → p.has_field f whole ≡ true
      → p.contents f whole ≡ c ∷ []
      → Apart p (p.name f) fs
      → SavedValue f c m n
      → SavedFields whole fs n o
      → SavedFields whole (f ∷ fs) m o
  unfolding each_field
  single_saved whole f fs c m n o rep has cont apart v e = record {
    parts = (p.name f, v.part) ∷ e.parts;
    fuel = v.fuel + e.fuel;
    adds_all = λ n o le kind absent.
        let here = (v.places n (omega arith)).1 rep o kind absent.0 in
        let w = r.add (p.name f) v.part o in
        let more =
          e.adds_all n w (omega arith) (r.object-add (p.name f) v.part o kind)
            (Absent-add p fs (p.name f) v.part o kind absent.0 apart absent.1) in
        ground (arith, rep, has, cont, here, more);
    fills = one v.puts e.fills;
  }

  pub many_saved :
      (whole : p.Message) (f : p.Field) (fs : List p.Field) (c : Value p) (cs : List (Value p))
      (m n o : p.Message)
      → p.repeated f ≡ true
      → p.contents f whole ≡ c ∷ cs
      → Apart p (p.name f) fs
      → SavedEach f (c ∷ cs) m n
      → SavedFields whole fs n o
      → SavedFields whole (f ∷ fs) m o
  unfolding each_field
  many_saved whole f fs c cs m n o rep cont apart v e =
      let x = pushes p v.parts r.array in
      let (elements, kind) = elements-pushes p v.parts r.array r.kind-array in
      let same : r.elements x ≡ v.parts = elements ∙ ap (λ l. l ++ v.parts) r.elements-array in
      record {
        parts = (p.name f, x) ∷ e.parts;
        fuel = v.fuel + e.fuel;
        adds_all = λ n o le kind absent.
            let filled = v.pushes_all n r.array (omega arith) in
            let here = placed_array p f x o kind absent.0 in
            let more =
              e.adds_all n (r.add (p.name f) x o) (omega arith) (r.object-add (p.name f) x o kind)
                (Absent-add p fs (p.name f) x o kind absent.0 apart absent.1) in
            ground (arith, rep, cont, filled, here, more);
        fills = list kind (rw same v.items) e.fills;
      }

  pub Absent-object : (fs : List p.Field) → Absent p fs r.object
  Absent-object [] = tt
  Absent-object (f ∷ fs) = (r.find-object (p.name f), Absent-object fs)

  -- The object with the name of the type, which the fields are added to.
  abbrev pub typed_object : p.Message → r.Value
  typed_object m = r.add p.type_key (r.string.make (p.full_name (p.descriptor m))) r.object

  pub type_set :
      (m : p.Message)
      → set_string r (some p.type_key) (p.full_name (p.descriptor m)) (holding r r.object)
        ≡ some (ok, holding r (typed_object m))
  unfolding set_string
  type_set m = ground (arith, r.kind-object, r.find-object p.type_key)

  pub pb2json_plain :
      (m : p.Message) (n : ℕ) (old doc : r.Value) (enough : ℕ)
      → p.reflects m ≡ true
      → p.is_any (p.descriptor m) ≡ false
      → ((n : ℕ)
          → enough ≤ n
          → each_field p (pb2json p n) m (p.fields m) (holding r (typed_object m))
            ≡ some (ok, holding r doc))
      → suc enough ≤ n
      → pb2json p n (holding r old) m ≡ some (ok, holding r doc)
  unfolding pb2json
  pb2json_plain m zero old doc enough ref any fields le = absurd (omega arith)
  pb2json_plain m (suc n) old doc enough ref any fields le =
      ground (arith, ref, any, type_set m, fields n)
