-- ===== src/Pb/Save/RoundTrip.antt =====
-- Pb2json and Json2pb: a message that a document can hold comes back.
use zpp_adapter.Prelude.{
  ℕ, suc, ◌≤◌, ◌≡◌, refl, ap, ◌∙◌, true, false, Option, some, List, [], ◌∷◌, ◌++◌,
}
use zpp_adapter.Zsi.{ok}
use zpp_adapter.Json.{Keys, Rapid}
use zpp_adapter.Json.Access.{holding}
use zpp_adapter.Json.Each.Ends.{enough}
use zpp_adapter.Pb.{Protobuf, Value}
use zpp_adapter.Pb.Load.{Msgs, json2pb}
use zpp_adapter.Pb.Load.Meaning.{typed, child, done, no_more}
use zpp_adapter.Pb.Load.Sound.{json2pb-Denotes}
use zpp_adapter.Pb.Save.{each_content, each_field, pb2json}
use zpp_adapter.Pb.Save.Meaning
use zpp_adapter.Pb.Save.Meaning.{Apart, Distinct, Savable, plain, Saves, SavesEach, SavesFields}
use zpp_adapter.Pb.Save.Loop.{
  made_of, scalar-Puts, adds, members-adds, Absent-add, scalar-Places, child-Places, child-merges,
}
use zpp_adapter.Pb.Save.Parts.{
  Saved, SavedValue, SavedEach, SavedFields, more_saved, single_saved, many_saved, Absent-object,
  typed_object, pb2json_plain,
}

module _ {k : Keys} {r : Rapid k} (p : Protobuf r) where
  Saved-of :
      (m new : p.Message) (d : p.Descriptor)
      → p.reflects m ≡ true
      → p.is_any (p.descriptor m) ≡ false
      → p.find_message (p.full_name (p.descriptor m)) ≡ some d
      → p.create d ≡ some new
      → p.starts_at p.type_key ≡ true
      → Apart p p.type_key (p.fields m)
      → SavedFields p m (p.fields m) new m
      → Saved p m
  Saved-of m new d ref any find create at apart v =
      let name = r.string.make (p.full_name (p.descriptor m)) in
      let kind = r.object-add p.type_key name r.object r.kind-object in
      let absent =
        Absent-add p (p.fields m) p.type_key name r.object r.kind-object (r.find-object p.type_key)
          apart (Absent-object p (p.fields m)) in
      let (members, object) = members-adds p v.parts (typed_object p m) kind in
      let first : r.members (typed_object p m) ≡ (p.type_key, name) ∷ [] =
        r.members-add p.type_key name r.object r.kind-object
        ∙ ap (λ l. l ++ ((p.type_key, name) ∷ [])) r.members-object in
      record {
        doc = adds p v.parts (typed_object p m);
        fuel = suc v.fuel;
        saves = λ n old le.
            pb2json_plain p m n old _ v.fuel ref any
              (λ n le. v.adds_all n (typed_object p m) le kind absent) le;
        denotes =
            typed object (members ∙ ap (λ l. l ++ v.parts) first) at (r.kind-string _)
              (ap p.find_message (r.string.get-make _) ∙ find) create v.fills;
      }

  mutual
    unfolding each_content each_field

    Savable-Saved : {m : p.Message} → Savable p m → Saved p m
    Savable-Saved (plain {m} {new} {d} ref any find create at apart distinct fields) =
        Saved-of m new d ref any find create at apart (SavesFields-Saved fields distinct)

    Saves-Saved :
        {f : p.Field} {c : Value p} {m n : p.Message} → Saves p f c m n → SavedValue p f c m n
    Saves-Saved (Meaning.scalar {f} {c} {m} found holds) = record {
      part = made_of p c;
      fuel = 0;
      places = λ n le. scalar-Places p (pb2json p n) f c holds;
      puts = scalar-Puts p f c m found holds;
    }
    Saves-Saved (Meaning.child {f} {c} {m} found t any same savable) =
        let s = Savable-Saved savable in
        record {
          part = s.doc;
          fuel = s.fuel;
          places = λ n le. child-Places p (pb2json p n) f c s.doc (s.saves n r.object le);
          puts = child s.denotes (child-merges p f c m found t any same);
        }

    SavesEach-Saved :
        {f : p.Field} {cs : List (Value p)} {m n : p.Message}
        → SavesEach p f cs m n
        → p.repeated f ≡ true
        → SavedEach p f cs m n
    SavesEach-Saved Meaning.no_more rep = record {
      parts = [];
      fuel = 0;
      pushes_all = λ n a le. refl;
      items = no_more;
    }
    SavesEach-Saved (Meaning.more {f} {c} {cs} {m} {n} {o} saves each) rep =
        more_saved p f c cs m n o rep (Saves-Saved saves) (SavesEach-Saved each rep)

    SavesFields-Saved :
        {whole : p.Message} {fs : List p.Field} {m n : p.Message}
        → SavesFields p whole fs m n
        → Distinct p fs
        → SavedFields p whole fs m n
    SavesFields-Saved Meaning.done distinct = record {
      parts = [];
      fuel = 0;
      adds_all = λ n o le kind absent. refl;
      fills = done;
    }
    SavesFields-Saved (Meaning.single {f} {fs} {c} {whole} {m} {n} {o} rep has cont saves fields)
          (apart, distinct) =
        single_saved p whole f fs c m n o rep has cont apart (Saves-Saved saves)
          (SavesFields-Saved fields distinct)
    SavesFields-Saved (Meaning.many {f} {fs} {c} {cs} {whole} {m} {n} {o} rep cont each fields)
          (apart, distinct) =
        many_saved p whole f fs c cs m n o rep cont apart (SavesEach-Saved each rep)
          (SavesFields-Saved fields distinct)

  -- The document of a message, and a fuel for the nesting of its messages.
  pub document : {m : p.Message} → Savable p m → r.Value
  document savable = (Savable-Saved savable).doc

  pub enough_save : {m : p.Message} → Savable p m → ℕ
  enough_save savable = (Savable-Saved savable).fuel

  -- `Pb2json` of a message that a document can hold, into any object, gives a document, with enough
  -- fuel for the nesting of the messages; and `Json2pb` of that document, into any message of the
  -- type, gives the message back, with enough fuel for the walk.
  pub json2pb-pb2json :
      (m pb : p.Message) (old : r.Value) (savable : Savable p m) (n walk : ℕ)
      → enough_save savable ≤ n
      → enough r (Option (Msgs p)) (document savable) ≤ walk
      → p.same_type pb m ≡ true
      → (pb2json p n (holding r old) m ≡ some (ok, holding r (document savable)))
        × (json2pb p walk (document savable) pb ≡ some (ok, m))
  unfolding document enough_save
  json2pb-pb2json m pb old savable n walk le walks same =
      let s = Savable-Saved savable in
      (s.saves n old le, (json2pb-Denotes p s.doc m pb walk s.denotes same walks).1)
