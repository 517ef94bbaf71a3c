-- ===== src/ZppJson/Sets.antt =====
-- The members that set_int, set_string and set_member leave.
use zpp_adapter.Prelude.{◌≡◌, refl, if◌then◌else◌, Option, some, List, [], arith}
use zpp_adapter.Zsi.{not_exist}
use zpp_adapter.Std.Assoc.{look, replace, Distinct}
use zpp_adapter.Json.{Keys, Rapid, val_object, is_object}
use zpp_adapter.ZppJson.{
  Ordered, ZppJson, Place, at_doc, at_v, elsewhere, new_json, read, write, set_member,
}

module _ {k : Keys} (r : Rapid k) (m : Ordered r) where
  pub read-write : (w : r.Value) (j : ZppJson r m) → read r m (write r m w j) ≡ some w
  unfolding read write
  read-write w j = go j.pv refl
    where
      go : (p : Place r.Value) → j.pv ≡ p → read r m (write r m w j) ≡ some w
      go at_doc e = ground (arith, e)
      go at_v e = ground (arith, e)
      go (elsewhere x) e = ground (arith, e)

  -- The members that count: none where the value is no object.
  abbrev pub members_of : r.Value → List (k.Key × r.Value)
  members_of v = if is_object (r.kind v) then r.members v else []

  -- Through `pv` there is an object in which `key` holds `x`, behind the other members in their order,
  -- each key once, and any other key, such as `i`, what it held before.
  abbrev pub Holds : (key i : k.Key) (x old : r.Value) → ZppJson r m → Type 0
  Holds key i x old j =
      (w : r.Value) × (read r m j ≡ some w)
      × (r.kind w ≡ val_object)
      × (r.members w ≡ replace m.keys key x (members_of old))
      × Distinct m.keys (r.members w)
      × (look m.keys i (r.members w)
          ≡ (if m.keys.same key i then some x else look m.keys i (members_of old)))

  -- An object made by `json()`, whatever its document, is refused as a member: `set_member` asks for `v`,
  -- which it does not use.
  pub document_refused :
      (key : k.Key) (doc : Option r.Value) (j : ZppJson r m)
      → let value : ZppJson r m = record (new_json r m) { doc = doc } in
        set_member r m key value j ≡ some (not_exist, j, value)
  unfolding set_member new_json
  document_refused key doc j = ground (arith, m.kind-null)
