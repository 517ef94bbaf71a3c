-- ===== src/Json/Each/Keeps.antt =====
-- RJson::ForEach: what every call of the callback keeps, the walk keeps.
use zpp_adapter.Prelude.{ℕ, zero, suc, Option, none, some, List, [], ◌∷◌}
use zpp_adapter.Zsi.{Err, ok}
use zpp_adapter.Json.{
  Keys, Rapid, ValueType, val_array, val_object, val_null, val_false, val_true, val_string,
  val_number, array_begin, array_end, object_begin, object_end,
}
use zpp_adapter.Json.Each.{Callback, finish, go_on, visit, each_object, each_array, for_each}

module _ {k : Keys} (r : Rapid k) {H : Type 0} (P : H → Type 0) (fn : Callback r H)
    (step : (t : ValueType) (name : Option k.Key) (v : r.Value) (h : H)
      → P h
      → P (fn t name v h).1) where
  -- If there is a result, it has the property.
  abbrev pub Kept : Option (Err × H) → Type 0
  Kept none = Unit {0}
  Kept (some x) = P x.1

  finish-Kept :
      (t : ValueType) (name : Option k.Key) (v : r.Value) (x : Option (Err × H))
      → Kept x
      → Kept (finish r H fn t name v x)
  finish-Kept t name v none kept = tt
  finish-Kept t name v (some (ret, h)) kept = step t name v h kept

  go_on-Kept :
      (x : Option (Err × H)) (rest : H → Option (Err × H))
      → Kept x
      → ((h : H) → P h → Kept (rest h))
      → Kept (go_on r H x rest)
  go_on-Kept none rest kept more = tt
  go_on-Kept (some (ok, h)) rest kept more = more h kept
  go_on-Kept (some (_, h)) rest kept more = kept

  visit-Kept :
      (t : ValueType) (arr obj : H → Option (Err × H)) (name : Option k.Key) (v : r.Value) (h : H)
      → ((h : H) → P h → Kept (arr h))
      → ((h : H) → P h → Kept (obj h))
      → P h
      → Kept (visit r H t fn arr obj name v h)
  visit-Kept val_array arr obj name v h ha ho kept =
      finish-Kept array_end name v _ (ha _ (step array_begin name v h kept))
  visit-Kept val_object arr obj name v h ha ho kept =
      finish-Kept object_end name v _ (ho _ (step object_begin name v h kept))
  visit-Kept val_null arr obj name v h ha ho kept = step val_null name v h kept
  visit-Kept val_false arr obj name v h ha ho kept = step val_false name v h kept
  visit-Kept val_true arr obj name v h ha ho kept = step val_true name v h kept
  visit-Kept val_string arr obj name v h ha ho kept = step val_string name v h kept
  visit-Kept val_number arr obj name v h ha ho kept = step val_number name v h kept
  visit-Kept array_begin arr obj name v h ha ho kept = kept
  visit-Kept array_end arr obj name v h ha ho kept = kept
  visit-Kept object_begin arr obj name v h ha ho kept = kept
  visit-Kept object_end arr obj name v h ha ho kept = kept

  mutual
    unfolding each_object each_array for_each

    pub each_object-Kept :
        (fuel : ℕ) (ms : List (k.Key × r.Value)) (h : H) → P h → Kept (each_object r H fuel fn ms h)
    each_object-Kept zero ms h kept = tt
    each_object-Kept (suc fuel) [] h kept = kept
    each_object-Kept (suc fuel) ((name, v) ∷ ms) h kept =
        go_on-Kept _ (each_object r H fuel fn ms)
          (visit-Kept (r.kind v) _ _ (some name) v h (each_array-Kept fuel (r.elements v))
            (each_object-Kept fuel (r.members v)) kept)
          (each_object-Kept fuel ms)

    pub each_array-Kept :
        (fuel : ℕ) (vs : List r.Value) (h : H) → P h → Kept (each_array r H fuel fn vs h)
    each_array-Kept zero vs h kept = tt
    each_array-Kept (suc fuel) [] h kept = kept
    each_array-Kept (suc fuel) (v ∷ vs) h kept =
        go_on-Kept _ (each_array r H fuel fn vs) (for_each-Kept fuel v h kept)
          (each_array-Kept fuel vs)

    pub for_each-Kept : (fuel : ℕ) (v : r.Value) (h : H) → P h → Kept (for_each r H fuel fn v h)
    for_each-Kept zero v h kept = tt
    for_each-Kept (suc fuel) v h kept =
        visit-Kept (r.kind v) _ _ none v h (each_array-Kept fuel (r.elements v))
          (each_object-Kept fuel (r.members v)) kept
