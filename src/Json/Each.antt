-- ===== src/Json/Each.antt =====
-- RJson::ForEach, EachObject and EachArray: the walk over a JSON value with a callback.
pub mod Walk
pub mod Ends
pub mod Keeps
use zpp_adapter.Prelude.{
  ℕ, zero, suc, ◌+◌, ◌≤◌, ◌<◌, ◌≡◌, ◌≢◌, refl, sym, ap, ◌∙◌, Bool, true, false, if◌then◌else◌,
  Option, none, some, List, [], ◌∷◌, arith,
}
use zpp_adapter.Zsi.{is_ok, Err, ok, not_support, param_invalid}
use zpp_adapter.Json.{
  Keys, Rapid, ValueType, val_null, val_false, val_true, val_object, val_array, val_string,
  val_number, array_begin, array_end, object_begin, object_end, RJson,
}

module _ {k : Keys} (r : Rapid k) (H : Type 0) where
  -- `fun`, with what stands behind `hint`: the type, the name and the value.
  abbrev pub Callback : Type 0
  Callback = ValueType → Option k.Key → r.Value → H → Err × H

  -- The callback after the parts of an array or object; its result is not looked at.
  abbrev pub finish :
      Callback → ValueType → Option k.Key → r.Value → Option (Err × H) → Option (Err × H)
  finish fn t name v none = none
  finish fn t name v (some (ret, h)) = some (ret, (fn t name v h).1)

  -- The rest of a loop, unless the result is not `ZEOK`.
  abbrev pub go_on : Option (Err × H) → (H → Option (Err × H)) → Option (Err × H)
  go_on none rest = none
  go_on (some (ret, h)) rest = if is_ok ret then rest h else some (ret, h)

  -- The switch on the type, in `EachObject` and in `ForEach`: a scalar is reported; an array or object
  -- is reported before and after its parts, and the result is that of the parts. `arr` and `obj` walk
  -- the parts.
  abbrev pub visit :
      ValueType
      → Callback
      → (H → Option (Err × H))
      → (H → Option (Err × H))
      → Option k.Key
      → r.Value
      → H
      → Option (Err × H)
  visit val_array fn arr obj name v h = finish fn array_end name v (arr (fn array_begin name v h).1)
  visit val_object fn arr obj name v h =
      finish fn object_end name v (obj (fn object_begin name v h).1)
  visit val_null fn arr obj name v h = some (fn val_null name v h)
  visit val_false fn arr obj name v h = some (fn val_false name v h)
  visit val_true fn arr obj name v h = some (fn val_true name v h)
  visit val_string fn arr obj name v h = some (fn val_string name v h)
  visit val_number fn arr obj name v h = some (fn val_number name v h)
  visit _ fn arr obj name v h = some (not_support, h)

  -- `fuel` bounds the nesting of the calls; `none` where it runs out. The loops stop at the first
  -- result that is not `ZEOK`.
  unfoldable mutual
    pub each_object : ℕ → Callback → List (k.Key × r.Value) → H → Option (Err × H)
    each_object zero fn ms h = none
    each_object (suc fuel) fn [] h = some (ok, h)
    each_object (suc fuel) fn ((name, v) ∷ ms) h =
        go_on
          (visit (r.kind v) fn (each_array fuel fn (r.elements v))
            (each_object fuel fn (r.members v)) (some name) v h)
          (each_object fuel fn ms)

    pub each_array : ℕ → Callback → List r.Value → H → Option (Err × H)
    each_array zero fn vs h = none
    each_array (suc fuel) fn [] h = some (ok, h)
    each_array (suc fuel) fn (v ∷ vs) h = go_on (for_each fuel fn v h) (each_array fuel fn vs)

    pub for_each : ℕ → Callback → r.Value → H → Option (Err × H)
    for_each zero fn v h = none
    for_each (suc fuel) fn v h =
        visit (r.kind v) fn (each_array fuel fn (r.elements v)) (each_object fuel fn (r.members v))
          none v h
