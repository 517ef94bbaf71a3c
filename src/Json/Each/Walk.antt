-- ===== src/Json/Each/Walk.antt =====
-- RJson::ForEach: every begin that it reports has its end.
use zpp_adapter.Prelude.{
  ℕ, zero, suc, ◌≡◌, refl, sym, ap, subst, ◌∙◌, Bool, true, false, Option, none, some, List, [],
  ◌∷◌,
}
use zpp_adapter.Zsi.{Err, ok}
use zpp_adapter.Json.{
  Keys, Rapid, ValueType, val_array, val_object, val_null, val_false, val_true, val_string,
  val_number, array_begin, array_end, object_begin, object_end,
}
use zpp_adapter.Json.Each.{Callback, finish, go_on, visit, each_object, each_array, for_each}

-- What is open: `true` for an array, `false` for an object.
abbrev pub Open : Type 0
Open = List Bool

-- A begin opens; an end closes what was opened last, and is wrong for anything else.
abbrev pub follow : ValueType → Option Open → Option Open
follow t none = none
follow array_begin (some o) = some (true ∷ o)
follow object_begin (some o) = some (false ∷ o)
follow array_end (some (true ∷ o)) = some o
follow array_end (some _) = none
follow object_end (some (false ∷ o)) = some o
follow object_end (some _) = none
follow t (some o) = some o

module _ {k : Keys} (r : Rapid k) (H : Type 0) where
  abbrev pub Watch : Type 0
  Watch = H × Option Open

  -- The callback, watched.
  abbrev pub watched : Callback r H → Callback r Watch
  watched fn t name v (h, o) = let (ret, h') = fn t name v h in (ret, (h', follow t o))

  -- If there is a result, `o` is what is open.
  abbrev IsBack : Open → Option (Err × Watch) → Type 0
  IsBack o none = Unit {0}
  IsBack o (some x) = x.1.1 ≡ some o

  finish-IsBack :
      (fn : Callback r H) (t : ValueType) (b : Bool) (name : Option k.Key) (v : r.Value) (o : Open)
      (x : Option (Err × Watch))
      → follow t (some (b ∷ o)) ≡ some o
      → IsBack (b ∷ o) x
      → IsBack o (finish r Watch (watched fn) t name v x)
  finish-IsBack fn t b name v o none closes back = tt
  finish-IsBack fn t b name v o (some (ret, (h, st))) closes back = ap (follow t) back ∙ closes

  visit-IsBack :
      (t : ValueType) (fn : Callback r H) (arr obj : Watch → Option (Err × Watch))
      (name : Option k.Key) (v : r.Value) (h : H) (o : Open)
      → ((h : H) (o : Open) → IsBack o (arr (h, some o)))
      → ((h : H) (o : Open) → IsBack o (obj (h, some o)))
      → IsBack o (visit r Watch t (watched fn) arr obj name v (h, some o))
  visit-IsBack val_array fn arr obj name v h o ha ho =
      finish-IsBack fn array_end true name v o _ refl (ha _ (true ∷ o))
  visit-IsBack val_object fn arr obj name v h o ha ho =
      finish-IsBack fn object_end false name v o _ refl (ho _ (false ∷ o))
  visit-IsBack val_null fn arr obj name v h o ha ho = refl
  visit-IsBack val_false fn arr obj name v h o ha ho = refl
  visit-IsBack val_true fn arr obj name v h o ha ho = refl
  visit-IsBack val_string fn arr obj name v h o ha ho = refl
  visit-IsBack val_number fn arr obj name v h o ha ho = refl
  visit-IsBack array_begin fn arr obj name v h o ha ho = refl
  visit-IsBack array_end fn arr obj name v h o ha ho = refl
  visit-IsBack object_begin fn arr obj name v h o ha ho = refl
  visit-IsBack object_end fn arr obj name v h o ha ho = refl

  go_on-IsBack :
      (o : Open) (x : Option (Err × Watch)) (rest : Watch → Option (Err × Watch))
      → IsBack o x
      → ((h : H) (o : Open) → IsBack o (rest (h, some o)))
      → IsBack o (go_on r Watch x rest)
  go_on-IsBack o none rest back more = tt
  go_on-IsBack o (some (ok, (h, st))) rest back more =
      subst (λ st. IsBack o (rest (h, st))) (sym back) (more h o)
  go_on-IsBack o (some (_, (h, st))) rest back more = back

  mutual
    unfolding each_object each_array for_each

    each_object-IsBack :
        (fuel : ℕ) (fn : Callback r H) (ms : List (k.Key × r.Value)) (h : H) (o : Open)
        → IsBack o (each_object r Watch fuel (watched fn) ms (h, some o))
    each_object-IsBack zero fn ms h o = tt
    each_object-IsBack (suc fuel) fn [] h o = refl
    each_object-IsBack (suc fuel) fn ((name, v) ∷ ms) h o =
        go_on-IsBack o _ (each_object r Watch fuel (watched fn) ms)
          (visit-IsBack (r.kind v) fn (each_array r Watch fuel (watched fn) (r.elements v))
            (each_object r Watch fuel (watched fn) (r.members v)) (some name) v h o
            (each_array-IsBack fuel fn (r.elements v)) (each_object-IsBack fuel fn (r.members v)))
          (each_object-IsBack fuel fn ms)

    each_array-IsBack :
        (fuel : ℕ) (fn : Callback r H) (vs : List r.Value) (h : H) (o : Open)
        → IsBack o (each_array r Watch fuel (watched fn) vs (h, some o))
    each_array-IsBack zero fn vs h o = tt
    each_array-IsBack (suc fuel) fn [] h o = refl
    each_array-IsBack (suc fuel) fn (v ∷ vs) h o =
        go_on-IsBack o _ (each_array r Watch fuel (watched fn) vs) (for_each-IsBack fuel fn v h o)
          (each_array-IsBack fuel fn vs)

    for_each-IsBack :
        (fuel : ℕ) (fn : Callback r H) (v : r.Value) (h : H) (o : Open)
        → IsBack o (for_each r Watch fuel (watched fn) v (h, some o))
    for_each-IsBack zero fn v h o = tt
    for_each-IsBack (suc fuel) fn v h o =
        visit-IsBack (r.kind v) fn (each_array r Watch fuel (watched fn) (r.elements v))
          (each_object r Watch fuel (watched fn) (r.members v)) none v h o
          (each_array-IsBack fuel fn (r.elements v)) (each_object-IsBack fuel fn (r.members v))

  -- `ForEach` reports begins and ends in pairs, rightly nested, also where the callback stops it early:
  -- whenever it gives a result, as much is open as before.
  pub for_each_balanced :
      (v : r.Value) (fn : Callback r H) (h : H) (o : Open) (fuel : ℕ) (ret : Err) (h' : H)
      (o' : Option Open)
      → for_each r Watch fuel (watched fn) v (h, some o) ≡ some (ret, (h', o'))
      → o' ≡ some o
  for_each_balanced v fn h o fuel ret h' o' e = subst (IsBack o) e (for_each-IsBack fuel fn v h o)
