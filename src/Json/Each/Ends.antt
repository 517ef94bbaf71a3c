-- ===== src/Json/Each/Ends.antt =====
-- RJson::ForEach ends.
use zpp_adapter.Prelude.{
  ℕ, zero, suc, ◌+◌, ◌≤◌, ◌<◌, ◌≢◌, refl, Option, none, some, List, [], ◌∷◌, map, arith,
}
use zpp_adapter.Zsi.{Err, ok}
use zpp_adapter.Json.{
  Keys, Rapid, Below, ValueType, val_array, val_object, val_null, val_false, val_true, val_string,
  val_number, array_begin, array_end, object_begin, object_end,
}
use zpp_adapter.Json.Each.{Callback, finish, go_on, visit, each_object, each_array, for_each}

module _ {k : Keys} (r : Rapid k) (H : Type 0) where
  -- There is a result from some fuel on, for every callback.
  abbrev Ends : (ℕ → Callback r H → H → Option (Err × H)) → Type 0
  Ends walk = (n : ℕ) × ((fuel : ℕ) (fn : Callback r H) (h : H) → n ≤ fuel → walk fuel fn h ≢ none)

  finish_ends :
      (fn : Callback r H) (t : ValueType) (name : Option k.Key) (v : r.Value) (x : Option (Err × H))
      → x ≢ none
      → finish r H fn t name v x ≢ none
  finish_ends fn t name v none ne = absurd (ne refl)
  finish_ends fn t name v (some (ret, h)) ne = λ e. cc

  visit_ends :
      (t : ValueType) (fn : Callback r H) (arr obj : H → Option (Err × H)) (name : Option k.Key)
      (v : r.Value) (h : H)
      → ((h : H) → arr h ≢ none)
      → ((h : H) → obj h ≢ none)
      → visit r H t fn arr obj name v h ≢ none
  visit_ends val_array fn arr obj name v h ha ho = finish_ends fn array_end name v _ (ha _)
  visit_ends val_object fn arr obj name v h ha ho = finish_ends fn object_end name v _ (ho _)
  visit_ends val_null fn arr obj name v h ha ho = λ e. cc
  visit_ends val_false fn arr obj name v h ha ho = λ e. cc
  visit_ends val_true fn arr obj name v h ha ho = λ e. cc
  visit_ends val_string fn arr obj name v h ha ho = λ e. cc
  visit_ends val_number fn arr obj name v h ha ho = λ e. cc
  visit_ends array_begin fn arr obj name v h ha ho = λ e. cc
  visit_ends array_end fn arr obj name v h ha ho = λ e. cc
  visit_ends object_begin fn arr obj name v h ha ho = λ e. cc
  visit_ends object_end fn arr obj name v h ha ho = λ e. cc

  go_on_ends :
      (x : Option (Err × H)) (rest : H → Option (Err × H))
      → x ≢ none
      → ((h : H) → rest h ≢ none)
      → go_on r H x rest ≢ none
  go_on_ends none rest ne more = absurd (ne refl)
  go_on_ends (some (ok, h)) rest ne more = more h
  go_on_ends (some (_, h)) rest ne more = λ e. cc

  abbrev ArrayEnds : List r.Value → Type 0
  ArrayEnds vs = Ends (λ fuel fn. each_array r H fuel fn vs)

  abbrev ObjectEnds : List (k.Key × r.Value) → Type 0
  ObjectEnds ms = Ends (λ fuel fn. each_object r H fuel fn ms)

  array_nil : ArrayEnds []
  unfolding each_array
  array_nil = (1, λ fuel fn h le. go fuel fn h le)
    where
      go : (fuel : ℕ) (fn : Callback r H) (h : H) → 1 ≤ fuel → each_array r H fuel fn [] h ≢ none
      go zero fn h le = absurd (omega arith)
      go (suc fuel) fn h le = λ e. cc

  object_nil : ObjectEnds []
  unfolding each_object
  object_nil = (1, λ fuel fn h le. go fuel fn h le)
    where
      go : (fuel : ℕ) (fn : Callback r H) (h : H) → 1 ≤ fuel → each_object r H fuel fn [] h ≢ none
      go zero fn h le = absurd (omega arith)
      go (suc fuel) fn h le = λ e. cc

  value-Ends :
      (v : r.Value)
      → ArrayEnds (r.elements v)
      → ObjectEnds (r.members v)
      → Ends (λ fuel fn. for_each r H fuel fn v)
  unfolding for_each
  value-Ends v (a, arr) (b, obj) = (suc (a + b), λ fuel fn h le. go fuel fn h le)
    where
      go :
          (fuel : ℕ) (fn : Callback r H) (h : H)
          → suc (a + b) ≤ fuel
          → for_each r H fuel fn v h ≢ none
      go zero fn h le = absurd (omega arith)
      go (suc fuel) fn h le =
          visit_ends (r.kind v) fn _ _ none v h (λ h. arr fuel fn h (omega arith))
            (λ h. obj fuel fn h (omega arith))

  array_cons :
      (v : r.Value) (vs : List r.Value)
      → Ends (λ fuel fn. for_each r H fuel fn v)
      → ArrayEnds vs
      → ArrayEnds (v ∷ vs)
  unfolding each_array
  array_cons v vs (a, one) (b, rest) = (suc (a + b), λ fuel fn h le. go fuel fn h le)
    where
      go :
          (fuel : ℕ) (fn : Callback r H) (h : H)
          → suc (a + b) ≤ fuel
          → each_array r H fuel fn (v ∷ vs) h ≢ none
      go zero fn h le = absurd (omega arith)
      go (suc fuel) fn h le =
          go_on_ends _ _ (one fuel fn h (omega arith)) (λ h. rest fuel fn h (omega arith))

  object_cons :
      (name : k.Key) (v : r.Value) (ms : List (k.Key × r.Value))
      → ArrayEnds (r.elements v)
      → ObjectEnds (r.members v)
      → ObjectEnds ms
      → ObjectEnds ((name, v) ∷ ms)
  unfolding each_object
  object_cons name v ms (a, arr) (b, obj) (c, rest) =
      (suc (a + (b + c)), λ fuel fn h le. go fuel fn h le)
    where
      go :
          (fuel : ℕ) (fn : Callback r H) (h : H)
          → suc (a + (b + c)) ≤ fuel
          → each_object r H fuel fn ((name, v) ∷ ms) h ≢ none
      go zero fn h le = absurd (omega arith)
      go (suc fuel) fn h le =
          go_on_ends _ _
            (visit_ends (r.kind v) fn _ _ (some name) v h (λ h. arr fuel fn h (omega arith))
              (λ h. obj fuel fn h (omega arith)))
            (λ h. rest fuel fn h (omega arith))

  Below-weaken : (m n : ℕ) (vs : List r.Value) → m ≤ n → Below r.rank m vs → Below r.rank n vs
  Below-weaken m n [] le b = tt
  Below-weaken m n (v ∷ vs) le b = (omega (arith, b.0), Below-weaken m n vs le b.1)

  -- The parts of a value of a rank below `n`.
  abbrev PartsEnd : ℕ → Type 0
  PartsEnd n = (v : r.Value) → r.rank v < n → ArrayEnds (r.elements v) × ObjectEnds (r.members v)

  array_ends : (n : ℕ) → PartsEnd n → (vs : List r.Value) → Below r.rank n vs → ArrayEnds vs
  array_ends n parts [] b = array_nil
  array_ends n parts (v ∷ vs) b =
      let (arr, obj) = parts v b.0 in
      array_cons v vs (value-Ends v arr obj) (array_ends n parts vs b.1)

  object_ends :
      (n : ℕ)
      → PartsEnd n
      → (ms : List (k.Key × r.Value)) → Below r.rank n (map (λ m. m.1) ms)
      → ObjectEnds ms
  object_ends n parts [] b = object_nil
  object_ends n parts ((name, v) ∷ ms) b =
      let (arr, obj) = parts v b.0 in object_cons name v ms arr obj (object_ends n parts ms b.1)

  parts_end : (n : ℕ) → PartsEnd n
  parts_end zero v lt = absurd (omega arith)
  parts_end (suc n) v lt = (
    array_ends n (parts_end n) (r.elements v)
        (Below-weaken (r.rank v) n _ (omega arith) (r.rank-elements v)),
    object_ends n (parts_end n) (r.members v)
        (Below-weaken (r.rank v) n _ (omega arith) (r.rank-members v)),
  )

  walk-Ends : (v : r.Value) → Ends (λ fuel fn. for_each r H fuel fn v)
  walk-Ends v = let (arr, obj) = parts_end (suc (r.rank v)) v (omega arith) in value-Ends v arr obj

  -- A fuel for the walk over a value, whatever the callback does.
  pub enough : r.Value → ℕ
  enough v = (walk-Ends v).0

  -- With enough fuel for the value `ForEach` gives a result, for every callback and whatever stands
  -- behind `hint`.
  pub for_each_ends :
      (v : r.Value) (fuel : ℕ) (fn : Callback r H) (h : H)
      → enough v ≤ fuel
      → for_each r H fuel fn v h ≢ none
  unfolding enough
  for_each_ends v fuel fn h le = (walk-Ends v).1 fuel fn h le
