-- ===== src/Json/Handle.antt =====
-- zpp/json_rapid.hpp, RJson as an owner: what its constructors allocate and its destructor deletes, where
-- `SetValue`, `GetMember` and the walk let `val` point elsewhere in between. Addresses are numbers.
use zpp_adapter.Prelude.{
  ℕ, ◌≡◌, refl, Bool, true, false, if◌then◌else◌, Option, none, some, List, [], ◌∷◌,
}

-- `val`, `doc` and `alloc` are `none` for NULL.
pub record Handle : Type 0 where
  pub need_del : Bool
  pub val : Option ℕ
  pub doc : Option ℕ
  pub alloc : Option ℕ

-- `RJson()`: `got` is what `new` gives, the address and the document's allocator.
pub new_document : Option (ℕ × ℕ) → Handle
new_document none = record { need_del = false; val = none; doc = none; alloc = none }
new_document (some (d, a)) = record { need_del = true; val = some d; doc = some d; alloc = some a }

-- `RJson(alc)`: the given allocator, and what `new` gives for a value.
pub new_value : Option ℕ → Option ℕ → Handle
new_value none got = record { need_del = false; val = none; doc = none; alloc = none }
new_value (some a) none = record { need_del = false; val = none; doc = none; alloc = none }
new_value (some a) (some v) = record { need_del = true; val = some v; doc = none; alloc = some a }

-- `SetValue`, and what a successful `GetMember` does to the object that it fills.
pub set_value : ℕ → Handle → Handle
set_value p h = record h { val = some p }

-- What the destructor deletes.
pub destroy : Handle → Option ℕ
destroy h = if h.need_del then elim h.doc [ some d ↦ some d | none ↦ h.val ] else none

pub set_values : List ℕ → Handle → Handle
set_values [] h = h
set_values (p ∷ ps) h = set_values ps (set_value p h)

-- The last of the list, and else the first argument.
abbrev last : ℕ → List ℕ → ℕ
last v [] = v
last v (p ∷ ps) = last p ps

destroy-document :
    (need : Bool) (d : ℕ) (v a : Option ℕ) (ps : List ℕ)
    → destroy (set_values ps (record { need_del = need; val = v; doc = some d; alloc = a }))
      ≡ (if need then some d else none)
unfolding destroy set_values set_value
destroy-document true d v a [] = refl
destroy-document false d v a [] = refl
destroy-document need d v a (p ∷ ps) = destroy-document need d (some p) a ps

destroy-value :
    (v : ℕ) (a : Option ℕ) (ps : List ℕ)
    → destroy (set_values ps (record { need_del = true; val = some v; doc = none; alloc = a }))
      ≡ some (last v ps)
unfolding destroy set_values set_value
destroy-value v a [] = refl
destroy-value v a (p ∷ ps) = destroy-value p a ps

destroy-nothing :
    (v a : Option ℕ) (ps : List ℕ)
    → destroy (set_values ps (record { need_del = false; val = v; doc = none; alloc = a })) ≡ none
unfolding destroy set_values set_value
destroy-nothing v a [] = refl
destroy-nothing v a (p ∷ ps) = destroy-nothing (some p) a ps

-- Wherever `val` was made to point in between, an object that made a document deletes that document
-- once, and one that could allocate nothing deletes nothing; but one that made a value deletes what
-- `val` points to at the end: its own value only if `val` was never moved from it.
pub destroy_lem :
    (got : Option (ℕ × ℕ)) (alc new : Option ℕ) (ps : List ℕ)
    → (destroy (set_values ps (new_document got)) ≡ elim got [ none ↦ none | some (d, a) ↦ some d ])
      × (destroy (set_values ps (new_value alc new)) ≡ elim alc [
        | none ↦ none
        | some a ↦ elim new [ none ↦ none | some v ↦ some (last v ps) ]
      ])
unfolding new_document new_value
destroy_lem got alc new ps = (document got, value alc new)
  where
    document :
        (got : Option (ℕ × ℕ))
        → destroy (set_values ps (new_document got))
          ≡ elim got [ none ↦ none | some (d, a) ↦ some d ]
    document none = destroy-nothing none none ps
    document (some (d, a)) = destroy-document true d (some d) (some a) ps

    value :
        (alc new : Option ℕ)
        → destroy (set_values ps (new_value alc new))
          ≡ elim alc [ none ↦ none | some a ↦ elim new [ none ↦ none | some v ↦ some (last v ps) ] ]
    value none new = destroy-nothing none none ps
    value (some a) none = destroy-nothing none none ps
    value (some a) (some v) = destroy-value v (some a) ps
