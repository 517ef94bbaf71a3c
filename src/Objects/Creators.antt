-- ===== src/Objects/Creators.antt =====
-- CreateObj: which creator is called.
use zpp_adapter.Prelude.{
  ℕ, ◌≡◌, refl, ap, ◌∙◌, Bool-cases, ◌==◌, if◌then◌else◌, Option, none, some, Option-cases, ◌⊎◌,
  inl, inr, List, [], ◌∷◌, arith,
}
use zpp_adapter.Zsi.{Err, not_exist}
use zpp_adapter.Std.Order.{KeyOrder}
use zpp_adapter.Std.Map.{find, find-assign}
use zpp_adapter.OwningMap.{map_find}
use zpp_adapter.Objects.{Creators, reg_creater, create_obj}

module _ {C : Type 0} (o : KeyOrder ℕ) where
  pub reg_all : List (ℕ × Option C) → Creators C → Creators C
  reg_all [] m = m
  reg_all ((type, c) ∷ rs) m = reg_all rs (reg_creater o type c m)

  -- The creator of the last registration of the type that is none of type 0 or of no creator.
  pub last_creator : ℕ → List (ℕ × Option C) → Option C → Option C
  last_creator type [] old = old
  last_creator type ((u, none) ∷ rs) old = last_creator type rs old
  last_creator type ((u, some c) ∷ rs) old =
      last_creator type rs (if u == 0 then old else if o.eq u type then some c else old)

  abbrev known : ℕ → Creators C → Option C
  known type none = none
  known type (some t) = find o type t

  known-reg_creater :
      (type u : ℕ) (c : C) (m : Creators C)
      → known type (reg_creater o u (some c) m)
        ≡ (if u == 0 then known type m else if o.eq u type then some c else known type m)
  unfolding reg_creater find
  known-reg_creater type u c none = elim (Bool-cases (u == 0)) [
    | inl z ↦ ground (arith, z)
    | inr p ↦ ground (arith, p, find-assign o type u c [])
  ]
  known-reg_creater type u c (some t) = elim (Bool-cases (u == 0)) [
    | inl z ↦ ground (arith, z)
    | inr p ↦ ground (arith, p, find-assign o type u c t)
  ]

  known-reg_all :
      (type : ℕ) (rs : List (ℕ × Option C)) (m : Creators C)
      → known type (reg_all rs m) ≡ last_creator type rs (known type m)
  unfolding reg_all last_creator reg_creater
  known-reg_all type [] m = refl
  known-reg_all type ((u, none) ∷ rs) m = known-reg_all type rs m
  known-reg_all type ((u, some c) ∷ rs) m =
      known-reg_all type rs (reg_creater o u (some c) m)
      ∙ ap (last_creator type rs) (known-reg_creater type u c m)

  -- After any registrations, `CreateObj` gives the result of the last creator that was registered for the
  -- type, and else that there is none; where nothing was registered at all, there is no map, and the call
  -- is undefined.
  pub create_obj_lem :
      (null : C) (call : C → Err) (type : ℕ) (rs : List (ℕ × Option C))
      → ((reg_all rs none ≡ none)
          × (create_obj o null call type (reg_all rs none) ≡ none)
          × (last_creator type rs none ≡ none))
        ⊎ (create_obj o null call type (reg_all rs none)
            ≡ some (elim (last_creator type rs none) [ none ↦ not_exist | some c ↦ call c ]))
  unfolding create_obj map_find
  create_obj_lem null call type rs =
      let here = known-reg_all type rs none in
      elim (Option-cases (reg_all rs none)) [
        | inl e ↦ inl (e, ground (arith, e), ground (arith, e, here))
        | inr (t, e) ↦ elim (Option-cases (find o type t)) [
          | inl f ↦ inr (ground (arith, e, f, here))
          | inr (c, f) ↦ inr (ground (arith, e, f, here))
        ]
      ]
