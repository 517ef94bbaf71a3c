-- ===== src/Std/Assoc.antt =====
-- Lists of pairs in which the order counts and a key can occur again, such as the members of an object.
use zpp_adapter.Prelude.{
  ◌≡◌, refl, sym, subst, Bool, inl, inr, true, if◌then◌else◌, Option, none, some, Option-cases,
  List, [], ◌∷◌, ◌++◌, arith,
}

-- A test by which keys are compared.
pub record Same (K : Type 0) : Type 0 where
  pub same : K → K → Bool
  pub refl : (a : K) → same a a ≡ true
  pub sym : (a b : K) → same a b ≡ same b a
  pub trans : (a b c : K) → same a b ≡ true → same a c ≡ same b c

module _ {K V : Type 0} (s : Same K) where
  -- The first value with the key.
  unfoldable pub look : K → List (K × V) → Option V
  look key [] = none
  look key ((j, v) ∷ h) = let rest = look key h in if s.same key j then some v else rest

  -- The list without the first with the key.
  unfoldable pub drop_key : K → List (K × V) → List (K × V)
  drop_key key [] = []
  drop_key key ((j, v) ∷ h) = let rest = drop_key key h in if s.same key j then h else (j, v) ∷ rest

  -- The first with the key is dropped, and the new pair goes to the end.
  unfoldable pub replace : K → V → List (K × V) → List (K × V)
  unfolding look drop_key
  replace key value h = elim (look key h) [
    | none ↦ h ++ ((key, value) ∷ [])
    | some _ ↦ drop_key key h ++ ((key, value) ∷ [])
  ]

  -- No key occurs twice.
  abbrev pub Distinct : List (K × V) → Type 0
  Distinct [] = Unit {0}
  Distinct ((j, v) ∷ h) = (look j h ≡ none) × Distinct h

  -- The value of the one list, and else that of the other.
  abbrev pub or_else : Option V → Option V → Option V
  or_else none w = w
  or_else (some v) w = some v

  look-append : (i : K) (h g : List (K × V)) → look i (h ++ g) ≡ or_else (look i h) (look i g)
  unfolding look
  look-append i [] g = refl
  look-append i ((j, v) ∷ h) g = ground (arith, look-append i h g)

  -- Keys that are the same find the same.
  pub look_same : (i j : K) (h : List (K × V)) → s.same i j ≡ true → look i h ≡ look j h
  unfolding look
  look_same i j [] e = refl
  look_same i j ((k, v) ∷ h) e =
      ground (arith, look_same i j h e, s.sym k i, s.sym k j, s.trans i j k e)

  look-one :
      (i key : K) (value : V)
      → look i ((key, value) ∷ []) ≡ (if s.same key i then some value else none)
  unfolding look
  look-one i key value = ground (arith, s.sym i key)

  look-drop_key :
      (i key : K) (h : List (K × V))
      → Distinct h
      → look i (drop_key key h) ≡ (if s.same key i then none else look i h)
  unfolding look drop_key
  look-drop_key i key [] d = ground arith
  look-drop_key i key ((j, v) ∷ h) (a, d) = ground (
    arith,
    look-drop_key i key h d,
    a,
    look_same j i h,
    s.sym j i,
    s.sym key j,
    s.trans j key i,
    s.sym key i,
    s.trans key i j,
  )

  pub look-replace :
      (i key : K) (value : V) (h : List (K × V))
      → Distinct h
      → look i (replace key value h) ≡ (if s.same key i then some value else look i h)
  unfolding replace
  look-replace i key value h d = elim (Option-cases (look key h)) [
    | inl e ↦
        ground
          (arith, e, look-append i h ((key, value) ∷ []), look-one i key value, look_same key i h)
    | inr (v, e) ↦ ground (
      arith,
      e,
      look-append i (drop_key key h) ((key, value) ∷ []),
      look-one i key value,
      look-drop_key i key h d,
    )
  ]

  Distinct-append :
      (h : List (K × V)) (key : K) (value : V)
      → Distinct h
      → look key h ≡ none
      → Distinct (h ++ ((key, value) ∷ []))
  unfolding look
  Distinct-append [] key value d e = (refl, tt)
  Distinct-append ((j, v) ∷ h) key value (a, d) e = (
    ground (arith, look-append j h ((key, value) ∷ []), look-one j key value, a, e, s.sym key j),
    Distinct-append h key value d (ground (arith, e)),
  )

  drop_key-Distinct : (key : K) (h : List (K × V)) → Distinct h → Distinct (drop_key key h)
  unfolding look drop_key
  drop_key-Distinct key [] d = tt
  drop_key-Distinct key ((j, v) ∷ h) (a, d) =
      ground (arith, drop_key-Distinct key h d, look-drop_key j key h d, a, d)

  pub replace-Distinct :
      (key : K) (value : V) (h : List (K × V)) → Distinct h → Distinct (replace key value h)
  unfolding replace
  replace-Distinct key value h d = elim (Option-cases (look key h)) [
    | inl e ↦
        (let same : replace key value h ≡ h ++ ((key, value) ∷ []) = ground (arith, e) in
          subst Distinct (sym same) (Distinct-append h key value d e))
    | inr (v, e) ↦
        (let same : replace key value h ≡ drop_key key h ++ ((key, value) ∷ []) =
            ground (arith, e) in
          subst Distinct (sym same) (
            Distinct-append (drop_key key h) key value (drop_key-Distinct key h d)
              (ground (arith, look-drop_key key key h d, s.refl key))))
  ]
