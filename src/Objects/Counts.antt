-- ===== src/Objects/Counts.antt =====
-- References: an object is deleted once, after the last one.
use zpp_adapter.Prelude.{
  ℕ, zero, suc, ◌+◌, ◌-◌, ◌^◌, ◌≤◌, ◌<◌, ◌≡◌, refl, ap, subst, ◌∙◌, Bool-cases, false, ◌==◌, ◌⊎◌,
  inl, inr, if◌then◌else◌, none, some, List, [], ◌∷◌, ◌++◌, length, replicate, arith,
}
use zpp_adapter.Zsi.{fail}
use zpp_adapter.Objects.{
  Atomics, Counted, new_obj, Act, clones, drops, deletes, act, acts, clone_imp,
}

module _ (a : Atomics) where
  -- At most `n` references; `ref` counts them, and the object is deleted, or about to be, once, where
  -- there is none left.
  abbrev Fit : ℕ → Counted → Type 0
  Fit n s =
      (s.ref ≡ s.holders)
      × (s.holders ≤ n)
      × (s.deleting + s.deleted ≡ (if s.holders == 0 then 1 else 0))

  -- The arithmetic of the counts, away from where it wraps.
  inc_small : (n : ℕ) → n + 1 < 2 ^ 32 → (a.inc n).1 ≡ n + 1
  inc_small n small = let law = a.inc_new n in omega (arith, law, small)

  dec_small : (n : ℕ) → 0 < n → n < 2 ^ 32 → (a.dec n).1 ≡ n - 1
  dec_small n more small = let law = a.dec_new n in omega (arith, law, small, more)

  clones-Fit :
      (n : ℕ) (s : Counted)
      → n + 1 < 2 ^ 32
      → Fit n s
      → (s.holders == 0) ≡ false
      → Fit (n + 1) (record s { ref = (a.inc s.ref).1; holders = s.holders + 1 })
  clones-Fit n s small (r, le, d) p =
      let law = inc_small s.ref (omega (arith, r, le, small)) in
      (omega (arith, law, r), omega (arith, le), ground (arith, p, d))

  drops-Fit :
      (n : ℕ) (s : Counted)
      → n + 1 < 2 ^ 32
      → Fit n s
      → (s.holders == 0) ≡ false
      → Fit (n + 1) (record s {
        ref = (a.dec s.ref).1;
        holders = s.holders - 1;
        deleting = if (a.dec s.ref).0 == 0 then s.deleting + 1 else s.deleting;
      })
  drops-Fit n s small (r, le, d) p =
      let more : 0 < s.holders = ground (arith, p) in
      let law = dec_small s.ref (omega (arith, r, more)) (omega (arith, r, le, small)) in
      let given : (a.dec s.ref).0 ≡ s.holders - 1 = a.dec_gives s.ref ∙ law ∙ ap (λ h. h - 1) r in
      (omega (arith, law, r), omega (arith, le), ground (arith, given, p, d))

  deletes-Fit :
      (n : ℕ) (s : Counted)
      → Fit n s
      → (s.deleting == 0) ≡ false
      → Fit (n + 1) (record s { deleting = s.deleting - 1; deleted = s.deleted + 1 })
  deletes-Fit n s (r, le, d) p = (r, omega (arith, le), ground (arith, p, d))

  step-Fit :
      (n : ℕ) (c : Act) (s : Counted)
      → n + 1 < 2 ^ 32
      → Fit n s
      → (act a c s ≡ none) ⊎ ((s' : Counted) × (act a c s ≡ some s') × Fit (n + 1) s')
  unfolding act
  step-Fit n clones s small h = elim (Bool-cases (s.holders == 0)) [
    | inl z ↦ inl (ground (arith, z))
    | inr p ↦ inr (_, ground (arith, p), clones-Fit n s small h p)
  ]
  step-Fit n drops s small h = elim (Bool-cases (s.holders == 0)) [
    | inl z ↦ inl (ground (arith, z))
    | inr p ↦ inr (_, ground (arith, p), drops-Fit n s small h p)
  ]
  step-Fit n deletes s small h = elim (Bool-cases (s.deleting == 0)) [
    | inl z ↦ inl (ground (arith, z))
    | inr p ↦ inr (_, ground (arith, p), deletes-Fit n s h p)
  ]

  acts-Fit :
      (cs : List Act) (n : ℕ) (s : Counted)
      → n + length cs < 2 ^ 32
      → Fit n s
      → (acts a cs s ≡ none) ⊎ ((s' : Counted) × (acts a cs s ≡ some s') × Fit (n + length cs) s')
  unfolding acts
  acts-Fit [] n s small h = inr (s, refl, (h.0, omega (arith, h.1), h.2))
  acts-Fit (c ∷ cs) n s small h = elim (step-Fit n c s (omega (arith, small)) h) [
    | inl e ↦ inl (ground (arith, e))
    | inr (s1, e, h1) ↦ elim (acts-Fit cs (n + 1) s1 (omega (arith, small)) h1) [
      | inl e' ↦ inl (ground (arith, e, e'))
      | inr (s', e', (r, le, d)) ↦ inr (s', ground (arith, e, e'), (r, omega (arith, le), d))
    ]
  ]

  abbrev Good : Counted → Type 0
  Good s = (s.ref ≡ s.holders) × (s.deleting + s.deleted ≡ (if s.holders == 0 then 1 else 0))

  -- Whatever the threads that hold references do, in any order, with fewer than 2 ^ 32 steps: `ref` is
  -- the number of references that are left; while there is one the object was not deleted and nobody is
  -- about to, and where there is none exactly one thread deletes it, once.
  pub acts_lem :
      (cs : List Act) (s : Counted)
      → length cs + 1 < 2 ^ 32
      → acts a cs new_obj ≡ some s
      → (s.ref ≡ s.holders) × (s.deleting + s.deleted ≡ (if s.holders == 0 then 1 else 0))
  unfolding new_obj
  acts_lem cs s small e =
      elim (acts-Fit cs 1 new_obj (omega (arith, small)) (refl, omega arith, refl)) [
        | inl e' ↦ absurd cc
        | inr (s', e', (r, le, d)) ↦ (let same : s' ≡ s = cc in subst Good same (r, d))
      ]

  -- `n` more references and the release of all of them, and then the deletion.
  up :
      (n : ℕ) (s : Counted) (rest : List Act)
      → s.ref ≡ s.holders
      → 0 < s.holders
      → s.holders + n + 1 < 2 ^ 32
      → acts a (replicate n clones ++ rest) s
        ≡ acts a rest (record s { ref = s.ref + n; holders = s.holders + n })
  unfolding acts act
  up zero s rest r more small = ground arith
  up (suc n) s rest r more small =
      let law = inc_small s.ref (omega (arith, r, small)) in
      let s1 : Counted = record s { ref = s.ref + 1; holders = s.holders + 1 } in
      ground
        (arith, law, more, up n s1 rest (omega (arith, r)) (omega arith) (omega (arith, small)))

  down :
      (n : ℕ) (s : Counted) (rest : List Act)
      → s.ref ≡ s.holders
      → n < s.holders
      → s.holders < 2 ^ 32
      → acts a (replicate n drops ++ rest) s
        ≡ acts a rest (record s { ref = s.ref - n; holders = s.holders - n })
  unfolding acts act
  down zero s rest r more small = ground arith
  down (suc n) s rest r more small =
      let law = dec_small s.ref (omega (arith, r, more)) (omega (arith, r, small)) in
      let given : (a.dec s.ref).0 ≡ s.ref - 1 = a.dec_gives s.ref ∙ law in
      let s1 : Counted = record s { ref = s.ref - 1; holders = s.holders - 1 } in
      ground (
        arith,
        law,
        given,
        more,
        r,
        down n s1 rest (omega (arith, r)) (omega (arith, more)) (omega (arith, small)),
      )

  -- An object that is cloned `n` times, and released by each of the `n + 1` that have it, can be
  -- deleted once, and not after any earlier release.
  pub released_lem :
      (n : ℕ)
      → n + 2 < 2 ^ 32
      → (acts a (replicate n clones ++ (replicate n drops ++ (drops ∷ (deletes ∷ [])))) new_obj
          ≡ some (record { ref = 0; holders = 0; deleting = 0; deleted = 1 }))
        × ((m : ℕ)
            → m ≤ n
            → acts a (replicate n clones ++ (replicate m drops ++ (deletes ∷ []))) new_obj ≡ none)
  unfolding new_obj acts act
  released_lem n small =
      let s : Counted = record { ref = 1 + n; holders = 1 + n; deleting = 0; deleted = 0 } in
      let raised =
        λ (rest : List Act). up n new_obj rest refl (omega arith) (omega (arith, small)) in
      let ends : List Act = drops ∷ (deletes ∷ []) in
      let one : 1 + n - n ≡ 1 = omega arith in
      let last = dec_small 1 (omega arith) (omega arith) in
      let lowered = λ (m : ℕ) (le : m ≤ n) (rest : List Act).
        down m s rest refl (omega (arith, le)) (omega (arith, small)) in
      (
        raised _
            ∙ lowered n (omega arith) _
            ∙ ap
                (λ (h : ℕ).
                  acts a ends (record { ref = h; holders = h; deleting = 0; deleted = 0 }))
                one
            ∙ ground (arith, last, a.dec_gives 1),
        λ m le. raised _ ∙ lowered m le _ ∙ ground arith,
      )

  -- `CloneImp` of an object that is there counts the new reference and reports an error.
  pub clone_imp_lem : (ref : ℕ) → 0 < ref → ref + 1 < 2 ^ 32 → clone_imp a ref ≡ (fail, ref + 1)
  unfolding clone_imp
  clone_imp_lem ref more small =
      let law = inc_small ref small in ground (arith, law, a.inc_gives ref, more)
