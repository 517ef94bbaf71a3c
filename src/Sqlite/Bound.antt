-- ===== src/Sqlite/Bound.antt =====
-- What Prepare leaves to the calls after it.
use zpp_adapter.Prelude.{
  ℕ, Str, ◌≡◌, refl, false, if◌then◌else◌, Option, none, some, ◌⊎◌, inl, inr, [], ◌∷◌, arith,
}
use zpp_adapter.Zsi.{ok, fail, param_invalid}
use zpp_adapter.Sqlite.{Parameter, Library, SqliteStmt, prepare, reset, bind}

module _ (a : Library) where
  -- Binding and resetting report an error and change nothing.
  abbrev pub IsDead : SqliteStmt a → Type 0
  IsDead s = ((idx : ℕ) (x : Parameter) → bind a idx x s ≡ some (fail, s)) × (reset a s ≡ (fail, s))

  dead : (s : SqliteStmt a) (d : Option ℕ) → s.db ≡ some d → s.stmt ≡ none → IsDead s
  unfolding bind reset
  dead s d e n = (
    λ idx x. ground (arith, e, n, a.bind_null idx x s.lib),
    ground (arith, n, a.reset_null s.lib),
  )

  -- `Prepare` refuses a connection that is not open and an empty text, keeps the statement and asks
  -- sqlite nothing. Else the statement is the one that sqlite gives, the result is `ZEOK` exactly where
  -- sqlite reports no error, and where it gives none, by an error or because the text has no statement,
  -- every `Bind` and `Reset` reports an error and changes nothing.
  pub prepare_lem :
      (db : Option ℕ) (sql : Str) (flags : ℕ) (s : SqliteStmt a)
      → let (ret, s') = prepare a db sql flags s in
        (((db ≡ none) ⊎ (sql ≡ [])) × (ret ≡ param_invalid) × (s' ≡ record s { db = some db }))
        ⊎ ((c : ℕ) × (db ≡ some c)
            × (let (good, h, l) = a.prepare_v3 c sql flags s.lib in
                (ret ≡ (if good then ok else fail))
                × (s'.stmt ≡ h)
                × (s'.lib ≡ l)
                × ((good ≡ false) → IsDead s')
                × ((h ≡ none) → IsDead s')))
  unfolding prepare
  prepare_lem none sql flags s = inl (inl refl, refl, refl)
  prepare_lem (some c) [] flags s = inl (inr refl, refl, refl)
  prepare_lem (some c) (q ∷ sql) flags s =
      let s' = (prepare a (some c) (q ∷ sql) flags s).1 in
      let is_set : s'.db ≡ some (some c) = ground arith in
      let holds : s'.stmt ≡ (a.prepare_v3 c (q ∷ sql) flags s.lib).1 = ground arith in
      let failed = a.prepare_failed c (q ∷ sql) flags s.lib in
      inr (
        c,
        refl,
        (
          ground arith,
          holds,
          ground arith,
          λ e. dead s' (some c) is_set (ground (arith, holds, failed e)),
          λ e. dead s' (some c) is_set (ground (arith, holds, e)),
        ),
      )
