-- ===== src/Sqlite/Owned.antt =====
-- Which handles a connection and a statement release.
use zpp_adapter.Prelude.{
  ℕ, Str, ◌≡◌, refl, Bool, false, not, ◌==◌, if◌then◌else◌, Option, none, some, Option-cases, ◌⊎◌,
  inl, inr, List, [], ◌∷◌, ◌++◌, length, arith,
}
use zpp_adapter.Zsi.{exist}
use zpp_adapter.Sqlite.{
  Parameter, Library, remove_one, Sqlite, open_db, close_db, SqliteStmt, prepare, step, reset, bind,
}

-- A call on a connection: the name and the flags of `Open`, or `Close`.
pub data DbCall : Type 0 where
  opens : Str → ℕ → DbCall
  closes : DbCall

pub data StmtCall : Type 0 where
  prepares : Option ℕ → Str → ℕ → StmtCall
  binds : ℕ → Parameter → StmtCall
  steps resets : StmtCall

abbrev pub held : Option ℕ → List ℕ
held none = []
held (some c) = c ∷ []

remove_one_head : (c : ℕ) (ds : List ℕ) → remove_one c (c ∷ ds) ≡ ds
unfolding remove_one
remove_one_head c ds = ground arith

-- Whether `Prepare` comes to the call of sqlite.
abbrev pub reaches : Option ℕ → Str → Bool
reaches none sql = false
reaches (some c) sql = not (length sql == 0)

module _ (a : Library) where
  pub run_db : List DbCall → Sqlite a → Sqlite a
  run_db [] s = s
  run_db (opens f flags ∷ cs) s = run_db cs (open_db a f flags s).1
  run_db (closes ∷ cs) s = run_db cs (close_db a s)

  -- The handle that the connection holds is the one that it has not closed.
  abbrev Owns : List ℕ → Sqlite a → Type 0
  Owns before s = a.opened s.lib ≡ held s.db ++ before

  open_db-Owns :
      (before : List ℕ) (f : Str) (flags : ℕ) (s : Sqlite a)
      → Owns before s
      → Owns before (open_db a f flags s).1
  unfolding open_db
  open_db-Owns before f flags s h = elim (Option-cases s.db) [
    | inl e ↦
        (let law = a.opened-open_v2 f flags s.lib in
          elim (Option-cases (a.open_v2 f flags s.lib).1) [
            | inl n ↦ ground (arith, e, h, law, n)
            | inr (c, n) ↦ ground (arith, e, h, law, n)
          ])
    | inr (c, e) ↦ ground (arith, e, h)
  ]

  close_db-Owns :
      (before : List ℕ) (s : Sqlite a)
      → Owns before s
      → (a.opened (close_db a s).lib ≡ before) × ((close_db a s).db ≡ none)
  unfolding close_db
  close_db-Owns before s h = elim (Option-cases s.db) [
    | inl e ↦ (ground (arith, e, h), ground (arith, e))
    | inr (c, e) ↦ (
      ground (arith, e, h, a.opened-close_v2 c s.lib, remove_one_head c before),
      ground (arith, e),
    )
  ]

  closed-Owns : (before : List ℕ) (s : Sqlite a) → Owns before s → Owns before (close_db a s)
  closed-Owns before s h = let (o, n) = close_db-Owns before s h in ground (arith, o, n)

  run_db-Owns :
      (before : List ℕ) (cs : List DbCall) (s : Sqlite a)
      → Owns before s
      → Owns before (run_db cs s)
  unfolding run_db
  run_db-Owns before [] s h = h
  run_db-Owns before (opens f flags ∷ cs) s h =
      run_db-Owns before cs _ (open_db-Owns before f flags s h)
  run_db-Owns before (closes ∷ cs) s h = run_db-Owns before cs _ (closed-Owns before s h)

  -- Over any calls of `Open` and `Close` on a new connection, those that fail included, the only
  -- handle that it has not released is the one in `db`; while it is there `Open` refuses and changes
  -- nothing; and the destructor releases it, so that none is lost and none released twice.
  pub run_db_lem :
      (l : a.Lib) (cs : List DbCall)
      → let s = run_db cs (record { db = none; lib = l }) in
        (a.opened s.lib ≡ held s.db ++ a.opened l)
        × ((c f flags : _) → s.db ≡ some c → open_db a f flags s ≡ (exist, s))
        × (a.opened (close_db a s).lib ≡ a.opened l)
  unfolding open_db
  run_db_lem l cs =
      let s = run_db cs (record { db = none; lib = l }) in
      let owns = run_db-Owns (a.opened l) cs (record { db = none; lib = l }) refl in
      (owns, λ c f flags e. ground (arith, e), (close_db-Owns (a.opened l) s owns).0)

  -- The calls of a statement, `none` where an access is undefined; and the handles that `Prepare` got,
  -- the last one first.
  pub run_stmt : List StmtCall → SqliteStmt a → List ℕ → Option (SqliteStmt a × List ℕ)
  run_stmt [] s got = some (s, got)
  run_stmt (prepares db sql flags ∷ cs) s got =
      let (ret, s') = prepare a db sql flags s in
      run_stmt cs s' (if reaches db sql then held s'.stmt ++ got else got)
  run_stmt (binds idx x ∷ cs) s got = elim (bind a idx x s) [
    | none ↦ none
    | some (_, s') ↦ run_stmt cs s' got
  ]
  run_stmt (steps ∷ cs) s got = run_stmt cs (step a s).1 got
  run_stmt (resets ∷ cs) s got = run_stmt cs (reset a s).1 got

  -- `db` is set, the unreleased statements are those that it got, and it holds the last one or none.
  abbrev Holds : List ℕ → SqliteStmt a → List ℕ → Type 0
  Holds before s got =
      ((d : Option ℕ) × (s.db ≡ some d))
      × (a.statements s.lib ≡ got ++ before)
      × ((s.stmt ≡ none) ⊎ ((p : ℕ) × (lost : List ℕ) × (s.stmt ≡ some p) × (got ≡ p ∷ lost)))
