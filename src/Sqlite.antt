-- ===== src/Sqlite.antt =====
-- zpp/sqlite3.h: a connection and a prepared statement of sqlite, with sqlite as an interface. Handles are
-- numbers, and `none` is NULL.
pub mod Owned
pub mod Bound
mod Tests
use zpp_adapter.Prelude.{
  ℕ, Str, ◌≡◌, ◌≢◌, Bool, true, false, ◌==◌, if◌then◌else◌, Option, none, some, List, [], ◌∷◌,
  length,
}
use zpp_adapter.Zsi.{Err, ok, fail, exist, param_invalid}

-- The list without the first `c`.
pub remove_one : ℕ → List ℕ → List ℕ
remove_one c [] = []
remove_one c (d ∷ ds) = let rest = remove_one c ds in if d == c then ds else d ∷ rest

-- What a parameter is bound to, one constructor for each overload of `Bind` and its like; values,
-- blobs and texts by their bytes.
pub data Parameter : Type 0 where
  null : Parameter
  double int int64 value pointer : ℕ → Parameter
  blob blob64 text text16 text64 : Str → Parameter
  zero_blob zero_blob64 : ℕ → Parameter

-- sqlite as documented. `open_v2` gives a handle even where it fails, unless there is no memory for one,
-- and the handle has to be closed; `prepare_v3` gives none where it fails, and also for a text without a
-- statement. `opened` and `statements` are the handles that are not released. A call on no statement is
-- a misuse.
pub record Library : Type 1 where
  pub Lib : Type 0
  pub open_v2 : Str → (flags : ℕ) → Lib → Bool × Option ℕ × Lib
  pub close_v2 : ℕ → Lib → Lib
  pub prepare_v3 : ℕ → Str → (flags : ℕ) → Lib → Bool × Option ℕ × Lib
  pub finalize : ℕ → Lib → Lib
  pub step : Option ℕ → Lib → ℕ × Lib
  pub reset : Option ℕ → Lib → Bool × Lib
  pub bind : Option ℕ → (idx : ℕ) → Parameter → Lib → Bool × Lib
  pub opened : Lib → List ℕ
  pub statements : Lib → List ℕ
  pub opened-open_v2 :
      (f : Str) (flags : ℕ) (l : Lib)
      → let (_, h, l') = open_v2 f flags l in
        opened l' ≡ elim h [ none ↦ opened l | some c ↦ c ∷ opened l ]
  pub opened-close_v2 : (c : ℕ) (l : Lib) → opened (close_v2 c l) ≡ remove_one c (opened l)
  pub prepare_failed :
      (c : ℕ) (s : Str) (flags : ℕ) (l : Lib)
      → let (good, h, _) = prepare_v3 c s flags l in good ≡ false → h ≡ none
  pub statements-prepare_v3 :
      (c : ℕ) (s : Str) (flags : ℕ) (l : Lib)
      → let (_, h, l') = prepare_v3 c s flags l in
        statements l' ≡ elim h [ none ↦ statements l | some p ↦ p ∷ statements l ]
  pub statements-finalize :
      (p : ℕ) (l : Lib) → statements (finalize p l) ≡ remove_one p (statements l)
  pub statements-step : (p : Option ℕ) (l : Lib) → statements (step p l).1 ≡ statements l
  pub statements-reset : (p : Option ℕ) (l : Lib) → statements (reset p l).1 ≡ statements l
  pub statements-bind :
      (p : Option ℕ) (idx : ℕ) (x : Parameter) (l : Lib)
      → statements (bind p idx x l).1 ≡ statements l
  pub bind_null : (idx : ℕ) (x : Parameter) (l : Lib) → bind none idx x l ≡ (false, l)
  pub reset_null : (l : Lib) → reset none l ≡ (false, l)

module _ (a : Library) where
  -- `Sqlite` with the library's state.
  pub record Sqlite : Type 0 where
    pub db : Option ℕ
    pub lib : a.Lib

  pub open_db : Str → ℕ → Sqlite → Err × Sqlite
  open_db filename flags s = elim s.db [
    | some _ ↦ (exist, s)
    | none ↦
        (let (good, h, l) = a.open_v2 filename flags s.lib in
          (if good then ok else fail, record { db = h; lib = l }))
  ]

  -- `Close`, which gives no result. The destructor calls it.
  pub close_db : Sqlite → Sqlite
  close_db s = elim s.db [ none ↦ s | some c ↦ record { db = none; lib = a.close_v2 c s.lib } ]

  -- `SqliteStmt`; `db` is `none` before it is set, which the constructor does not.
  pub record SqliteStmt : Type 0 where
    pub db : Option (Option ℕ)
    pub stmt : Option ℕ
    pub lib : a.Lib

  pub new_stmt : a.Lib → SqliteStmt
  new_stmt l = record { db = none; stmt = none; lib = l }

  -- The first argument is `db` of the connection.
  pub prepare : Option ℕ → Str → ℕ → SqliteStmt → Err × SqliteStmt
  prepare none sql flags s = (param_invalid, record s { db = some none })
  prepare (some c) sql flags s =
      if length sql == 0
      then (param_invalid, record s { db = some (some c) })
      else (let (good, h, l) = a.prepare_v3 c sql flags s.lib in
          (if good then ok else fail, record { db = some (some c); stmt = h; lib = l }))

  pub step : SqliteStmt → ℕ × SqliteStmt
  step s = let (code, l) = a.step s.stmt s.lib in (code, record s { lib = l })

  pub reset : SqliteStmt → Err × SqliteStmt
  reset s =
      let (good, l) = a.reset s.stmt s.lib in (if good then ok else fail, record s { lib = l })

  -- The overloads of `Bind` and their like, which have one body each with the function of sqlite for
  -- their type. `none`: an error is looked up in `db`, which is not set.
  pub bind : ℕ → Parameter → SqliteStmt → Option (Err × SqliteStmt)
  bind idx x s =
      let (good, l) = a.bind s.stmt idx x s.lib in
      if good
      then some (ok, record s { lib = l })
      else elim s.db [ none ↦ none | some _ ↦ some (fail, record s { lib = l }) ]

  -- What the destructor leaves of the library's state.
  pub drop_stmt : SqliteStmt → a.Lib
  drop_stmt s = elim s.stmt [ none ↦ s.lib | some p ↦ a.finalize p s.lib ]
