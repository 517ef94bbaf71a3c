-- ===== src/Sqlite/Tests.antt =====
-- A small sqlite, and the wrappers on it.
use zpp_adapter.Prelude.{
  ℕ, ◌+◌, Str, ◌≡◌, refl, Bool, true, false, ◌==◌, if◌then◌else◌, Option, none, some, List, [], ◌∷◌,
  ◌++◌, codes, arith,
}
use zpp_adapter.Zsi.{exist}
use zpp_adapter.Sqlite.{Library, remove_one, open_db, close_db}
use zpp_adapter.Sqlite.Owned.{opens, closes, run_db, held, run_db_lem}

record Lib : Type 0 where
  opened : List ℕ
  statements : List ℕ
  next : ℕ

abbrev empty : Lib
empty = record { opened = []; statements = []; next = 1 }

-- A name that is empty cannot be opened, though there is a handle.
abbrev open_v2 : Str → ℕ → Lib → Bool × Option ℕ × Lib
open_v2 f flags l =
    let l' : Lib = record l { opened = l.next ∷ l.opened; next = l.next + 1 } in
    elim f [ [] ↦ (false, some l.next, l') | c ∷ _ ↦ (true, some l.next, l') ]

-- `-` begins a comment and `?` is an error.
abbrev prepare_v3 : ℕ → Str → ℕ → Lib → Bool × Option ℕ × Lib
prepare_v3 c [] flags l = (true, none, l)
prepare_v3 c (q ∷ sql) flags l =
    if q == 45
    then (true, none, l)
    else if q == 63
    then (false, none, l)
    else (true, some l.next, record l { statements = l.next ∷ l.statements; next = l.next + 1 })

abbrev on_statement : Option ℕ → Lib → Bool × Lib
on_statement none l = (false, l)
on_statement (some p) l = (true, l)

opened-open_v2 :
    (f : Str) (flags : ℕ) (l : Lib)
    → let (_, h, l') = open_v2 f flags l in
      l'.opened ≡ elim h [ none ↦ l.opened | some c ↦ c ∷ l.opened ]
opened-open_v2 [] flags l = refl
opened-open_v2 (c ∷ f) flags l = refl

prepare_failed :
    (c : ℕ) (s : Str) (flags : ℕ) (l : Lib)
    → let (good, h, _) = prepare_v3 c s flags l in good ≡ false → h ≡ none
prepare_failed c [] flags l e = refl
prepare_failed c (q ∷ sql) flags l e = ground (arith, e)

statements-prepare_v3 :
    (c : ℕ) (s : Str) (flags : ℕ) (l : Lib)
    → let (_, h, l') = prepare_v3 c s flags l in
      l'.statements ≡ elim h [ none ↦ l.statements | some p ↦ p ∷ l.statements ]
statements-prepare_v3 c [] flags l = refl
statements-prepare_v3 c (q ∷ sql) flags l = ground arith

statements-on : (p : Option ℕ) (l : Lib) → (on_statement p l).1.statements ≡ l.statements
statements-on none l = refl
statements-on (some p) l = refl

abbrev mini : Library
mini = record {
  Lib = Lib;
  open_v2 = open_v2;
  close_v2 = λ c l. record l { opened = remove_one c l.opened };
  prepare_v3 = prepare_v3;
  finalize = λ p l. record l { statements = remove_one p l.statements };
  step = λ p l. (101, l);
  reset = on_statement;
  bind = λ p idx x l. on_statement p l;
  opened = λ l. l.opened;
  statements = λ l. l.statements;
  opened-open_v2 = opened-open_v2;
  opened-close_v2 = λ c l. refl;
  prepare_failed = prepare_failed;
  statements-prepare_v3 = statements-prepare_v3;
  statements-finalize = λ p l. refl;
  statements-step = λ p l. refl;
  statements-reset = statements-on;
  statements-bind = λ p idx x l. statements-on p l;
  bind_null = λ idx x l. refl;
  reset_null = λ l. refl;
}

-- A failed `Open`, one that is refused, and a good one.
run_db_lem_example :
    let s =
      run_db mini
        (opens [] 6 ∷ (opens (codes "a.db") 6 ∷ (closes ∷ (opens (codes "a.db") 6 ∷ []))))
        (record { db = none; lib = empty }) in
    (s.lib.opened ≡ held s.db ++ [])
    × ((c f flags : _) → s.db ≡ some c → open_db mini f flags s ≡ (exist, s))
    × ((close_db mini s).lib.opened ≡ [])
run_db_lem_example =
    run_db_lem mini empty
      (opens [] 6 ∷ (opens (codes "a.db") 6 ∷ (closes ∷ (opens (codes "a.db") 6 ∷ []))))

abbrev conn : Option ℕ
conn = some 1
