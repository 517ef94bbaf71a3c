-- ===== src/Json/Doc.antt =====
-- zpp/json_rapid.hpp, RJson as a document: what is read and written as text, in memory and in files.
pub mod Loaded
pub mod Saved
mod Tests
use zpp_adapter.Prelude.{
  ℕ, Str, ◌≡◌, ◌≢◌, Bool, true, false, ◌==◌, leb, if◌then◌else◌, Option, none, some, List, [], ◌∷◌,
  ◌++◌, length, take,
}
use zpp_adapter.Zsi.{Err, ok, fail, param_invalid}
use zpp_adapter.Json.{Keys, Rapid, val_object, is_object}

-- No byte is zero.
abbrev pub NonZero : Str → Type 0
NonZero [] = Unit {0}
NonZero (c ∷ s) = ((c == 0) ≡ false) × NonZero s

-- rapidjson's reader and writer as documented: `none` is a text that cannot be parsed, which leaves a
-- document as it was. The text of a value, which has no zero byte, is read as the value again, unless
-- the value holds a number that JSON cannot write.
pub record Texts {k : Keys} (r : Rapid k) : Type 0 where
  pub parse : Str → Option r.Value
  pub print : r.Value → Str
  pub pretty : r.Value → Str
  pub is_plain : r.Value → Bool
  pub parse-print : (v : r.Value) → is_plain v ≡ true → parse (print v) ≡ some v
  pub parse-pretty : (v : r.Value) → is_plain v ≡ true → parse (pretty v) ≡ some v
  pub print_long : (v : r.Value) → (length (print v) == 0) ≡ false
  pub NonZero-print : (v : r.Value) → NonZero (print v)

-- What `RJson` holds: `doc` is that `doc` is not NULL, and then `val` is the same pointer.
pub record Held {k : Keys} (r : Rapid k) : Type 0 where
  pub val : Option r.Value
  pub doc : Bool

-- The bytes at a pointer up to a zero byte; `none` where there is none.
unfoldable pub c_string : Str → Option Str
c_string [] = none
c_string (c ∷ s) =
    let rest = c_string s in
    if c == 0 then some [] else elim rest [ none ↦ none | some t ↦ some (c ∷ t) ]

module _ {k : Keys} (r : Rapid k) (t : Texts r) where
  -- `doc` after `ParseStream`, and whether it is an object.
  pub parsed : Str → r.Value → Bool × r.Value
  parsed s v =
      let w : r.Value = elim (t.parse s) [ none ↦ v | some x ↦ x ] in (is_object (r.kind w), w)

  -- The bytes that `LoadString` parses: `len` of them, or those before a zero byte.
  unfoldable pub read_bytes : Str → ℕ → Option Str
  read_bytes bytes len =
      if len == 0
      then c_string bytes
      else if leb len (length bytes)
      then some (take len bytes)
      else none

  -- `json` is what lies at the pointer, `none` for NULL. The result is `none` where it is read beyond
  -- that.
  pub load_string : Option Str → ℕ → Held r → Option (Err × Held r)
  load_string none len h = some (param_invalid, h)
  load_string (some bytes) len h =
      if h.doc
      then elim h.val [
        | none ↦ none
        | some v ↦ elim (read_bytes bytes len) [
          | none ↦ none
          | some s ↦
              (let (good, w) = parsed s v in
                some (if good then ok else param_invalid, record h { val = some w }))
        ]
      ]
      else some (param_invalid, h)

  -- `disk` is what `fopen` finds, for a name that is not NULL. The document is made an empty object
  -- before the file is parsed.
  pub load_file : Option (Option Str) → Held r → Option (Err × Held r)
  load_file none h = some (param_invalid, h)
  load_file (some disk) h =
      if h.doc
      then elim disk [
        | none ↦ some (param_invalid, h)
        | some s ↦ elim h.val [
          | none ↦ none
          | some _ ↦
              (let (good, w) = parsed s r.object in
                some (if good then ok else param_invalid, record h { val = some w }))
        ]
      ]
      else some (param_invalid, h)

  -- The result, and the text; it asks for `val` and writes `doc`.
  pub save_string : Held r → Option (Err × Option Str)
  save_string h = elim h.val [
    | none ↦ some (param_invalid, none)
    | some v ↦ if h.doc then some (ok, some (t.print v)) else none
  ]

  -- `can_open` is that `fopen` for writing succeeds, for a name that is not NULL; the result has what
  -- is in the file, if it was opened.
  pub save_file : Option Bool → Held r → Option (Err × Option Str)
  save_file none h = some (param_invalid, none)
  save_file (some can_open) h =
      if h.doc
      then if can_open
        then elim h.val [ none ↦ none | some v ↦ some (ok, some (t.print v)) ]
        else some (param_invalid, none)
      else some (param_invalid, none)

  pub to_string : (is_pretty : Bool) → Held r → Str
  to_string is_pretty h = elim h.val [
    | none ↦ []
    | some v ↦ if is_pretty then t.pretty v else t.print v
  ]

  -- `Swap`: the values change places, and each object keeps its own `doc`.
  pub swap : Held r → Held r → Option (Held r × Held r)
  swap h g = elim h.val [
    | none ↦ none
    | some v ↦ elim g.val [
      | none ↦ none
      | some w ↦ some (record h { val = some w }, record g { val = some v })
    ]
  ]
