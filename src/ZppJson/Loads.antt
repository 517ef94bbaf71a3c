-- ===== src/ZppJson/Loads.antt =====
-- load_string and load_file, and the text of a value.
use zpp_adapter.Prelude.{
  ℕ, Str, ◌≡◌, refl, true, false, none, some, Option-cases, ◌⊎◌, inl, inr, ◌∷◌, ◌++◌, length, arith,
}
use zpp_adapter.Zsi.{ok}
use zpp_adapter.Json.{Keys, Rapid}
use zpp_adapter.Json.Doc.{Texts, read_bytes}
use zpp_adapter.Json.Doc.Saved.{read-print}
use zpp_adapter.ZppJson.{Ordered, ZppJson, read, load_string, load_file, to_string}

module _ {k : Keys} (r : Rapid k) (m : Ordered r) (t : Texts r) where
  -- Loading into a document always succeeds, from memory and from a file, with the value of a text that
  -- can be parsed, object or not, and with the value that was there where it cannot.
  pub load_always :
      (bytes s : Str) (len : ℕ) (j : ZppJson r m) (v : r.Value)
      → read_bytes r t bytes len ≡ some s
      → j.doc ≡ some v
      → (w : r.Value) × (load_string r m t bytes len j ≡ some (ok, record j { doc = some w }))
        × (load_file r m t (some s) j ≡ (ok, record j { doc = some w }))
        × ((t.parse s ≡ some w) ⊎ ((t.parse s ≡ none) × (w ≡ v)))
  unfolding load_string load_file
  load_always bytes s len j v e d = elim (Option-cases (t.parse s)) [
    | inl p ↦ (v, ground (arith, e, d, p), ground (arith, d, p), inr (p, refl))
    | inr (w, p) ↦ (w, ground (arith, e, d, p), ground (arith, d, p), inl p)
  ]

  -- The text of a value of numbers that JSON can write is loaded into any document as the value again.
  pub load_string-to_string :
      (j into : ZppJson r m) (v old : r.Value) (rest : Str)
      → read r m j ≡ some v
      → into.doc ≡ some old
      → t.is_plain v ≡ true
      → (s : Str) × (to_string r m t false j ≡ some s)
        × (load_string r m t (s ++ rest) (length s) into ≡ some (ok, record into { doc = some v }))
        × (load_string r m t (s ++ (0 ∷ rest)) 0 into ≡ some (ok, record into { doc = some v }))
  unfolding load_string to_string
  load_string-to_string j into v old rest e d plain =
      let p = t.parse-print v plain in
      let (by_length, by_zero) = read-print r t v rest in
      (t.print v, ground (arith, e), ground (arith, by_length, d, p), ground (arith, by_zero, d, p))
