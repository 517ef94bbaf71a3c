-- ===== src/Json/Doc/Loaded.antt =====
-- LoadString and LoadFile.
use zpp_adapter.Prelude.{
  ℕ, Str, ◌≡◌, true, if◌then◌else◌, Option, none, some, Option-cases, ◌⊎◌, inl, inr, arith,
}
use zpp_adapter.Zsi.{Err, ok, param_invalid}
use zpp_adapter.Json.{Keys, Rapid, is_object}
use zpp_adapter.Json.Doc.{Texts, Held, parsed, read_bytes, load_string, load_file}

module _ {k : Keys} (r : Rapid k) (t : Texts r) where
  -- A document.
  abbrev pub document : r.Value → Held r
  document v = record { val = some v; doc = true }

  -- What a load leaves in place of `old`: it succeeds exactly where that is an object.
  abbrev pub Loads : Str → r.Value → Option (Err × Held r) → Type 0
  Loads s old result =
      ((w : r.Value) × (t.parse s ≡ some w)
        × (result ≡ some (if is_object (r.kind w) then ok else param_invalid, document w)))
      ⊎ ((t.parse s ≡ none)
          × (result ≡ some (if is_object (r.kind old) then ok else param_invalid, document old)))

  -- A document that a text is loaded into, from memory or from a file: a text that can be parsed is
  -- then its value, and the result is `ZEOK` exactly if that is an object. A text that cannot be parsed
  -- leaves the value in memory as it was, and the load still succeeds if that was an object; a file
  -- that cannot be parsed is never reported, and leaves an empty object.
  pub load_lem :
      (bytes s : Str) (len : ℕ) (v : r.Value)
      → read_bytes r t bytes len ≡ some s
      → Loads s v (load_string r t (some bytes) len (document v))
        × (((w : r.Value) × (t.parse s ≡ some w)
              × (load_file r t (some (some s)) (document v)
                  ≡ some (if is_object (r.kind w) then ok else param_invalid, document w)))
            ⊎ ((t.parse s ≡ none)
                × (load_file r t (some (some s)) (document v) ≡ some (ok, document r.object))))
  unfolding load_string load_file parsed
  load_lem bytes s len v e = elim (Option-cases (t.parse s)) [
    | inl p ↦ (inr (p, ground (arith, e, p)), inr (p, ground (arith, p, r.kind-object)))
    | inr (w, p) ↦ (inl (w, p, ground (arith, e, p)), inl (w, p, ground (arith, p)))
  ]
