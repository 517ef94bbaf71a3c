-- ===== src/Json/Doc/Saved.antt =====
-- What SaveString and SaveFile write is loaded again.
use zpp_adapter.Prelude.{Str, ◌≡◌, refl, ap, true, leb, some, [], ◌∷◌, ◌++◌, length, take, arith}
use zpp_adapter.Json.{Keys, Rapid}
use zpp_adapter.Json.Doc.{Texts, NonZero, c_string, read_bytes}

c_string-append : (s rest : Str) → NonZero s → c_string (s ++ (0 ∷ rest)) ≡ some s
unfolding c_string
c_string-append [] rest h = refl
c_string-append (c ∷ s) rest (h, hs) = ground (arith, h, c_string-append s rest hs)

take_all : (s rest : Str) → take (length s) (s ++ rest) ≡ s
take_all [] rest = refl
take_all (c ∷ s) rest = ap (λ t. c ∷ t) (take_all s rest)

leb-length : (s rest : Str) → leb (length s) (length (s ++ rest)) ≡ true
leb-length [] rest = ground arith
leb-length (c ∷ s) rest = ground (arith, leb-length s rest)

module _ {k : Keys} (r : Rapid k) (t : Texts r) where
  -- The text of a value is read back from memory, by its length or by the zero byte behind it.
  pub read-print :
      (v : r.Value) (rest : Str)
      → (read_bytes r t (t.print v ++ rest) (length (t.print v)) ≡ some (t.print v))
        × (read_bytes r t (t.print v ++ (0 ∷ rest)) 0 ≡ some (t.print v))
  unfolding read_bytes
  read-print v rest = (
    ground (arith, t.print_long v, leb-length (t.print v) rest, take_all (t.print v) rest),
    c_string-append (t.print v) rest (t.NonZero-print v),
  )
