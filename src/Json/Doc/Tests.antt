-- ===== src/Json/Doc/Tests.antt =====
-- Documents at concrete inputs: objects of scalars, with a text of their own.
use zpp_adapter.Prelude.{
  suc, Str, ◌==◌, ◌≡◌, refl, Bool, true, false, if◌then◌else◌, Option, none, some, ◌⊎◌, [], ◌∷◌,
  length, arith,
}
use zpp_adapter.Zsi.{ok, param_invalid}
use zpp_adapter.Json.{is_object}
use zpp_adapter.Json.Small.{Val, scalar, obj_end, obj_more, arr_end, arr_more, small, kind}
use zpp_adapter.Json.Doc.{Texts, NonZero, read_bytes, load_string, load_file, c_string}
use zpp_adapter.Json.Doc.Loaded.{document, Loads, load_lem}

abbrev print : Val → Str
print (obj_more k (scalar tag x) o) = 4 ∷ (suc k ∷ (suc tag ∷ (suc x ∷ print o)))
print obj_end = 2 ∷ []
print _ = 3 ∷ []

abbrev parse : Str → Option Val
parse (c ∷ []) = if c == 2 then some obj_end else none
parse (c ∷ (suc k ∷ (suc tag ∷ (suc x ∷ s)))) =
    let rest = parse s in
    if c == 4 then elim rest [ none ↦ none | some o ↦ some (obj_more k (scalar tag x) o) ] else none
parse _ = none

abbrev is_flat : Val → Bool
is_flat (obj_more k (scalar tag x) o) = is_flat o
is_flat obj_end = true
is_flat _ = false

parse-print : (v : Val) → is_flat v ≡ true → parse (print v) ≡ some v
parse-print (obj_more k (scalar tag x) o) e = ground (arith, parse-print o e)
parse-print (obj_more k obj_end o) e = cc
parse-print (obj_more k arr_end o) e = cc
parse-print (obj_more k (obj_more _ _ _) o) e = cc
parse-print (obj_more k (arr_more _ _) o) e = cc
parse-print obj_end e = refl
parse-print arr_end e = cc
parse-print (scalar _ _) e = cc
parse-print (arr_more _ _) e = cc

print_long : (v : Val) → (length (print v) == 0) ≡ false
print_long (obj_more k (scalar tag x) o) = ground arith
print_long (obj_more k obj_end o) = refl
print_long (obj_more k arr_end o) = refl
print_long (obj_more k (obj_more _ _ _) o) = refl
print_long (obj_more k (arr_more _ _) o) = refl
print_long obj_end = refl
print_long arr_end = refl
print_long (scalar _ _) = refl
print_long (arr_more _ _) = refl

NonZero-print : (v : Val) → NonZero (print v)
NonZero-print (obj_more k (scalar tag x) o) =
    (refl, (ground arith, (ground arith, (ground arith, NonZero-print o))))
NonZero-print (obj_more k obj_end o) = (refl, tt)
NonZero-print (obj_more k arr_end o) = (refl, tt)
NonZero-print (obj_more k (obj_more _ _ _) o) = (refl, tt)
NonZero-print (obj_more k (arr_more _ _) o) = (refl, tt)
NonZero-print obj_end = (refl, tt)
NonZero-print arr_end = (refl, tt)
NonZero-print (scalar _ _) = (refl, tt)
NonZero-print (arr_more _ _) = (refl, tt)

abbrev flat : Texts small
flat = record {
  parse = parse;
  print = print;
  pretty = print;
  is_plain = is_flat;
  parse-print = parse-print;
  parse-pretty = parse-print;
  print_long = print_long;
  NonZero-print = NonZero-print;
}

abbrev one : Val
one = obj_more 1 (scalar 0 5) obj_end

-- A text that cannot be parsed, for a document that holds an object.
load_lem_example :
    Loads small flat
      (7 ∷ [])
      one
      (load_string small flat (some (7 ∷ (0 ∷ []))) 0 (document small flat one))
    × (((w : Val) × (parse (7 ∷ []) ≡ some w)
          × (load_file small flat (some (some (7 ∷ []))) (document small flat one)
              ≡ some (if is_object (kind w) then ok else param_invalid, document small flat w)))
        ⊎ ((parse (7 ∷ []) ≡ none)
            × (load_file small flat (some (some (7 ∷ []))) (document small flat one)
                ≡ some (ok, document small flat obj_end))))
unfolding read_bytes c_string
load_lem_example = load_lem small flat (7 ∷ (0 ∷ [])) (7 ∷ []) 0 one refl
