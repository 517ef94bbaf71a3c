-- ===== src/Prelude/Lists.antt =====
-- Vectors and queues of the source as lists with native indices.
use Prim.Native.Nat.{ℕ, zero, suc, ◌+◌, ◌≤◌, ◌<◌}
use Prim.Native.String.{String}
use Prim.Native.Char.{code}
use mathlib.Core.Path.{◌≡◌, refl, sym, ap, subst}
use mathlib.Core.List.{List, [], ◌∷◌, ◌++◌}
use mathlib.Core.Option.{Option, none, some}
use native.Mathlib.Omega.{arith}

-- Strings are the lists of their bytes.
abbrev pub Str : Type 0
Str = List ℕ

-- The bytes of a text in ASCII.
abbrev pub codes : String → Str
codes String.[] = []
codes (String.◌∷◌ c s) = code c ∷ codes s

module _ {ℓ} {A : Type ℓ} where
  abbrev pub length : List A → ℕ
  length [] = 0
  length (x ∷ xs) = suc (length xs)

  abbrev pub get_elem? : List A → ℕ → Option A
  get_elem? [] i = none
  get_elem? (x ∷ xs) zero = some x
  get_elem? (x ∷ xs) (suc i) = get_elem? xs i

  -- A write out of bounds changes nothing.
  abbrev pub set : List A → ℕ → A → List A
  set [] i v = []
  set (x ∷ xs) zero v = v ∷ xs
  set (x ∷ xs) (suc i) v = x ∷ set xs i v

  abbrev pub take : ℕ → List A → List A
  take zero xs = []
  take (suc n) [] = []
  take (suc n) (x ∷ xs) = x ∷ take n xs

  abbrev pub drop : ℕ → List A → List A
  drop zero xs = xs
  drop (suc n) [] = []
  drop (suc n) (x ∷ xs) = drop n xs

  abbrev pub replicate : ℕ → A → List A
  replicate zero a = []
  replicate (suc n) a = a ∷ replicate n a

  pub length-append : (xs ys : List A) → length (xs ++ ys) ≡ length xs + length ys
  length-append [] ys = omega arith
  length-append (x ∷ xs) ys = omega (arith, length-append xs ys)

  pub length-set : (xs : List A) (i : ℕ) (v : A) → length (set xs i v) ≡ length xs
  length-set [] i v = refl
  length-set (x ∷ xs) zero v = refl
  length-set (x ∷ xs) (suc i) v = ap suc (length-set xs i v)

  pub length-replicate : (n : ℕ) (a : A) → length (replicate n a) ≡ n
  length-replicate zero a = refl
  length-replicate (suc n) a = ap suc (length-replicate n a)

  pub length-take : (n : ℕ) (xs : List A) → n ≤ length xs → length (take n xs) ≡ n
  length-take zero xs h = refl
  length-take (suc n) [] h = absurd (omega arith)
  length-take (suc n) (x ∷ xs) h = ap suc (length-take n xs (omega arith))

  pub take_more : (n : ℕ) (xs : List A) → take (suc n) xs ≡ take n xs ++ take 1 (drop n xs)
  take_more zero xs = refl
  take_more (suc n) [] = refl
  take_more (suc n) (x ∷ xs) = ap (λ r. x ∷ r) (take_more n xs)

  pub take-drop : (n : ℕ) (xs : List A) → take n xs ++ drop n xs ≡ xs
  take-drop zero xs = refl
  take-drop (suc n) [] = refl
  take-drop (suc n) (x ∷ xs) = ap (λ r. x ∷ r) (take-drop n xs)

  pub take_all : (n : ℕ) (xs : List A) → length xs ≤ n → (take n xs ≡ xs) × (drop n xs ≡ [])
  take_all zero [] h = (refl, refl)
  take_all zero (x ∷ xs) h = absurd (omega arith)
  take_all (suc n) [] h = (refl, refl)
  take_all (suc n) (x ∷ xs) h = let (t, d) = take_all n xs (omega arith) in (ap (λ r. x ∷ r) t, d)

  pub get_some : (xs : List A) (i : ℕ) → i < length xs → (x : A) × (get_elem? xs i ≡ some x)
  get_some [] i h = absurd (omega arith)
  get_some (x ∷ xs) zero h = (x, refl)
  get_some (x ∷ xs) (suc i) h = get_some xs i (omega arith)

  pub get_none : (xs : List A) (i : ℕ) → length xs ≤ i → get_elem? xs i ≡ none
  get_none [] i h = refl
  get_none (x ∷ xs) zero h = absurd (omega arith)
  get_none (x ∷ xs) (suc i) h = get_none xs i (omega arith)

  pub drop_get :
      (xs : List A) (i : ℕ) (x : A) → get_elem? xs i ≡ some x → drop i xs ≡ x ∷ drop (suc i) xs
  drop_get [] i x h = cc
  drop_get (y ∷ xs) zero x h = ground (arith, h)
  drop_get (y ∷ xs) (suc i) x h = drop_get xs i x h

  pub get_middle : (p : List A) (a : A) (q : List A) → get_elem? (p ++ (a ∷ q)) (length p) ≡ some a
  get_middle [] a q = refl
  get_middle (x ∷ p) a q = get_middle p a q

  pub set_middle :
      (p : List A) (a : A) (q : List A) (v : A) → set (p ++ (a ∷ q)) (length p) v ≡ p ++ (v ∷ q)
  set_middle [] a q v = refl
  set_middle (x ∷ p) a q v = ap (λ r. x ∷ r) (set_middle p a q v)

  pub get_at :
      (p : List A) (a : A) (q : List A) (i : ℕ) → i ≡ length p → get_elem? (p ++ (a ∷ q)) i ≡ some a
  get_at p a q i h = subst (λ n. get_elem? (p ++ (a ∷ q)) n ≡ some a) (sym h) (get_middle p a q)

  pub set_at :
      (p : List A) (a : A) (q : List A) (v : A) (i : ℕ)
      → i ≡ length p
      → set (p ++ (a ∷ q)) i v ≡ p ++ (v ∷ q)
  set_at p a q v i h =
      subst (λ n. set (p ++ (a ∷ q)) n v ≡ p ++ (v ∷ q)) (sym h) (set_middle p a q v)
