-- ===== src/Json/Small.antt =====
-- A small rapidjson: tagged numbers, arrays, and objects with numbers for keys.
use zpp_adapter.Prelude.{
  ◌++◌, ◌≢◌, ap, ℕ, suc, ◌+◌, ◌≤◌, ◌≡◌, refl, Bool, true, false, ◌==◌, if◌then◌else◌, Option, none,
  some, List, [], ◌∷◌, map, arith,
}
use zpp_adapter.Json.{
  Keys, Rapid, Scalar, Below, ValueType, val_object, val_array, val_number, val_string, val_true,
  val_false, val_null,
}

-- An object or array is a chain of its parts.
pub data Val : Type 0 where
  scalar : ℕ → ℕ → Val
  obj_end arr_end : Val
  obj_more : ℕ → Val → Val → Val
  arr_more : Val → Val → Val

abbrev pub kind : Val → ValueType
kind (scalar tag x) =
    if tag == 4
    then val_string
    else if tag == 6
    then (if x == 0 then val_false else val_true)
    else if tag == 7
    then val_null
    else val_number
kind obj_end = val_object
kind (obj_more _ _ _) = val_object
kind arr_end = val_array
kind (arr_more _ _) = val_array

abbrev pub members : Val → List (ℕ × Val)
members (obj_more k v o) = (k, v) ∷ members o
members _ = []

abbrev pub elements : Val → List Val
elements (arr_more v a) = v ∷ elements a
elements _ = []

abbrev pub rank : Val → ℕ
rank (obj_more k v o) = suc (rank v + rank o)
rank (arr_more v a) = suc (rank v + rank a)
rank _ = 0

abbrev pub find : ℕ → Val → Option Val
find j (obj_more k v o) = let rest = find j o in if k == j then some v else rest
find j _ = none

abbrev pub put : ℕ → Val → Val → Val
put j x (obj_more k v o) =
    let rest = put j x o in if k == j then obj_more k x o else obj_more k v rest
put j x o = o

abbrev pub add : ℕ → Val → Val → Val
add j x (obj_more k v o) = obj_more k v (add j x o)
add j x _ = obj_more j x obj_end

-- What is left of an object is an object.
abbrev pub close : Val → Val
close (obj_more k v o) = obj_more k v o
close _ = obj_end

abbrev pub erase : ℕ → Val → Val
erase j (obj_more k v o) = let rest = erase j o in if k == j then close o else obj_more k v rest
erase j o = o

pub same_lem : (i : ℕ) → (i == i) ≡ true
same_lem i = ground arith

abbrev pub typed : ℕ → Scalar Val
typed tag = record {
  T = ℕ;
  is = is tag;
  get = get;
  make = scalar tag;
  is-make = λ x. same_lem tag;
  get-make = λ x. refl;
}
  where
    is : ℕ → Val → Bool
    is tag (scalar t x) = t == tag
    is tag _ = false

    get : Val → ℕ
    get (scalar t x) = x
    get _ = 0

weaken : (m n : ℕ) (vs : List Val) → m ≤ n → Below rank m vs → Below rank n vs
weaken m n [] le b = tt
weaken m n (v ∷ vs) le b = (omega (arith, b.0), weaken m n vs le b.1)

pub rank-elements : (v : Val) → Below rank (rank v) (elements v)
rank-elements (arr_more v a) =
    (omega arith, weaken (rank a) _ (elements a) (omega arith) (rank-elements a))
rank-elements (scalar _ _) = tt
rank-elements obj_end = tt
rank-elements arr_end = tt
rank-elements (obj_more _ _ _) = tt

pub rank-members : (v : Val) → Below rank (rank v) (map (λ m. m.1) (members v))
rank-members (obj_more k v o) = (omega arith, weaken (rank o) _ _ (omega arith) (rank-members o))
rank-members (scalar _ _) = tt
rank-members obj_end = tt
rank-members arr_end = tt
rank-members (arr_more _ _) = tt

pub find-put :
    (i j : ℕ) (x o old : Val)
    → find j o ≡ some old
    → find i (put j x o) ≡ (if j == i then some x else find i o)
find-put i j x (obj_more k v o) old e = ground (arith, find-put i j x o old, e)
find-put i j x (scalar _ _) old e = cc
find-put i j x obj_end old e = cc
find-put i j x arr_end old e = cc
find-put i j x (arr_more _ _) old e = cc

pub find-add :
    (i j : ℕ) (x o : Val)
    → find j o ≡ none
    → find i (add j x o) ≡ (if j == i then some x else find i o)
find-add i j x (obj_more k v o) e = ground (arith, find-add i j x o, e)
find-add i j x (scalar _ _) e = refl
find-add i j x obj_end e = refl
find-add i j x arr_end e = refl
find-add i j x (arr_more _ _) e = refl

pub object-put : (j : ℕ) (x o : Val) → kind o ≡ val_object → kind (put j x o) ≡ val_object
object-put j x (obj_more k v o) e = ground arith
object-put j x (scalar _ _) e = e
object-put j x obj_end e = e
object-put j x arr_end e = e
object-put j x (arr_more _ _) e = e

close_object : (o : Val) → kind (close o) ≡ val_object
close_object (obj_more k v o) = refl
close_object (scalar _ _) = refl
close_object obj_end = refl
close_object arr_end = refl
close_object (arr_more _ _) = refl

pub object-erase : (j : ℕ) (o : Val) → kind o ≡ val_object → kind (erase j o) ≡ val_object
object-erase j (obj_more k v o) e = ground (arith, close_object o)
object-erase j (scalar _ _) e = e
object-erase j obj_end e = e
object-erase j arr_end e = e
object-erase j (arr_more _ _) e = e

pub object-add : (j : ℕ) (x o : Val) → kind o ≡ val_object → kind (add j x o) ≡ val_object
object-add j x (obj_more k v o) e = refl
object-add j x (scalar _ _) e = refl
object-add j x obj_end e = refl
object-add j x arr_end e = refl
object-add j x (arr_more _ _) e = refl

-- The end of an array is its last part.
abbrev pub push : Val → Val → Val
push x (arr_more v a) = arr_more v (push x a)
push x _ = arr_more x arr_end

scalar_object : (tag x : ℕ) → kind (scalar tag x) ≢ val_object
scalar_object tag x e = ground arith

scalar_array : (tag x : ℕ) → kind (scalar tag x) ≢ val_array
scalar_array tag x e = ground arith

pub members-add :
    (j : ℕ) (x o : Val) → kind o ≡ val_object → members (add j x o) ≡ members o ++ ((j, x) ∷ [])
members-add j x (obj_more k v o) e = ap (λ ms. (k, v) ∷ ms) (added o)
  where
    added : (o : Val) → members (add j x o) ≡ members o ++ ((j, x) ∷ [])
    added (obj_more k v o) = ap (λ ms. (k, v) ∷ ms) (added o)
    added (scalar _ _) = refl
    added obj_end = refl
    added arr_end = refl
    added (arr_more _ _) = refl
members-add j x (scalar tag y) e = absurd (scalar_object tag y e)
members-add j x obj_end e = refl
members-add j x arr_end e = cc
members-add j x (arr_more _ _) e = cc

pub elements-push : (x a : Val) → elements (push x a) ≡ elements a ++ (x ∷ [])
elements-push x (arr_more v a) = ap (λ vs. v ∷ vs) (elements-push x a)
elements-push x (scalar tag y) = refl
elements-push x arr_end = refl
elements-push x obj_end = refl
elements-push x (obj_more _ _ _) = refl

pub array-push : (x a : Val) → kind (push x a) ≡ val_array
array-push x (arr_more v a) = refl
array-push x (scalar tag y) = refl
array-push x arr_end = refl
array-push x obj_end = refl
array-push x (obj_more _ _ _) = refl

abbrev pub of_bool : Bool → ℕ
of_bool true = 1
of_bool false = 0

pub kind-bool : (b : Bool) → kind (scalar 6 (of_bool b)) ≡ (if b then val_true else val_false)
kind-bool true = refl
kind-bool false = refl

abbrev pub numbers : Keys
numbers = record { Key = ℕ; same = ◌==◌ }

abbrev pub small : Rapid numbers
small = record {
  Value = Val;
  kind = kind;
  members = members;
  elements = elements;
  find = find;
  put = put;
  add = add;
  erase = erase;
  int = typed 0;
  uint = typed 1;
  int64 = typed 2;
  uint64 = typed 3;
  string = typed 4;
  double = typed 5;
  bool = typed 6;
  of_bool = of_bool;
  object = obj_end;
  array = arr_end;
  push = push;
  rank = rank;
  rank-elements = rank-elements;
  rank-members = rank-members;
  find-put = find-put;
  find-add = λ i j x o k e. find-add i j x o e;
  members-add = members-add;
  elements-push = λ x a e. elements-push x a;
  array-push = λ x a e. array-push x a;
  kind-object = refl;
  members-object = refl;
  find-object = λ j. refl;
  kind-array = refl;
  elements-array = refl;
  kind-int = λ x. refl;
  kind-uint = λ x. refl;
  kind-int64 = λ x. refl;
  kind-uint64 = λ x. refl;
  kind-double = λ x. refl;
  kind-string = λ x. refl;
  kind-bool = kind-bool;
  object-put = object-put;
  object-erase = object-erase;
  object-add = object-add;
}
