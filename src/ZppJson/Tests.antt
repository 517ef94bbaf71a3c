-- ===== src/ZppJson/Tests.antt =====
-- The class json at concrete inputs, on the small rapidjson.
use zpp_adapter.Prelude.{ℕ, ◌==◌, ◌≡◌, refl, none, some, arith}
use zpp_adapter.Std.Assoc.{Same, look, drop_key}
use zpp_adapter.Json.Small.{
  Val, scalar, obj_end, obj_more, arr_end, arr_more, members, find, erase, close, small, same_lem,
}
use zpp_adapter.ZppJson.{Ordered, ZppJson, at_v, at_doc}

abbrev same : Same ℕ
same = record {
  same = ◌==◌;
  refl = same_lem;
  sym = λ a b. ground arith;
  trans = λ a b c e. ground (arith, e);
}

find-members : (i : ℕ) (o : Val) → find i o ≡ look same i (members o)
unfolding look
find-members i (obj_more k v o) = ground (arith, find-members i o)
find-members i (scalar _ _) = refl
find-members i obj_end = refl
find-members i arr_end = refl
find-members i (arr_more _ _) = refl

members-close : (o : Val) → members (close o) ≡ members o
members-close (obj_more k v o) = refl
members-close (scalar _ _) = refl
members-close obj_end = refl
members-close arr_end = refl
members-close (arr_more _ _) = refl

members-erase : (i : ℕ) (o : Val) → members (erase i o) ≡ drop_key same i (members o)
unfolding drop_key
members-erase i (obj_more k v o) = ground (arith, members-erase i o, members-close o)
members-erase i (scalar _ _) = refl
members-erase i obj_end = refl
members-erase i arr_end = refl
members-erase i (arr_more _ _) = refl

abbrev ordered : Ordered small
ordered = record {
  keys = same;
  null = scalar 7 0;
  kind-null = refl;
  find-members = λ i o e. find-members i o;
  members-erase = λ i o e. members-erase i o;
}

-- Key 1 holds a string, and key 2 an array.
abbrev two : Val
two = obj_more 1 (scalar 4 5) (obj_more 2 (arr_more (scalar 0 6) arr_end) obj_end)

abbrev doc_of : Val → ZppJson small ordered
doc_of v = record { doc = some v; v = scalar 7 0; pv = at_doc }

abbrev part : Val → ZppJson small ordered
part v = record { doc = none; v = v; pv = at_v }
