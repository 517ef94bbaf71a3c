-- ===== src/Rest/Serve/Parsed.antt =====
-- ParseReq: the parts of the request that has arrived.
use zpp_adapter.Prelude.{
  ◌≡◌, ◌⊎◌, inl, inr, ◌||◌, Bool-cases, refl, ap, ◌∙◌, ◌==◌, if◌then◌else◌, Option, none, some,
  List, [], ◌∷◌, Str, length, arith,
}
use zpp_adapter.Std.Order.{KeyOrder}
use zpp_adapter.Std.Map.{Map, find, find-assign}
use zpp_adapter.Zsi.{ok, fail}
use zpp_adapter.Rest.Serve.{Query, Incoming, assign_all, merge_query, parse_req}

-- The value of the last pair with the key, and else `old`.
pub last_value : KeyOrder Str → Str → List (Str × Str) → Option Str → Option Str
last_value o key [] old = old
last_value o key ((j, v) ∷ kv) old = last_value o key kv (if o.eq j key then some v else old)

find-assign_all :
    (o : KeyOrder Str) (key : Str) (kv : List (Str × Str)) (m : Map Str Str)
    → find o key (assign_all o kv m) ≡ last_value o key kv (find o key m)
unfolding assign_all last_value
find-assign_all o key [] m = refl
find-assign_all o key ((j, v) ∷ kv) m =
    find-assign_all o key kv _ ∙ ap (last_value o key kv) (find-assign o key j v m)

find-merge_query :
    (o : KeyOrder Str) (key : Str) (pairs : Option (List (Str × Str))) (m : Map Str Str)
    → find o key (merge_query o pairs m)
      ≡ elim pairs [ none ↦ find o key m | some kv ↦ last_value o key kv (find o key m) ]
unfolding merge_query
find-merge_query o key none m = refl
find-merge_query o key (some kv) m = find-assign_all o key kv m

-- `ParseReq` takes the command and the uri; each key of the query then has the value of its last pair,
-- and keys without one keep what they had, as all do where the query cannot be parsed; a body that has
-- arrived and can be copied is the request's text, an empty one leaves it, and the result is an error
-- exactly where there is a body that cannot be copied.
pub parse_req_lem :
    (o : KeyOrder Str) (i : Incoming) (q : Query) (key : Str)
    → let (ret, q') = parse_req o i q in
      (q'.cmd ≡ i.cmd)
      × (q'.uri ≡ i.uri)
      × (q'.has_req ≡ q.has_req)
      × (find o key q'.query ≡ elim i.pairs [
        | none ↦ find o key q.query
        | some kv ↦ last_value o key kv (find o key q.query)
      ])
      × (ret ≡ (if (length i.body == 0) || i.can_copy then ok else fail))
      × ((ret ≡ fail) ⊎ (q'.request ≡ (if length i.body == 0 then q.request else i.body)))
unfolding parse_req
parse_req_lem o i q key =
    let same : (parse_req o i q).1.query ≡ merge_query o i.pairs q.query = ground arith in
    (
      ground arith,
      ground arith,
      ground arith,
      ap (find o key) same ∙ find-merge_query o key i.pairs q.query,
      ground arith,
      elim (Bool-cases ((length i.body == 0) || i.can_copy)) [
        | inl e ↦ inr (ground (arith, e))
        | inr e ↦ inl (ground (arith, e))
      ],
    )
