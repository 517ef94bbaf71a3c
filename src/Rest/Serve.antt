-- ===== src/Rest/Serve.antt =====
-- zpp/event2/rest.h and zpp/src/rest.cpp: what the server reads of a request and what it answers.
-- What libevent sends is a list of answers.
pub mod Once
pub mod Parsed
use zpp_adapter.Prelude.{
  ℕ, Str, ◌==◌, Bool, true, false, if◌then◌else◌, Option, none, some, List, [], ◌∷◌, ◌++◌, length,
  take, replicate, ℤ, pos, negsuc,
}
use zpp_adapter.Std.Order.{KeyOrder}
use zpp_adapter.Std.Map.{Map, assign}
use zpp_adapter.Zsi.{Err, ok, fail, is_ok, not_support}
use zpp_adapter.Rest.{is_resource}

-- `evhttp_cmd_type`, as far as it is asked for.
pub data Cmd : Type 0 where
  get post put delete other : Cmd

-- `Request` in the server; `has_req` is that `req` is not NULL.
pub record Query : Type 0 where
  pub has_req : Bool
  pub cmd : Cmd
  pub uri : Str
  pub query : Map Str Str
  pub request : Str

-- What libevent knows of a request: `none` for a query that it cannot parse, the data that has
-- arrived, and whether it can be copied out.
pub record Incoming : Type 0 where
  pub cmd : Cmd
  pub uri : Str
  pub pairs : Option (List (Str × Str))
  pub body : Str
  pub can_copy : Bool

-- `query[key] = value` for each pair.
pub assign_all : KeyOrder Str → List (Str × Str) → Map Str Str → Map Str Str
assign_all o [] m = m
assign_all o ((key, value) ∷ kv) m = assign_all o kv (assign o key value m)

-- The query is left as it is where it cannot be parsed.
unfoldable pub merge_query : KeyOrder Str → Option (List (Str × Str)) → Map Str Str → Map Str Str
unfolding assign_all
merge_query o none m = m
merge_query o (some kv) m = assign_all o kv m

-- `ParseReq`. A body that cannot be copied leaves as many zero bytes, or cuts off what was there.
unfoldable pub parse_req : KeyOrder Str → Incoming → Query → Err × Query
parse_req o i q =
    let parsed = record q { cmd = i.cmd; uri = i.uri; query = merge_query o i.pairs q.query } in
    let len = length i.body in
    if len == 0
    then (ok, parsed)
    else if i.can_copy
    then (ok, record parsed { request = i.body })
    else (fail, record parsed { request = take len (q.request ++ replicate len 0) })

-- The status and the text of `evhttp_send_reply`, or the status of `evhttp_send_error`.
pub data Answer : Type 0 where
  reply : ℕ → Str → Answer
  error : ℕ → Answer

pub send_error : ℕ → Query → Err × List Answer
send_error code q = if q.has_req then (ok, error code ∷ []) else (not_support, [])

-- 200 is `HTTP_OK`.
unfoldable pub send_ok : Str → Query → Err × List Answer
send_ok text q = if q.has_req then (ok, reply 200 text ∷ []) else (not_support, [])

-- `SendReply`, with the header for JSON left to libevent.
pub send_reply : ℕ → Str → Query → Err × List Answer
send_reply code text q = if q.has_req then (ok, reply code text ∷ []) else (not_support, [])

-- `query ok: `, `create :`, `update ok:`, `delete ok:` and `default ok`.
abbrev pub texts : Cmd → Str
texts get = 113 ∷ 117 ∷ 101 ∷ 114 ∷ 121 ∷ 32 ∷ 111 ∷ 107 ∷ 58 ∷ 32 ∷ []
texts post = 99 ∷ 114 ∷ 101 ∷ 97 ∷ 116 ∷ 101 ∷ 32 ∷ 58 ∷ []
texts put = 117 ∷ 112 ∷ 100 ∷ 97 ∷ 116 ∷ 101 ∷ 32 ∷ 111 ∷ 107 ∷ 58 ∷ []
texts delete = 100 ∷ 101 ∷ 108 ∷ 101 ∷ 116 ∷ 101 ∷ 32 ∷ 111 ∷ 107 ∷ 58 ∷ []
texts other = 100 ∷ 101 ∷ 102 ∷ 97 ∷ 117 ∷ 108 ∷ 116 ∷ 32 ∷ 111 ∷ 107 ∷ []

-- What `OnApiTest` puts behind the text.
abbrev pub subject : Query → Str
subject q = elim q.cmd [ post ↦ q.request | other ↦ [] | _ ↦ q.uri ]

unfoldable pub on_api_test : Query → Err × List Answer
unfolding send_ok
on_api_test q = send_ok (texts q.cmd ++ subject q) q

-- `/api/v1/test`.
abbrev pub test_path : Str
test_path = 47 ∷ 97 ∷ 112 ∷ 105 ∷ 47 ∷ 118 ∷ 49 ∷ 47 ∷ 116 ∷ 101 ∷ 115 ∷ 116 ∷ []

abbrev pub is_zero : ℤ → Bool
is_zero (pos n) = n == 0
is_zero (negsuc _) = false

-- 501 is `HTTP_NOTIMPLEMENTED`.
unfoldable pub on_api_general : Query → Err × List Answer
unfolding send_error on_api_test
on_api_general q = if is_zero (is_resource q.uri test_path) then on_api_test q else send_error 501 q

-- `rest_gencb`, after `ParseReq`; 500 is `HTTP_INTERNAL`. `api` is the virtual `OnApiGeneral`.
unfoldable pub rest_gencb : (Query → Err × List Answer) → Query → List Answer
unfolding send_error
rest_gencb api q =
    let (ret, sent) = api q in if is_ok ret then sent else sent ++ (send_error 500 q).1

-- A new `Request` for what has arrived; its `cmd` and `uri` are not set before `ParseReq`.
abbrev pub arrived : Incoming → Query
arrived i = record { has_req = true; cmd = i.cmd; uri = []; query = []; request = [] }

-- The whole callback; the result of `ParseReq` is not looked at.
unfoldable pub serve : KeyOrder Str → (Query → Err × List Answer) → Incoming → List Answer
serve o api i = rest_gencb api (parse_req o i (arrived i)).1
