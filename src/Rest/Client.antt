-- ===== src/Rest/Client.antt =====
-- zpp/src/rest.cpp and zpp/event2/rest.h, the client: its connection, the headers of a request, and the
-- events while it waits for the answer.
pub mod Headers
pub mod Answers
use zpp_adapter.Prelude.{
  ℕ, Str, ◌≡◌, ◌==◌, Bool, true, false, if◌then◌else◌, Option, none, some, List, [], ◌∷◌, ◌++◌,
  length, codes,
}
use zpp_adapter.Zsi.{Err, ok, exist, not_exist, mem_insufficient}
use zpp_adapter.Std.Assoc.{Same, look, drop_key}
use zpp_adapter.Rest.Serve.{Cmd}

-- `RestClient` as its connection, `none` for NULL: the address and the port.
abbrev pub Client : Type 0
Client = Option (Str × ℕ)

pub connect : Str → ℕ → Client → Err × Client
connect address port none = (ok, some (address, port))
connect address port (some c) = (exist, some c)

pub disconnect : Client → Err × Client
disconnect none = (not_exist, none)
disconnect (some c) = (ok, none)

-- The test by which libevent compares the names of headers.
abbrev pub Names : Type 0
Names = Same Str

-- As documented, `evhttp_find_header` is `look`, `evhttp_remove_header` `drop_key`, and
-- `evhttp_add_header` puts a header at the end.
abbrev pub Headers : Type 0
Headers = List (Str × Str)

-- `Request` in the client: what it holds itself, and behind `req` the headers and the output buffer;
-- `none` for NULL.
pub record Sending : Type 0 where
  pub headers : Headers
  pub out : Str

pub record Request : Type 0 where
  pub req : Option Sending
  pub cmd : Cmd
  pub uri : Str
  pub request : Str
  pub errcode : ℕ
  pub reason : Str
  pub response : Str

-- What the event loop reports: the headers of the answer, a part of its body with the code and the line
-- of the answer, an error, and the end.
pub data Event : Type 0 where
  header error done : Event
  chunk : Str → ℕ → Str → Event

-- `AddOutBuffer`; `none` is a call on NULL.
pub add_out_buffer : Str → Request → Option (Err × Request)
add_out_buffer text q = if length text == 0 then some (not_exist, q) else elim q.req [
  | none ↦ none
  | some s ↦ some (ok, record q { req = some (record s { out = s.out ++ text }) })
]

-- The headers that `DispatchJson` sets, in its order.
abbrev pub fixed_headers : Headers
fixed_headers =
    (codes "Host", codes "192.168.1.112:8280")
    ∷ ((codes "Content-Type", codes "application/json")
        ∷ ((codes "cache-control", codes "no-cache")
            ∷ ((codes "User-Agent", codes "zpp/restful")
                ∷ ((codes "Accept", codes "application/json")
                    ∷ ((codes "Connection", codes "keep-alive") ∷ [])))))

-- `chunked_cb`: the body is what has arrived last.
pub chunked : Str → ℕ → Str → Request → Request
chunked body code line q =
    let q' = record q { errcode = code; reason = line } in
    if length body == 0 then q' else record q' { response = body }

-- `event_base_dispatch` with the callbacks: `done_cb` breaks the loop.
pub run_events : List Event → Request → Request
run_events [] q = q
run_events (header ∷ es) q = run_events es q
run_events (error ∷ es) q = run_events es q
run_events (done ∷ es) q = q
run_events (chunk body code line ∷ es) q = run_events es (chunked body code line q)

module _ (n : Names) where
  -- `AddHeader` where `req` is there.
  pub with_header : Str → Str → Headers → Headers
  with_header key value h = elim (look n key h) [
    | none ↦ h ++ ((key, value) ∷ [])
    | some _ ↦ drop_key n key h ++ ((key, value) ∷ [])
  ]

  -- `AddHeader`: without `req` a new one is made first.
  pub add_header : Str → Str → Request → Request
  add_header key value q = elim q.req [
    | none ↦ record q { req = some (record { headers = with_header key value []; out = [] }) }
    | some s ↦ record q { req = some (record s { headers = with_header key value s.headers }) }
  ]

  pub add_headers : Headers → Request → Request
  add_headers [] q = q
  add_headers ((key, value) ∷ h) q = add_headers h (add_header key value q)

  -- The request when the loop begins.
  pub prepared : Request → Option Request
  prepared q = elim (add_out_buffer q.request (add_headers fixed_headers q)) [
    | none ↦ none
    | some (_, q') ↦ some q'
  ]

  -- `DispatchJson`: `can_make` is that a new request can be had, `accepted` the result of
  -- `evhttp_make_request`, which frees the request where it fails. `none` is an access to what is freed,
  -- or a call with no connection.
  pub dispatch_json :
      Client → Cmd → (can_make accepted : Bool) → List Event → Request → Option (Err × Request)
  dispatch_json client cmd can_make accepted events q =
      let begun = record q { cmd = cmd } in
      let call : Request → Option (Err × Request) = λ q. elim client [
        | none ↦ none
        | some _ ↦
            (if accepted
              then elim (prepared q) [
                | none ↦ none
                | some q' ↦ some (ok, record (run_events events q') { req = none })
              ]
              else none)
      ] in
      elim q.req [
        | some _ ↦ call begun
        | none ↦
            (if can_make
              then call (record begun { req = some (record { headers = []; out = [] }) })
              else some (mem_insufficient, begun))
      ]
