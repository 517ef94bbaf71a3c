-- ===== src/Rest.antt =====
-- zpp/event2/rest.h and zpp/src/rest.cpp: which resource a request is for, and the life of the server
-- and of the client's connection.
pub mod Path
pub mod Serve
pub mod Client
mod Tests
use zpp_adapter.Prelude.{
  Str, ℕ, zero, suc, ◌==◌, ltb, Bool, true, false, if◌then◌else◌, Option, none, some, List, [], ◌∷◌,
  length, get_elem?, ℤ, pos, negsuc,
}
use zpp_adapter.Zsi.{Err, ok, exist, not_exist}

-- The loops of `IsResource`: the first `n` bytes are the same.
pub same_upto : ℕ → Str → Str → Bool
same_upto zero uri path = true
same_upto (suc n) [] path = false
same_upto (suc n) (b ∷ uri) [] = false
same_upto (suc n) (b ∷ uri) (c ∷ path) =
    let rest = same_upto n uri path in if b == c then rest else false

-- 47 is `/`.
pub is_resource : Str → Str → ℤ
is_resource uri path =
    let uri_len = length uri in
    let path_len = length path in
    if ltb uri_len path_len
    then negsuc 0
    else if uri_len == path_len
    then (if same_upto uri_len uri path then pos 0 else negsuc 0)
    else if same_upto path_len uri path
    then elim (get_elem? uri path_len) [ none ↦ pos 0 | some c ↦ if c == 47 then pos 1 else pos 0 ]
    else negsuc 0

-- `RestServer`, without the handles of libevent.
pub record Server : Type 0 where
  pub port : ℕ
  pub is_run : Bool

-- `started` is the result of `zthread_create`.
pub run : Err → ℕ → Server → Err × Server
run started port s =
    if s.is_run then (exist, s) else (started, record s { port = port; is_run = true })

-- What `Stop` asks for: the port it connects to and the path that it sends DELETE for.
pub record Request : Type 0 where
  pub port : ℕ
  pub uri : Str

-- `/api`.
abbrev pub api : Str
api = 47 ∷ 97 ∷ 112 ∷ 105 ∷ []

-- `joined` is the result of `zthread_join`.
pub stop : Err → Server → Err × Option Request × Server
stop joined s =
    if s.is_run
    then (joined, some (record { port = 8989; uri = api }), record s { is_run = false })
    else (not_exist, none, s)
