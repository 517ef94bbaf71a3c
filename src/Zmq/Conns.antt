-- ===== src/Zmq/Conns.antt =====
-- zpp/src/zmq.cpp, class Socket: connections and their bookkeeping, and reconnecting.
pub mod Distinct
pub mod Again
use zpp_adapter.Prelude.{
  Str, ℕ, zero, suc, ◌+◌, ◌≡◌, Bool, true, false, ◌==◌, ◌&&◌, if◌then◌else◌, Option, none, some,
  List, [], ◌∷◌, ◌++◌, length,
}
use zpp_adapter.Zsi.{Err, ok, fail, not_exist, mem_insufficient}

-- `compare` gives 0.
unfoldable pub same_str : Str → Str → Bool
same_str [] [] = true
same_str [] (c ∷ cs) = false
same_str (b ∷ bs) [] = false
same_str (b ∷ bs) (c ∷ cs) = (b == c) && same_str bs cs

-- libzmq's sockets as documented: `links` are the endpoints that a socket is connected to, in order.
pub record Sockets : Type 1 where
  pub Sock : Type 0
  pub links : Sock → List Str
  pub connect : Str → Sock → Bool × Sock
  pub disconnect : Str → Sock → Bool × Sock
  pub socket : ℕ → Option Sock
  pub set_linger : ℕ → Sock → Bool × Sock
  pub links-connect :
      (e : Str) (s : Sock) → (connect e s).0 ≡ true → links (connect e s).1 ≡ links s ++ (e ∷ [])
  pub links-socket : (type : ℕ) (s : Sock) → socket type ≡ some s → links s ≡ []
  pub links-set_linger : (n : ℕ) (s : Sock) → links (set_linger n s).1 ≡ links s

pub record ConnInfo : Type 0 where
  pub endp : Str
  pub id : Str
  pub stat : ℕ
  pub last_recv : ℕ

-- `ConnInfo(std::string ep)`; `now` is the time.
abbrev pub conn_info : Str → ℕ → ConnInfo
conn_info ep now = record { endp = ep; id = []; stat = 0; last_recv = now }

-- `if(id) cnn->id.assign(id, len)`; `none` is NULL.
abbrev pub with_id : Option Str → ConnInfo → ConnInfo
with_id none c = c
with_id (some i) c = record c { id = i }

-- The search of `Conn`.
unfoldable pub known : Str → List ConnInfo → Bool
known e [] = false
known e (c ∷ cs) = let rest = known e cs in if same_str c.endp e then true else rest

-- `room`: `new(std::nothrow)` succeeds.
unfoldable pub conn : Bool → ℕ → Str → Option Str → List ConnInfo → Err × List ConnInfo
conn room now endpoint id conns =
    if known endpoint conns
    then (ok, conns)
    else if room
    then (ok, conns ++ (with_id id (conn_info endpoint now) ∷ []))
    else (mem_insufficient, conns)

-- The result is never returned.
unfoldable pub disconn : Str → List ConnInfo → List ConnInfo
disconn endpoint [] = []
disconn endpoint (c ∷ cs) =
    let rest = disconn endpoint cs in if same_str c.endp endpoint then cs else c ∷ rest

-- `SetConnStat(int, void *id, int len)`.
pub set_stat_by_id : ℕ → Str → List ConnInfo → Err × List ConnInfo
set_stat_by_id stat id [] = (ok, [])
set_stat_by_id stat id (c ∷ cs) =
    let rest = set_stat_by_id stat id cs in
    if same_str c.id id then (ok, record c { stat = stat } ∷ cs) else (rest.0, c ∷ rest.1)

-- `SetConnStat(int, const char *endp)`.
pub set_stat_by_endp : ℕ → Str → List ConnInfo → Err × List ConnInfo
set_stat_by_endp stat endp [] = (not_exist, [])
set_stat_by_endp stat endp (c ∷ cs) =
    let rest = set_stat_by_endp stat endp cs in
    if same_str c.endp endp then (ok, record c { stat = stat } ∷ cs) else (rest.0, c ∷ rest.1)

-- `none` for `sock` is NULL.
pub record Socket (z : Sockets) : Type 0 where
  pub sock : Option z.Sock
  pub sock_type : ℕ
  pub conns : List ConnInfo

-- A call of libzmq on a NULL socket fails.
abbrev pub with_sock : {S : Type 0} → (S → Bool × S) → Option S → Bool × Option S
with_sock f none = (false, none)
with_sock f (some s) = let (b, s') = f s in (b, some s')

module _ {z : Sockets} where
  unfoldable pub connect : Bool → ℕ → Str → Option Str → Socket z → Err × Socket z
  connect room now endpoint id t =
      let (b, s) = with_sock (z.connect endpoint) t.sock in
      if b
      then (ok, record t { sock = s; conns = (conn room now endpoint id t.conns).1 })
      else (fail, record t { sock = s })

  pub disconnect : Str → Socket z → Err × Socket z
  disconnect endpoint t =
      let (b, s) = with_sock (z.disconnect endpoint) t.sock in
      if b
      then (ok, record t { sock = s; conns = disconn endpoint t.conns })
      else (fail, record t { sock = s })

  -- The loop of `Reconnect`, from the last connection to the first; `room` at each `Connect`.
  unfoldable pub connect_all : (ℕ → Bool) → ℕ → List ConnInfo → Socket z → Socket z
  connect_all room now [] t = t
  connect_all room now (c ∷ cs) t =
      let t' = connect_all room now cs t in (connect (room (length cs)) now c.endp none t').1

  -- The old socket is closed first, and no more used.
  pub reconnect : (ℕ → Bool) → ℕ → Socket z → Err × Socket z
  reconnect room now t = elim t.conns [
    | [] ↦ (ok, t)
    | c ∷ cs ↦ elim (z.socket t.sock_type) [
      | none ↦ (fail, record t { sock = none })
      | some s ↦
          (let t' = record t { sock = some (z.set_linger 0 s).1; conns = [] } in
            (ok, connect_all room now t.conns t'))
    ]
  ]
