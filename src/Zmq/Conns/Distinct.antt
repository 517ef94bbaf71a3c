-- ===== src/Zmq/Conns/Distinct.antt =====
-- The connection list of a Socket: one entry for an endpoint, and what the calls do to it.
use zpp_adapter.Prelude.{
  ℕ, ◌≡◌, ◌↔◌, refl, Bool, true, false, ◌&&◌, if◌then◌else◌, Option, none, some, List, [], ◌∷◌,
  ◌++◌, arith,
}
use zpp_adapter.Zsi.{ok, not_exist, mem_insufficient}
use zpp_adapter.Prelude.{Str}
use zpp_adapter.Zmq.Conns.{
  same_str, Sockets, ConnInfo, conn_info, known, conn, disconn, set_stat_by_id, set_stat_by_endp,
  Socket, connect, disconnect,
}

pub same_str_iff : (a b : Str) → (same_str a b ≡ true) ↔ (a ≡ b)
unfolding same_str
same_str_iff [] [] = ground arith
same_str_iff [] (c ∷ cs) = ground arith
same_str_iff (b ∷ bs) [] = ground arith
same_str_iff (b ∷ bs) (c ∷ cs) = ground (arith, same_str_iff bs cs)

-- No endpoint occurs twice.
abbrev pub IsDistinct : List ConnInfo → Type 0
IsDistinct [] = Unit {0}
IsDistinct (c ∷ cs) = (known c.endp cs ≡ false) × IsDistinct cs

pub known-snoc :
    (e : Str) (cs : List ConnInfo) (c : ConnInfo)
    → known e (cs ++ (c ∷ [])) ≡ (if known e cs then true else same_str c.endp e)
unfolding known
known-snoc e [] c = ground arith
known-snoc e (d ∷ cs) c = ground (arith, known-snoc e cs c)

IsDistinct-snoc :
    (cs : List ConnInfo) (c : ConnInfo)
    → IsDistinct cs
    → known c.endp cs ≡ false
    → IsDistinct (cs ++ (c ∷ []))
unfolding known
IsDistinct-snoc [] c h k = (refl, tt)
IsDistinct-snoc (d ∷ cs) c h k = (
  ground (
    arith,
    k,
    h.0,
    known-snoc d.endp cs c,
    same_str_iff c.endp d.endp,
    same_str_iff d.endp c.endp,
  ),
  IsDistinct-snoc cs c h.1 (ground (arith, k)),
)

conn-IsDistinct :
    (room : Bool) (now : ℕ) (e : Str) (id : Option Str) (cs : List ConnInfo)
    → IsDistinct cs
    → IsDistinct (conn room now e id cs).1
unfolding conn
conn-IsDistinct room now e none cs h = ground (arith, h, IsDistinct-snoc cs (conn_info e now) h)
conn-IsDistinct room now e (some i) cs h =
    ground (arith, h, IsDistinct-snoc cs (record (conn_info e now) { id = i }) h)

disconn_keeps_unknown :
    (e f : Str) (cs : List ConnInfo) → known f cs ≡ false → known f (disconn e cs) ≡ false
unfolding known disconn
disconn_keeps_unknown e f [] h = refl
disconn_keeps_unknown e f (c ∷ cs) h = ground (arith, h, disconn_keeps_unknown e f cs)

disconn-IsDistinct : (e : Str) (cs : List ConnInfo) → IsDistinct cs → IsDistinct (disconn e cs)
unfolding disconn
disconn-IsDistinct e [] h = tt
disconn-IsDistinct e (c ∷ cs) h =
    ground (arith, disconn-IsDistinct e cs h.1, disconn_keeps_unknown e c.endp cs h.0)

module _ {z : Sockets} where
  -- `Connect` and `Disconnect`, whatever libzmq answers and whether or not there is memory, keep one
  -- entry for an endpoint.
  pub calls-IsDistinct :
      (room : Bool) (now : ℕ) (e : Str) (id : Option Str) (t : Socket z)
      → IsDistinct t.conns
      → IsDistinct (connect room now e id t).1.conns × IsDistinct (disconnect e t).1.conns
  unfolding connect disconnect
  calls-IsDistinct room now e id t h =
      ground (arith, h, conn-IsDistinct room now e id t.conns h, disconn-IsDistinct e t.conns h)

known-disconn :
    (e f : Str) (cs : List ConnInfo)
    → IsDistinct cs
    → known f (disconn e cs) ≡ (if same_str e f then false else known f cs)
unfolding known disconn
known-disconn e f [] h = ground arith
known-disconn e f (c ∷ cs) h = ground (
  arith,
  h,
  known-disconn e f cs h.1,
  same_str_iff c.endp e,
  same_str_iff e f,
  same_str_iff c.endp f,
)

-- Which endpoints have an entry after `Conn` with memory and after `Disconn`, on a list with one entry
-- for an endpoint: the endpoint itself has and has not one, and for the others nothing changes. With
-- no memory for a new entry `Conn` reports it and changes nothing.
pub known_after :
    (now : ℕ) (e f : Str) (id : Option Str) (cs : List ConnInfo)
    → IsDistinct cs
    → (known f (conn true now e id cs).1 ≡ (if same_str e f then true else known f cs))
      × ((conn true now e id cs).0 ≡ ok)
      × (conn false now e id cs ≡ (if known e cs then (ok, cs) else (mem_insufficient, cs)))
      × (known f (disconn e cs) ≡ (if same_str e f then false else known f cs))
unfolding conn
known_after now e f none cs h =
    ground (arith, known-disconn e f cs h, known-snoc f cs (conn_info e now), same_str_iff e f)
known_after now e f (some i) cs h = ground (
  arith,
  known-disconn e f cs h,
  known-snoc f cs (record (conn_info e now) { id = i }),
  same_str_iff e f,
)

-- The status of an endpoint's connection.
pub stat_of : Str → List ConnInfo → Option ℕ
stat_of e [] = none
stat_of e (c ∷ cs) = let rest = stat_of e cs in if same_str c.endp e then some c.stat else rest

-- `SetConnStat` by endpoint sets the status of that endpoint and of no other, and reports an endpoint
-- that has no entry; `SetConnStat` by id reports success whether or not an entry has the id.
pub set_stat_lem :
    (stat : ℕ) (e f id : Str) (cs : List ConnInfo)
    → IsDistinct cs
    → let (ret, cs') = set_stat_by_endp stat e cs in
      (ret ≡ (if known e cs then ok else not_exist))
      × (stat_of f cs' ≡ (if same_str e f && known e cs then some stat else stat_of f cs))
      × ((set_stat_by_id stat id cs).0 ≡ ok)
unfolding set_stat_by_endp set_stat_by_id stat_of known
set_stat_lem stat e f id [] h = ground arith
set_stat_lem stat e f id (c ∷ cs) h = ground (
  arith,
  h,
  set_stat_lem stat e f id cs h.1,
  same_str_iff c.endp e,
  same_str_iff e f,
  same_str_iff c.endp f,
)
