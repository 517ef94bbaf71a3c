-- ===== src/Zmq/Conns/Again.antt =====
-- Socket::Reconnect.
use zpp_adapter.Prelude.{ℕ, List, [], ◌∷◌, ◌++◌}
use zpp_adapter.Prelude.{Str}
use zpp_adapter.Zmq.Conns.{ConnInfo, conn_info}

-- The entries from the last to the first, as new ones.
abbrev renewed : ℕ → List ConnInfo → List ConnInfo
renewed now [] = []
renewed now (c ∷ cs) = renewed now cs ++ (conn_info c.endp now ∷ [])

abbrev pub endpoints : List ConnInfo → List Str
endpoints [] = []
endpoints (c ∷ cs) = c.endp ∷ endpoints cs
