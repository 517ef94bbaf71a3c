-- ===== src/Zmq/Loopback.antt =====
-- A libzmq whose messages are their bytes, and whose calls succeed; and sockets that reach every
-- endpoint.
use zpp_adapter.Prelude.{
  ℕ, ◌≡◌, ◌≢◌, refl, true, false, Option, none, some, List, [], ◌∷◌, ◌++◌, length, replicate,
  length-replicate, arith,
}
use zpp_adapter.Zmq.{Libzmq, Frame}
use zpp_adapter.Prelude.{Str}
use zpp_adapter.Zmq.Conns.{Sockets}

abbrev pub Queues : Type 0
Queues = List Frame × List Frame

abbrev pub receive : Queues → Option Frame × Queues
receive (out, []) = (none, (out, []))
receive (out, f ∷ fs) = (some f, (out, fs))

pub receive_lem :
    (m : Frame) (s : Queues) → (receive s).0 ≡ some m → s.1 ≡ (m.0, m.1) ∷ (receive s).1.1
receive_lem m (out, []) e = cc
receive_lem m (out, f ∷ fs) e = ground (arith, e)

pub size_lem : (n : ℕ) (m : Frame) → some (replicate n 0, false) ≡ some m → length m.0 ≡ n
size_lem n m e = ground (arith, e, length-replicate {A = ℕ} n 0)

pub bytes_lem : (b : List ℕ) (m : Frame) → some (b, false) ≡ some m → m.0 ≡ b
bytes_lem b m e = ground (arith, e)

pub copy_lem : (m c : Frame) → some m ≡ some c → c.0 ≡ m.0
copy_lem m c e = ground (arith, e)

pub true≢false : {A : Type 0} (x y : A) → true ≡ false → x ≡ y
true≢false x y e = cc

abbrev pub loopback : Libzmq
loopback = record {
  Msg = Frame;
  bytes = λ m. m.0;
  more = λ m. m.1;
  init = ([], false);
  init_size = λ n. some (replicate n 0, false);
  init_data = λ b. some (b, false);
  write = λ b m. (b, m.1);
  copy = λ m. some m;
  Sock = Queues;
  sent = λ s. s.0;
  pending = λ s. s.1;
  send = λ m flags more s. (true, (s.0 ++ ((m.0, more) ∷ []), s.1));
  recv = λ flags s. receive s;
  bytes-init = refl;
  bytes-init_size = size_lem;
  bytes-init_data = bytes_lem;
  bytes-write = λ b m e. refl;
  bytes-copy = copy_lem;
  sent-send = λ m flags more s e. refl;
  sent_failed = λ m flags more s e. true≢false (s.0 ++ ((m.0, more) ∷ [])) s.0 e;
  pending-recv = λ flags m s e. receive_lem m s e;
}

pub loopback_delivers : (flags : ℕ) (s : Queues) → s.1 ≢ [] → (receive s).0 ≢ none
loopback_delivers flags (out, []) ne = absurd (ne refl)
loopback_delivers flags (out, f ∷ fs) ne = λ e. cc

pub socket_lem : (s : List Str) → some [] ≡ some s → s ≡ []
socket_lem s h = ground (arith, h)

abbrev pub reaching : Sockets
reaching = record {
  Sock = List Str;
  links = λ s. s;
  connect = λ e s. (true, s ++ (e ∷ []));
  disconnect = λ e s. (true, s);
  socket = λ type. some [];
  set_linger = λ n s. (true, s);
  links-connect = λ e s h. refl;
  links-socket = λ type s h. socket_lem s h;
  links-set_linger = λ n s. refl;
}
