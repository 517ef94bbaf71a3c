-- ===== src/Zmq.antt =====
-- zpp/zmq.hpp and zpp/src/zmq.cpp: messages, stacks of messages, routed messages, and the socket.
-- This file has libzmq as an interface and the class Message.
pub mod Stack
pub mod Route
pub mod Wire
pub mod Conns
pub mod Pirate
pub mod Monitor
mod Loopback
mod Tests
use zpp_adapter.Prelude.{
  ℕ, ◌≡◌, Bool, true, false, Option, none, some, List, [], ◌∷◌, ◌++◌, length, take,
}
use zpp_adapter.Zsi.{Err, ok, fail}

-- What a frame carries, and whether more frames of its message follow.
abbrev pub Frame : Type 0
Frame = List ℕ × Bool

-- libzmq as documented. `none` and `false` stand for the result -1. A socket's `sent` and `pending`
-- are the frames handed to it and those that wait to be received.
pub record Libzmq : Type 1 where
  pub Msg : Type 0
  pub bytes : Msg → List ℕ
  pub more : Msg → Bool
  pub init : Msg
  pub init_size : ℕ → Option Msg
  pub init_data : List ℕ → Option Msg
  -- The bytes written through `zmq_msg_data`.
  pub write : List ℕ → Msg → Msg
  pub copy : Msg → Option Msg
  pub Sock : Type 0
  pub sent : Sock → List Frame
  pub pending : Sock → List Frame
  pub send : Msg → ℕ → Bool → Sock → Bool × Sock
  pub recv : ℕ → Sock → Option Msg × Sock
  pub bytes-init : bytes init ≡ []
  pub bytes-init_size : (n : ℕ) (m : Msg) → init_size n ≡ some m → length (bytes m) ≡ n
  pub bytes-init_data : (b : List ℕ) (m : Msg) → init_data b ≡ some m → bytes m ≡ b
  pub bytes-write : (b : List ℕ) (m : Msg) → length (bytes m) ≡ length b → bytes (write b m) ≡ b
  pub bytes-copy : (m c : Msg) → copy m ≡ some c → bytes c ≡ bytes m
  pub sent-send :
      (m : Msg) (flags : ℕ) (sndmore : Bool) (s : Sock)
      → (send m flags sndmore s).0 ≡ true
      → sent (send m flags sndmore s).1 ≡ sent s ++ ((bytes m, sndmore) ∷ [])
  pub sent_failed :
      (m : Msg) (flags : ℕ) (sndmore : Bool) (s : Sock)
      → (send m flags sndmore s).0 ≡ false
      → sent (send m flags sndmore s).1 ≡ sent s
  pub pending-recv :
      (flags : ℕ) (m : Msg) (s : Sock)
      → (recv flags s).0 ≡ some m
      → pending s ≡ (bytes m, more m) ∷ pending (recv flags s).1

-- `Message`, with the handle it holds.
pub record Message (z : Libzmq) : Type 0 where
  pub need_close : Bool
  pub msg : z.Msg

-- `zmq_msg_init` and `zmq_msg_copy` with the result ignored: a copy that fails leaves the empty
-- message.
abbrev pub copied : (z : Libzmq) → z.Msg → z.Msg
copied z m = elim (z.copy m) [ none ↦ z.init | some c ↦ c ]

-- `zmq_msg_init_size` and the `memcpy` of the bytes.
abbrev pub filled : (z : Libzmq) → List ℕ → Option z.Msg
filled z b = elim (z.init_size (length b)) [ none ↦ none | some m ↦ some (z.write b m) ]

module _ {z : Libzmq} where
  abbrev pub adopt : Message z → Option z.Msg → Err × Message z
  adopt m none = (fail, m)
  adopt m (some h) = (ok, record m { msg = h })

  pub init : Message z → Err × Message z
  init m = (ok, record m { msg = z.init })

  pub init_size : ℕ → Message z → Err × Message z
  init_size size m = adopt m (z.init_size size)

  -- `Init(const void *data, size_t size)`, and `Init(std::string &str)`.
  pub init_bytes : List ℕ → Message z → Err × Message z
  init_bytes b m = adopt m (filled z b)

  pub init_data : List ℕ → Message z → Err × Message z
  init_data b m = adopt m (z.init_data b)

  -- `Init(zmq_msg_t &src_msg)`: where the copy fails, the empty message is in place already.
  pub init_copy : z.Msg → Message z → Err × Message z
  init_copy src m = elim (z.copy src) [
    | none ↦ (fail, record m { msg = z.init })
    | some c ↦ (ok, record m { msg = c })
  ]

  -- `Init(zmq_msg_t *src_msg)`: the handle itself, without a copy.
  pub init_ptr : Option z.Msg → Message z → Err × Message z
  init_ptr none m = (ok, m)
  init_ptr (some src) m = (ok, record m { msg = src })

  pub copy : Message z → Message z → Err × Message z
  copy src m = adopt m (z.copy src.msg)

  -- `~Message`: what it closes.
  pub fini : Message z → List z.Msg
  fini m = elim m.need_close [ true ↦ m.msg ∷ [] | false ↦ [] ]
