-- ===== src/Zmq/Stack.antt =====
-- zpp/zmq.hpp, class MsgStack: a vector of message handles with status bits.
pub mod Rotate
pub mod Last
pub mod Laws
use zpp_adapter.Prelude.{
  ℕ, zero, suc, ◌+◌, ◌-◌, ◌*◌, ◌/◌, ◌%◌, Bool, true, false, not, ◌==◌, ltb, if◌then◌else◌, Option,
  none, some, List, [], ◌∷◌, ◌++◌, map, reverse, length, get_elem?, set, take, drop,
}
use zpp_adapter.Zsi.{Err, ok, not_exist, fail, param_invalid}
use zpp_adapter.Zmq.{Libzmq, Message, copied, filled, init_copy}

pub record MsgStack (z : Libzmq) : Type 0 where
  pub msgs : List z.Msg
  pub status : ℕ
  pub fd : ℕ

-- The last element and the others; `none` for an empty vector.
pub unsnoc : {A : Type 0} → List A → Option (List A × A)
unsnoc [] = none
unsnoc (x ∷ xs) = elim (unsnoc xs) [ none ↦ some ([], x) | some p ↦ some (x ∷ p.0, p.1) ]

-- `msg = msgs[i]; msgs[i] = msgs[j]; msgs[j] = msg`.
pub swap : {A : Type 0} → ℕ → ℕ → List A → List A
swap i j xs = elim (get_elem? xs i) [
  | none ↦ xs
  | some a ↦ elim (get_elem? xs j) [ none ↦ xs | some b ↦ set (set xs i b) j a ]
]

-- `erase(begin() + i)`.
pub erase_at : {A : Type 0} → ℕ → List A → List A
erase_at i [] = []
erase_at zero (x ∷ xs) = xs
erase_at (suc i) (x ∷ xs) = x ∷ erase_at i xs

-- The loop of `Rotate`: `i` rises and `hops` falls until they meet.
pub rotate_loop : {A : Type 0} → ℕ → ℕ → ℕ → List A → List A
rotate_loop zero i hops xs = xs
rotate_loop (suc fuel) i hops xs =
    let rest = rotate_loop fuel (i + 1) (hops - 1) (swap i hops xs) in
    if ltb i hops then rest else xs

module _ (z : Libzmq) where
  -- The message that `Push` and `ReplaceBack` make of `data` (`buf` here), `len` and `fn`; `buf`
  -- is `none` where it is NULL, and the result of libzmq is the error code.
  pub made : Option (List ℕ) → ℕ → Bool → Err × Option z.Msg
  made (some b) len fn =
      let r = if fn then z.init_data (take len b) else filled z (take len b) in
      elim r [ none ↦ (fail, none) | some m ↦ (ok, some m) ]
  made none len true = (param_invalid, none)
  made none len false =
      let r = if len == 0 then some z.init else z.init_size len in
      elim r [ none ↦ (fail, none) | some m ↦ (ok, some m) ]

  -- The loops of `Push(MsgStack &msg)` and of `Copy`.
  pub copy_all : List z.Msg → List z.Msg → List z.Msg
  copy_all xs [] = xs
  copy_all xs (m ∷ ms) = copy_all (xs ++ (copied z m ∷ [])) ms

module _ {z : Libzmq} where
  abbrev pub empty_stack : MsgStack z
  empty_stack = record { msgs = []; status = 0; fd = 0 }

  abbrev pub push_back : z.Msg → MsgStack z → MsgStack z
  push_back m s = record s { msgs = s.msgs ++ (m ∷ []) }

  pub push_data : Option (List ℕ) → ℕ → Bool → MsgStack z → Err × MsgStack z
  push_data buf len fn s =
      let (ret, m) = made z buf len fn in elim m [ none ↦ (ret, s) | some h ↦ (ret, push_back h s) ]

  pub push_str : List ℕ → MsgStack z → Err × MsgStack z
  push_str str s = elim (filled z str) [ none ↦ (fail, s) | some m ↦ (ok, push_back m s) ]

  -- `Push(zmq_msg_t &msg)`: the handle itself.
  unfoldable pub push_ref : z.Msg → MsgStack z → Err × MsgStack z
  push_ref m s = (ok, push_back m s)

  -- `Push(zmq_msg_t *msg)`: a copy.
  pub push_ptr : z.Msg → MsgStack z → Err × MsgStack z
  push_ptr m s = (ok, push_back (copied z m) s)

  pub push_message : Message z → MsgStack z → Err × MsgStack z
  push_message m s = (ok, push_back (copied z m.msg) s)

  pub push_stack : MsgStack z → MsgStack z → Err × MsgStack z
  push_stack t s = (ok, record s { msgs = copy_all z s.msgs t.msgs })

  pub push_empty : MsgStack z → Err × MsgStack z
  push_empty s = (ok, push_back z.init s)

  -- With what it closes; `none` where `back` has no element.
  pub replace_back :
      Option (List ℕ) → ℕ → Bool → MsgStack z → Option (Err × MsgStack z × List z.Msg)
  replace_back buf len fn s =
      let (ret, m) = made z buf len fn in
      elim m [
        | none ↦ some (ret, s, [])
        | some h ↦ elim (unsnoc s.msgs) [
          | none ↦ none
          | some p ↦ some (ret, push_back h (record s { msgs = p.0 }), p.1 ∷ [])
        ]
      ]

  -- The error code, what is popped, and the stack.
  pub pop : MsgStack z → Err × Option z.Msg × MsgStack z
  pop s = elim (unsnoc s.msgs) [
    | none ↦ (not_exist, none, s)
    | some p ↦ (ok, some p.1, record s { msgs = p.0 })
  ]

  -- `none` where the iterator is not in the vector.
  pub erase : ℕ → MsgStack z → Option (Err × MsgStack z)
  erase idx s =
      if ltb idx (length s.msgs) then some (ok, record s { msgs = erase_at idx s.msgs }) else none

  -- `At(int idx, Message &msg)`.
  pub at_message : ℕ → Message z → MsgStack z → Err × Message z
  at_message idx msg s = elim (get_elem? s.msgs idx) [
    | none ↦ (not_exist, msg)
    | some m ↦ (ok, (init_copy m msg).1)
  ]

  pub size : MsgStack z → ℕ
  size s = length s.msgs

  -- `status &= ~1` and `status |= 1`.
  pub set_close : Bool → MsgStack z → MsgStack z
  set_close need s =
      let high = s.status / 2 * 2 in record s { status = if need then high else high + 1 }

  -- `status &= ~2` and `status |= 2`.
  pub set_online : Bool → MsgStack z → MsgStack z
  set_online online s =
      let rest = s.status / 4 * 4 + s.status % 2 in
      record s { status = if online then rest else rest + 2 }

  pub is_online : MsgStack z → Bool
  is_online s = s.status / 2 % 2 == 0

  pub rotate : MsgStack z → MsgStack z
  rotate s = record s { msgs = rotate_loop (length s.msgs) 0 (length s.msgs - 1) s.msgs }

  -- `~MsgStack`: what it closes, from the back.
  pub fini : MsgStack z → List z.Msg
  fini s = if s.status % 2 == 0 then reverse s.msgs else []
