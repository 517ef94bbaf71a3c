-- ===== src/Pb/Load/Frame.antt =====
-- Json2pb: what one event does to the stack, inside an object and inside an array.
use zpp_adapter.Prelude.{
  ℕ, zero, suc, ◌≡◌, refl, sym, ap, subst, Bool, true, false, Option, none, some, List, ◌∷◌, arith,
}
use zpp_adapter.Zsi.{Err, ok, cast_fail}
use zpp_adapter.Json.{
  Keys, Rapid, ValueType, val_false, val_true, val_string, val_number, object_end,
}
use zpp_adapter.Json.Each.{finish, go_on, visit, each_object, each_array}
use zpp_adapter.Pb.{Protobuf}
use zpp_adapter.Pb.Load.{
  Slot, wild, null, made, Entry, Msgs, create_message, key_for, set_field, set_message,
  merge_message, object_done, json2field,
}
use zpp_adapter.Pb.Load.Meaning.{is_scalar}

-- The name that is reported for a part: in an array, where the flag is true, there is none.
abbrev pub at_name {ℓ} : {A : Type ℓ} → Bool → A → Option A
at_name true name = none
at_name false name = some name

module _ {k : Keys} {r : Rapid k} (p : Protobuf r) where
  abbrev pub W : Type 0
  W = Option (Msgs p)

  -- If there is a result it is `ret` with the stack `msgs`.
  abbrev pub Gives : Err → Msgs p → Option (Err × W) → Type 0
  Gives ret msgs none = Unit {0}
  Gives ret msgs (some x) = x ≡ (ret, some msgs)

  -- The entry of an object with a message, and that of an array.
  abbrev pub of : p.Message → Option k.Key → Entry k.Key p.Message
  of m key = record { is_array = false; msg = made m; key = key }

  abbrev pub array : k.Key → Entry k.Key p.Message
  array name = record { is_array = true; msg = wild; key = some name }

  -- The entry that the begin of an object pushes.
  abbrev pub fresh : Option k.Key → Entry k.Key p.Message
  fresh key = record { is_array = false; msg = null; key = key }

  -- The stack while the parts of the field `name` of a message are walked: the entry of the message,
  -- and in an array that of the array above it.
  abbrev pub frame : Bool → k.Key → Option k.Key → Msgs p → p.Message → Msgs p
  frame true name key rest m = array name ∷ (of m key ∷ rest)
  frame false name key rest m = of m key ∷ rest

  pub go_on-Gives :
      (ret : Err) (x : Option (Err × W)) (rest : W → Option (Err × W)) (a b : Msgs p)
      → Gives ok a x
      → Gives ret b (rest (some a))
      → Gives ret b (go_on r W x rest)
  go_on-Gives ret none rest a b h t = tt
  go_on-Gives ret (some x) rest a b h t =
      subst (λ x. Gives ret b (go_on r W (some x) rest)) (sym h) t

  pub finish-Gives :
      (ret : Err) (t : ValueType) (name : Option k.Key) (v : r.Value) (x : Option (Err × W))
      (a b : Msgs p)
      → Gives ret a x
      → (json2field p t name v (some a)).1 ≡ some b
      → Gives ret b (finish r W (json2field p) t name v x)
  finish-Gives ret t name v none a b h e = tt
  finish-Gives ret t name v (some x) a b h e =
      subst (λ x. Gives ret b (finish r W (json2field p) t name v (some x))) (sym h)
        (ap (λ w. (ret, w)) e)

  -- What `visit` does with a value of each kind.
  abbrev pub visited : ℕ → ValueType → Option k.Key → r.Value → Msgs p → Option (Err × W)
  visited fuel t name v msgs =
      visit r W t (json2field p) (each_array r W fuel (json2field p) (r.elements v))
        (each_object r W fuel (json2field p) (r.members v)) name v (some msgs)

  pub scalar_lem :
      (b : Bool) (fuel : ℕ) (t : ValueType) (name : k.Key) (v : r.Value) (m n : p.Message)
      (ret : Err) (key : Option k.Key) (rest : Msgs p)
      → is_scalar t ≡ true
      → p.starts_at name ≡ false
      → set_field p t (some name) v m ≡ some (ret, n)
      → Gives ret
          (frame b name key rest n)
          (visited fuel t (at_name b name) v (frame b name key rest m))
  unfolding json2field set_message
  scalar_lem true fuel val_false name v m n ret key rest s a e = ground (arith, a, e)
  scalar_lem true fuel val_true name v m n ret key rest s a e = ground (arith, a, e)
  scalar_lem true fuel val_string name v m n ret key rest s a e = ground (arith, a, e)
  scalar_lem true fuel val_number name v m n ret key rest s a e = ground (arith, a, e)
  scalar_lem true fuel _ name v m n ret key rest s a e = cc
  scalar_lem false fuel val_false name v m n ret key rest s a e = ground (arith, a, e)
  scalar_lem false fuel val_true name v m n ret key rest s a e = ground (arith, a, e)
  scalar_lem false fuel val_string name v m n ret key rest s a e = ground (arith, a, e)
  scalar_lem false fuel val_number name v m n ret key rest s a e = ground (arith, a, e)
  scalar_lem false fuel _ name v m n ret key rest s a e = cc

  -- The begin of an object under `name` is followed by its type.
  pub type_lem :
      (fuel : ℕ) (key : k.Key) (t : r.Value) (d : p.Descriptor) (m : p.Message)
      (name : Option k.Key) (rest : Msgs p)
      → p.starts_at key ≡ true
      → p.find_message (r.string.get t) ≡ some d
      → p.create d ≡ some m
      → Gives ok
          (of m (key_for p (r.string.get t) name rest) ∷ rest)
          (visited fuel val_string (some key) t (fresh name ∷ rest))
  unfolding json2field set_message create_message
  type_lem fuel key t d m name rest a f c = ground (arith, a, f, c)

  -- A type that is not known leaves the entry without a message.
  pub unknown_type :
      (fuel : ℕ) (key : k.Key) (t : r.Value) (name : Option k.Key) (rest : Msgs p)
      → p.starts_at key ≡ true
      → p.find_message (r.string.get t) ≡ none
      → Gives cast_fail
          (fresh name ∷ rest)
          (visited fuel val_string (some key) t (fresh name ∷ rest))
  unfolding json2field set_message create_message
  unknown_type fuel key t name rest a f = ground (arith, a, f)

  pub key_for-frame :
      (b : Bool) (type_name : r.string.T) (name : k.Key) (key : Option k.Key) (rest : Msgs p)
      (m : p.Message)
      → key_for p type_name (at_name b name) (frame b name key rest m) ≡ some name
  key_for-frame true type_name name key rest m = refl
  key_for-frame false type_name name key rest m = refl

  -- The end of an object whose entry has the message `slot` and the key `at`.
  pub merged_lem :
      (b : Bool) (name : k.Key) (at : Option k.Key) (v : r.Value) (ret : Err)
      (slot : Slot p.Message) (m n : p.Message) (key : Option k.Key) (rest : Msgs p)
      → merge_message p at m slot ≡ some (ret, n)
      → (json2field p object_end
          (at_name b name)
          v
          (some (record { is_array = false; msg = slot; key = at } ∷ frame b name key rest m))).1
        ≡ some (frame b name key rest n)
  unfolding json2field object_done
  merged_lem true name at v ret slot m n key rest e = ground (arith, e)
  merged_lem false name at v ret slot m n key rest e = ground (arith, e)

  pub not_merged :
      (b : Bool) (name : k.Key) (at : Option k.Key) (v : r.Value) (slot : Slot p.Message)
      (m : p.Message) (key : Option k.Key) (rest : Msgs p)
      → merge_message p at m slot ≡ none
      → (json2field p object_end
          (at_name b name)
          v
          (some (record { is_array = false; msg = slot; key = at } ∷ frame b name key rest m))).1
        ≡ none
  unfolding json2field object_done
  not_merged true name at v slot m key rest e = ground (arith, e)
  not_merged false name at v slot m key rest e = ground (arith, e)

  -- The members of an object whose type is known, given what the members behind the type do.
  pub opened :
      (ret : Err) (fuel : ℕ) (v t : r.Value) (key : k.Key) (ms : List (k.Key × r.Value))
      (d : p.Descriptor) (m n : p.Message) (name q : Option k.Key) (rest : Msgs p)
      → key_for p (r.string.get t) name rest ≡ q
      → r.members v ≡ (key, t) ∷ ms
      → p.starts_at key ≡ true
      → r.kind t ≡ val_string
      → p.find_message (r.string.get t) ≡ some d
      → p.create d ≡ some m
      → ((fuel : ℕ)
          → Gives ret
              (of n q ∷ rest)
              (each_object r W fuel (json2field p) ms (some (of m q ∷ rest))))
      → Gives ret
          (of n q ∷ rest)
          (each_object r W fuel (json2field p) (r.members v) (some (fresh name ∷ rest)))
  unfolding each_object
  opened ret zero v t key ms d m n name q rest same e a s f c more = tt
  opened ret (suc fuel) v t key ms d m n name q rest same e a s f c more =
      let typed =
        subst
          (λ q. Gives ok (of m q ∷ rest) (visited fuel val_string (some key) t (fresh name ∷ rest)))
          same (type_lem fuel key t d m name rest a f c) in
      rw e (
        go_on-Gives ret _ _ (of m q ∷ rest) (of n q ∷ rest)
          (subst
            (λ kind. Gives ok (of m q ∷ rest) (visited fuel kind (some key) t (fresh name ∷ rest)))
            (sym s) typed)
          (more fuel))
