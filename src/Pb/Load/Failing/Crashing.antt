-- ===== src/Pb/Load/Failing/Crashing.antt =====
-- Json2pb: what a run that has crashed stays, and the parts at which it crashes.
use zpp_adapter.Prelude.{
  ℕ, zero, suc, ◌≡◌, refl, sym, subst, true, Option, none, some, List, [], ◌∷◌,
}
use zpp_adapter.Zsi.{Err, ok}
use zpp_adapter.Json.{
  Keys, Rapid, ValueType, val_object, val_array, val_string, array_end, object_end,
}
use zpp_adapter.Json.Each.{finish, go_on, each_object, each_array}
use zpp_adapter.Json.Each.Keeps.{Kept}
use zpp_adapter.Pb.{Protobuf}
use zpp_adapter.Pb.Load.{Msgs, key_for, json2field}
use zpp_adapter.Pb.Load.Frame.{W, Gives, of, fresh, frame, visited, type_lem}
use zpp_adapter.Pb.Load.Failing.{Opens}

module _ {k : Keys} {r : Rapid k} (p : Protobuf r) where
  -- Nothing is known of the stack.
  abbrev pub Lost : W p → Type 0
  Lost w = w ≡ none

  pub step-Lost :
      (t : ValueType) (name : Option k.Key) (v : r.Value) (w : W p)
      → Lost w
      → Lost (json2field p t name v w).1
  unfolding json2field
  step-Lost t name v w e = rw e refl

  -- If there is a result, the stack is lost.
  abbrev pub Crashed : Option (Err × W p) → Type 0
  Crashed = Kept r Lost (json2field p) step-Lost

  -- A loop goes on after a part that is done, or after one that crashes.
  pub past :
      (x : Option (Err × W p)) (rest : W p → Option (Err × W p)) (msgs : Msgs p)
      → Gives p ok msgs x
      → Crashed (rest (some msgs))
      → Crashed (go_on r (W p) x rest)
  past none rest msgs h c = tt
  past (some x) rest msgs h c = subst (λ x. Crashed (go_on r (W p) (some x) rest)) (sym h) c

  pub go_on-Crashed :
      (x : Option (Err × W p)) (rest : W p → Option (Err × W p))
      → Crashed x
      → ((w : W p) → Lost w → Crashed (rest w))
      → Crashed (go_on r (W p) x rest)
  go_on-Crashed none rest c more = tt
  go_on-Crashed (some (ok, w)) rest c more = more w c
  go_on-Crashed (some (_, w)) rest c more = c

  pub finish-Crashed :
      (t : ValueType) (name : Option k.Key) (v : r.Value) (x : Option (Err × W p))
      → Crashed x
      → Crashed (finish r (W p) (json2field p) t name v x)
  finish-Crashed t name v none c = tt
  finish-Crashed t name v (some (ret, w)) c = step-Lost t name v w c

  pub finish-Lost :
      (ret : Err) (t : ValueType) (name : Option k.Key) (v : r.Value) (x : Option (Err × W p))
      (msgs : Msgs p)
      → Gives p ret msgs x
      → Lost (json2field p t name v (some msgs)).1
      → Crashed (finish r (W p) (json2field p) t name v x)
  finish-Lost ret t name v none msgs h c = tt
  finish-Lost ret t name v (some x) msgs h c =
      subst (λ x. Crashed (finish r (W p) (json2field p) t name v (some x))) (sym h) c

  -- The members of an object, walked from the entry that its begin pushes, and its end.
  pub object_crashes :
      (fuel : ℕ) (name : Option k.Key) (v : r.Value) (msgs : Msgs p)
      → r.kind v ≡ val_object
      → Crashed (
          finish r
            (W p)
            (json2field p)
            object_end
            name
            v
            (each_object r (W p) fuel (json2field p) (r.members v) (some (fresh p name ∷ msgs))))
      → Crashed (visited p fuel (r.kind v) name v msgs)
  unfolding json2field
  object_crashes fuel name v msgs o c =
      subst (λ t. Crashed (visited p fuel t name v msgs)) (sym o) c

  pub empty_members :
      (fuel : ℕ) (v : r.Value) (msgs : Msgs p)
      → r.members v ≡ []
      → Gives p ok msgs (each_object r (W p) fuel (json2field p) (r.members v) (some msgs))
  unfolding each_object
  empty_members zero v msgs e = tt
  empty_members (suc fuel) v msgs e = rw e refl

  -- The members of an object with its type in front, of which a later one crashes.
  pub opened_crashes :
      (fuel : ℕ) (v : r.Value) (m : p.Message) (ms : List (k.Key × r.Value)) (name q : Option k.Key)
      (rest : Msgs p) (o : Opens p v m ms)
      → key_for p (r.string.get o.first) name rest ≡ q
      → ((fuel : ℕ) → Crashed (each_object r (W p) fuel (json2field p) ms (some (of p m q ∷ rest))))
      → Crashed (each_object r (W p) fuel (json2field p) (r.members v) (some (fresh p name ∷ rest)))
  unfolding each_object
  opened_crashes zero v m ms name q rest o same more = tt
  opened_crashes (suc fuel) v m ms name q rest o same more =
      let typed =
        subst
          (λ q.
            Gives p ok (of p m q ∷ rest)
              (visited p fuel val_string (some o.key) o.first (fresh p name ∷ rest)))
          same (type_lem p fuel o.key o.first o.type m name rest o.at o.found o.created) in
      rw o.members (
        past _ _ (of p m q ∷ rest)
          (subst
            (λ t.
              Gives p ok (of p m q ∷ rest)
                (visited p fuel t (some o.key) o.first (fresh p name ∷ rest)))
            (sym o.text) typed)
          (more fuel))

  pub array_crashes :
      (fuel : ℕ) (name : k.Key) (v : r.Value) (m : p.Message) (key : Option k.Key) (rest : Msgs p)
      → r.kind v ≡ val_array
      → Crashed (
          each_array r
            (W p)
            fuel
            (json2field p)
            (r.elements v)
            (some (frame p true name key rest m)))
      → Crashed (visited p fuel (r.kind v) (some name) v (of p m key ∷ rest))
  unfolding json2field
  array_crashes fuel name v m key rest e c =
      subst (λ t. Crashed (visited p fuel t (some name) v (of p m key ∷ rest))) (sym e)
        (finish-Crashed array_end (some name) v _ c)
