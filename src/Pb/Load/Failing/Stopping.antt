-- ===== src/Pb/Load/Failing/Stopping.antt =====
-- Json2pb: the walk stops at the first part that is refused.
use zpp_adapter.Prelude.{ℕ, zero, suc, ◌≡◌, refl, sym, subst, Bool, false, Option, none, some, ◌∷◌}
use zpp_adapter.Zsi.{Err, is_ok, cast_fail}
use zpp_adapter.Json.{Keys, Rapid, val_object, object_end}
use zpp_adapter.Json.Each.{go_on, each_object}
use zpp_adapter.Pb.{Protobuf}
use zpp_adapter.Pb.Load.{Slot, Msgs, merge_message, json2field}
use zpp_adapter.Pb.Load.Frame.{
  W, Gives, fresh, frame, at_name, finish-Gives, visited, merged_lem, unknown_type,
}
use zpp_adapter.Pb.Load.Failing.{Unknown}

module _ {k : Keys} {r : Rapid k} (p : Protobuf r) where
  -- A loop stops at an error.
  pub stops :
      (ret : Err) (x : Option (Err × W p)) (rest : W p → Option (Err × W p)) (msgs : Msgs p)
      → is_ok ret ≡ false
      → Gives p ret msgs x
      → Gives p ret msgs (go_on r (W p) x rest)
  stops ret none rest msgs bad h = tt
  stops ret (some x) rest msgs bad h =
      subst (λ x. Gives p ret msgs (go_on r (W p) (some x) rest)) (sym h) (rw bad refl)

  -- The end of an object after an error: what is in its entry is merged.
  pub object_fails :
      (b : Bool) (fuel : ℕ) (name : k.Key) (at : Option k.Key) (v : r.Value) (ret done : Err)
      (slot : Slot p.Message) (m n : p.Message) (key : Option k.Key) (rest : Msgs p)
      → r.kind v ≡ val_object
      → Gives p ret
          (record { is_array = false; msg = slot; key = at } ∷ frame p b name key rest m)
          (each_object r
            (W p)
            fuel
            (json2field p)
            (r.members v)
            (some (fresh p (at_name b name) ∷ frame p b name key rest m)))
      → merge_message p at m slot ≡ some (done, n)
      → Gives p ret
          (frame p b name key rest n)
          (visited p fuel (r.kind v) (at_name b name) v (frame p b name key rest m))
  unfolding json2field
  object_fails b fuel name at v ret done slot m n key rest o members g =
      subst
        (λ t.
          Gives p ret (frame p b name key rest n)
            (visited p fuel t (at_name b name) v (frame p b name key rest m)))
        (sym o)
        (finish-Gives p ret object_end (at_name b name) v _
          (record { is_array = false; msg = slot; key = at } ∷ frame p b name key rest m)
          (frame p b name key rest n) members (merged_lem p b name at v done slot m n key rest g))

  -- The members of an object of an unknown type.
  pub members-Unknown :
      (fuel : ℕ) (v : r.Value) (name : Option k.Key) (rest : Msgs p)
      → Unknown p v
      → Gives p cast_fail
          (fresh p name ∷ rest)
          (each_object r (W p) fuel (json2field p) (r.members v) (some (fresh p name ∷ rest)))
  unfolding each_object
  members-Unknown zero v name rest u = tt
  members-Unknown (suc fuel) v name rest u = rw u.members (
      stops cast_fail _ _ (fresh p name ∷ rest) refl (
        subst
          (λ t.
            Gives p cast_fail (fresh p name ∷ rest)
              (visited p fuel t (some u.key) u.first (fresh p name ∷ rest)))
          (sym u.text) (unknown_type p fuel u.key u.first name rest u.at u.not_found)))
