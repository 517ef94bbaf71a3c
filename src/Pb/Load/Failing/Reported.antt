-- ===== src/Pb/Load/Failing/Reported.antt =====
-- Json2pb reports the error of the first part that is refused.
use zpp_adapter.Prelude.{
  ℕ, zero, suc, ◌≤◌, ◌≡◌, ◌≢◌, refl, sym, ap, subst, ◌∙◌, Bool, true, false, Option, none, some,
  List, [], ◌∷◌,
}
use zpp_adapter.Zsi.{Err, ok, is_ok, cast_fail}
use zpp_adapter.Json.{Keys, Rapid, object_end}
use zpp_adapter.Json.Each.{each_object, each_array, for_each}
use zpp_adapter.Json.Each.Ends.{enough, for_each_ends}
use zpp_adapter.Pb.{Protobuf}
use zpp_adapter.Pb.Load.{
  null, made, Msgs, key_for, object_done, json2field, json2pb_new, json2pb, loaded, taken, swapped,
}
use zpp_adapter.Pb.Load.Frame.{
  W, Gives, of, fresh, frame, at_name, go_on-Gives, finish-Gives, visited, scalar_lem, opened,
  key_for-frame,
}
use zpp_adapter.Pb.Load.Sound.{array_lem, puts_lem, items_lem}
use zpp_adapter.Pb.Load.Failing.{
  Opens, Unknown, FailsAt, refused, unknown, inside, Fails, here, in_list, later, after_list,
  FailsItems, this, next, Refused, unknown_root, part,
}
use zpp_adapter.Pb.Load.Failing.Stopping.{stops, object_fails, members-Unknown}

module _ {k : Keys} {r : Rapid k} (p : Protobuf r) where
  mutual
    unfolding each_object each_array for_each

    FailsAt_lem :
        {b : Bool} {name : k.Key} {v : r.Value} {ret : Err} {m n : p.Message}
        → FailsAt p b name v m ret n
        → (fuel : ℕ) (key : Option k.Key) (rest : Msgs p)
        → (is_ok ret ≡ false)
          × Gives p ret
              (frame p b name key rest n)
              (visited p fuel (r.kind v) (at_name b name) v (frame p b name key rest m))
    FailsAt_lem {b} {name} {v} {ret} {m} {n} (refused s a e bad) fuel key rest =
        (bad, scalar_lem p b fuel (r.kind v) name v m n ret key rest s a e)
    FailsAt_lem {b} {name} {v} {m = m} {n = n} (unknown {ret = done} u g) fuel key rest = (
      refl,
      object_fails p b fuel name (at_name b name) v cast_fail done null m n key rest u.object
          (members-Unknown p fuel v (at_name b name) (frame p b name key rest m) u) g,
    )
    FailsAt_lem {b} {name} {v} {ret} {m} {n}
          (inside {ms = ms} {done = done} {new = new} {c = c} o fails g) fuel key rest =
        (
          (Fails_lem fails fuel (some name) (frame p b name key rest m)).0,
          object_fails p b fuel name (some name) v ret done (made c) m n key rest o.object
              (opened p ret fuel v o.first o.key ms o.type new c (at_name b name) (some name)
                (frame p b name key rest m)
                (key_for-frame p b (r.string.get o.first) name key rest m) o.members o.at o.text
                o.found o.created
                (λ fuel. (Fails_lem fails fuel (some name) (frame p b name key rest m)).1))
              g,
        )

    Fails_lem :
        {ms : List (k.Key × r.Value)} {ret : Err} {m n : p.Message}
        → Fails p ms m ret n
        → (fuel : ℕ) (key : Option k.Key) (rest : Msgs p)
        → (is_ok ret ≡ false)
          × Gives p ret
              (of p n key ∷ rest)
              (each_object r (W p) fuel (json2field p) ms (some (of p m key ∷ rest)))
    Fails_lem (here fails) zero key rest = ((FailsAt_lem fails zero key rest).0, tt)
    Fails_lem {ret = ret} {n = n} (here fails) (suc fuel) key rest =
        let (bad, gives) = FailsAt_lem fails fuel key rest in
        (bad, stops p ret _ _ (of p n key ∷ rest) bad gives)
    Fails_lem (in_list e fails) zero key rest = ((FailsItems_lem fails zero key rest).0, tt)
    Fails_lem {ret = ret} {m} {n} (in_list {name} {v} e fails) (suc fuel) key rest =
        let (bad, gives) = FailsItems_lem fails fuel key rest in
        (
          bad,
          stops p ret _ _ (of p n key ∷ rest) bad
              (array_lem p ret fuel name v m n key rest e gives),
        )
    Fails_lem (later puts fails) zero key rest = ((Fails_lem fails zero key rest).0, tt)
    Fails_lem {ret = ret} (later {n = n} puts fails) (suc fuel) key rest =
        let (bad, gives) = Fails_lem fails fuel key rest in
        (
          bad,
          go_on-Gives p ret _ _ (of p n key ∷ rest) _ (puts_lem p puts false fuel key rest) gives,
        )
    Fails_lem (after_list e items fails) zero key rest = ((Fails_lem fails zero key rest).0, tt)
    Fails_lem {ret = ret} {m} (after_list {name} {v} {n = n} e items fails) (suc fuel) key rest =
        let (bad, gives) = Fails_lem fails fuel key rest in
        (
          bad,
          go_on-Gives p ret _ _ (of p n key ∷ rest) _
              (array_lem p ok fuel name v m n key rest e (items_lem p items fuel key rest)) gives,
        )

    FailsItems_lem :
        {name : k.Key} {vs : List r.Value} {ret : Err} {m n : p.Message}
        → FailsItems p name vs m ret n
        → (fuel : ℕ) (key : Option k.Key) (rest : Msgs p)
        → (is_ok ret ≡ false)
          × Gives p ret
              (frame p true name key rest n)
              (each_array r (W p) fuel (json2field p) vs (some (frame p true name key rest m)))
    FailsItems_lem (this fails) zero key rest = ((FailsAt_lem fails zero key rest).0, tt)
    FailsItems_lem (this fails) (suc zero) key rest = ((FailsAt_lem fails zero key rest).0, tt)
    FailsItems_lem {name} {ret = ret} {n = n} (this fails) (suc (suc fuel)) key rest =
        let (bad, gives) = FailsAt_lem fails fuel key rest in
        (bad, stops p ret _ _ (frame p true name key rest n) bad gives)
    FailsItems_lem (next puts fails) zero key rest = ((FailsItems_lem fails zero key rest).0, tt)
    FailsItems_lem (next puts fails) (suc zero) key rest =
        ((FailsItems_lem fails zero key rest).0, tt)
    FailsItems_lem {name} {ret = ret} (next {n = n} puts fails) (suc (suc fuel)) key rest =
        let (bad, gives) = FailsItems_lem fails (suc fuel) key rest in
        (
          bad,
          go_on-Gives p ret _ _ (frame p true name key rest n) _
              (puts_lem p puts true fuel key rest) gives,
        )

  -- A document whose first member names its type.
  root-Fails :
      (v : r.Value) (new n : p.Message) (ms : List (k.Key × r.Value)) (ret : Err) (fuel : ℕ)
      → Opens p v new ms
      → Fails p ms new ret n
      → (q : Option k.Key) × Gives p ret
          (of p n q ∷ [])
          (for_each r (W p) fuel (json2field p) v (some []))
  unfolding for_each json2field object_done
  root-Fails v new n ms ret zero o fails = (none, tt)
  root-Fails v new n ms ret (suc fuel) o fails =
      let q = key_for p (r.string.get o.first) none [] in
      (
        q,
        subst (λ t. Gives p ret (of p n q ∷ []) (visited p fuel t none v [])) (sym o.object)
            (finish-Gives p ret object_end none v _ (of p n q ∷ []) (of p n q ∷ [])
              (opened p ret fuel v o.first o.key ms o.type new n none q [] refl o.members o.at
                o.text o.found o.created (λ fuel. (Fails_lem fails fuel q []).1))
              refl),
      )

  root-Unknown :
      (v : r.Value) (fuel : ℕ)
      → Unknown p v
      → Gives p cast_fail (fresh p none ∷ []) (for_each r (W p) fuel (json2field p) v (some []))
  unfolding for_each json2field object_done
  root-Unknown v zero u = tt
  root-Unknown v (suc fuel) u =
      subst (λ t. Gives p cast_fail (fresh p none ∷ []) (visited p fuel t none v [])) (sym u.object)
        (finish-Gives p cast_fail object_end none v _ (fresh p none ∷ []) (fresh p none ∷ [])
          (members-Unknown p fuel v none [] u) refl)

  taken_fails :
      (ret : Err) (msgs : Msgs p) → is_ok ret ≡ false → taken p ret msgs ≡ some (ret, null)
  taken_fails ok msgs bad = cc
  taken_fails _ msgs bad = refl

  loaded_fails :
      (ret : Err) (msgs : Msgs p) (x : Option (Err × W p))
      → is_ok ret ≡ false
      → Gives p ret msgs x
      → x ≢ none
      → loaded p x ≡ some (ret, null)
  loaded_fails ret msgs none bad h ne = absurd (ne refl)
  loaded_fails ret msgs (some x) bad h ne = ap (λ x. loaded p (some x)) h ∙ taken_fails ret msgs bad

  swapped_fails :
      (ret : Err) (pb : p.Message)
      → is_ok ret ≡ false
      → swapped p pb (some (ret, null)) ≡ some (ret, pb)
  swapped_fails ok pb bad = cc
  swapped_fails _ pb bad = refl

  -- The walk over a document that is refused.
  walk_fails :
      {v : r.Value} {ret : Err}
      → Refused p v ret
      → (fuel : ℕ)
      → (is_ok ret ≡ false)
        × (msgs : Msgs p) × Gives p ret msgs (for_each r (W p) fuel (json2field p) v (some []))
  walk_fails {v} (unknown_root u) fuel = (refl, fresh p none ∷ [], root-Unknown v fuel u)
  walk_fails {v} {ret} (part {ms = ms} {new = new} {n = n} o fails) fuel =
      let (q, gives) = root-Fails v new n ms ret fuel o fails in
      ((Fails_lem fails 0 none []).0, of p n q ∷ [], gives)

  -- `Json2pb` of a document in which a part is refused, with enough fuel for the walk, reports the error
  -- of the first such part, gives no message, and leaves a message that is there as it was.
  pub json2pb-Refused :
      (v : r.Value) (ret : Err) (pb : p.Message) (fuel : ℕ)
      → Refused p v ret
      → enough r (W p) v ≤ fuel
      → (is_ok ret ≡ false)
        × (json2pb_new p fuel v ≡ some (ret, null))
        × (json2pb p fuel v pb ≡ some (ret, pb))
  unfolding json2pb_new json2pb
  json2pb-Refused v ret pb fuel why le =
      let (bad, msgs, gives) = walk_fails why fuel in
      let new =
        loaded_fails ret msgs _ bad gives
          (for_each_ends r (W p) v fuel (json2field p) (some []) le) in
      (bad, new, ap (swapped p pb) new ∙ swapped_fails ret pb bad)
