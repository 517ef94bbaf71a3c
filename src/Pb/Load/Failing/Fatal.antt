-- ===== src/Pb/Load/Failing/Fatal.antt =====
-- Json2pb on a part at which it ends the program or its behaviour is undefined.
use zpp_adapter.Prelude.{
  ℕ, zero, suc, ◌≤◌, ◌≢◌, ◌≡◌, refl, ap, Bool, true, false, Option, none, some, List, [], ◌∷◌,
}
use zpp_adapter.Zsi.{Err, ok}
use zpp_adapter.Json.{Keys, Rapid, object_end}
use zpp_adapter.Json.Each.{each_object, each_array, for_each}
use zpp_adapter.Json.Each.Ends.{enough, for_each_ends}
use zpp_adapter.Json.Each.Keeps.{each_object-Kept, each_array-Kept}
use zpp_adapter.Pb.{Protobuf}
use zpp_adapter.Pb.Load.{
  null, made, Msgs, key_for, json2field, json2pb_new, json2pb, loaded, swapped,
}
use zpp_adapter.Pb.Load.Meaning.{typed}
use zpp_adapter.Pb.Load.Frame.{
  W, of, fresh, frame, at_name, visited, opened, key_for-frame, not_merged,
}
use zpp_adapter.Pb.Load.Sound.{array_lem, puts_lem, fills_lem, items_lem}
use zpp_adapter.Pb.Load.Failing.{
  Opens, CrashesAt, unknown, empty, clash, inside, Crashes, here, in_list, later, after_list,
  CrashesItems, this, next,
}
use zpp_adapter.Pb.Load.Failing.Stopping.{members-Unknown}
use zpp_adapter.Pb.Load.Failing.Crashing.{
  Lost, step-Lost, Crashed, past, go_on-Crashed, finish-Crashed, finish-Lost, object_crashes,
  empty_members, opened_crashes, array_crashes,
}

module _ {k : Keys} {r : Rapid k} (p : Protobuf r) where
  mutual
    unfolding each_object each_array for_each

    CrashesAt_lem :
        {b : Bool} {name : k.Key} {v : r.Value} {m : p.Message}
        → CrashesAt p b name v m
        → (fuel : ℕ) (key : Option k.Key) (rest : Msgs p)
        → Crashed p (visited p fuel (r.kind v) (at_name b name) v (frame p b name key rest m))
    CrashesAt_lem {b} {name} {v} {m} (unknown u g) fuel key rest =
        object_crashes p fuel (at_name b name) v (frame p b name key rest m) u.object (
          finish-Lost p _ object_end (at_name b name) v _ _
            (members-Unknown p fuel v (at_name b name) (frame p b name key rest m) u)
            (not_merged p b name (at_name b name) v null m key rest g))
    CrashesAt_lem {b} {name} {v} {m} (empty o e g) fuel key rest =
        object_crashes p fuel (at_name b name) v (frame p b name key rest m) o (
          finish-Lost p _ object_end (at_name b name) v _ _
            (empty_members p fuel v (fresh p (at_name b name) ∷ frame p b name key rest m) e)
            (not_merged p b name (at_name b name) v null m key rest g))
    CrashesAt_lem {b} {name} {v} {m}
          (clash {c = c}
            (typed {t = t} {key = tk} {ms = ms} {d = d} {m = new} o e a s f cr fills)
            g)
          fuel key rest =
        object_crashes p fuel (at_name b name) v (frame p b name key rest m) o (
          finish-Lost p _ object_end (at_name b name) v _ _
            (opened p ok fuel v t tk ms d new c (at_name b name) (some name)
              (frame p b name key rest m) (key_for-frame p b (r.string.get t) name key rest m) e a s
              f cr (λ fuel. fills_lem p fills fuel (some name) (frame p b name key rest m)))
            (not_merged p b name (some name) v (made c) m key rest g))
    CrashesAt_lem {b} {name} {v} {m} (inside {ms = ms} {new = new} o crashes) fuel key rest =
        object_crashes p fuel (at_name b name) v (frame p b name key rest m) o.object (
          finish-Crashed p object_end (at_name b name) v _ (
            opened_crashes p fuel v new ms (at_name b name) (some name) (frame p b name key rest m)
              o (key_for-frame p b (r.string.get o.first) name key rest m)
              (λ fuel. Crashes_lem crashes fuel (some name) (frame p b name key rest m))))

    Crashes_lem :
        {ms : List (k.Key × r.Value)} {m : p.Message}
        → Crashes p ms m
        → (fuel : ℕ) (key : Option k.Key) (rest : Msgs p)
        → Crashed p (each_object r (W p) fuel (json2field p) ms (some (of p m key ∷ rest)))
    Crashes_lem crashes zero key rest = tt
    Crashes_lem (here {ms = ms} crashes) (suc fuel) key rest =
        go_on-Crashed p _ _ (CrashesAt_lem crashes fuel key rest)
          (each_object-Kept r (Lost p) (json2field p) (step-Lost p) fuel ms)
    Crashes_lem {m = m} (in_list {name} {v} {ms} e crashes) (suc fuel) key rest =
        go_on-Crashed p _ _
          (array_crashes p fuel name v m key rest e (CrashesItems_lem crashes fuel key rest))
          (each_object-Kept r (Lost p) (json2field p) (step-Lost p) fuel ms)
    Crashes_lem (later {n = n} puts crashes) (suc fuel) key rest =
        past p _ _ (of p n key ∷ rest) (puts_lem p puts false fuel key rest)
          (Crashes_lem crashes fuel key rest)
    Crashes_lem {m = m} (after_list {name} {v} {n = n} e items crashes) (suc fuel) key rest =
        past p _ _ (of p n key ∷ rest)
          (array_lem p ok fuel name v m n key rest e (items_lem p items fuel key rest))
          (Crashes_lem crashes fuel key rest)

    CrashesItems_lem :
        {name : k.Key} {vs : List r.Value} {m : p.Message}
        → CrashesItems p name vs m
        → (fuel : ℕ) (key : Option k.Key) (rest : Msgs p)
        → Crashed p
            (each_array r (W p) fuel (json2field p) vs (some (frame p true name key rest m)))
    CrashesItems_lem crashes zero key rest = tt
    CrashesItems_lem (this crashes) (suc zero) key rest = tt
    CrashesItems_lem (this {vs = vs} crashes) (suc (suc fuel)) key rest =
        go_on-Crashed p _ _ (CrashesAt_lem crashes fuel key rest)
          (each_array-Kept r (Lost p) (json2field p) (step-Lost p) (suc fuel) vs)
    CrashesItems_lem (next puts crashes) (suc zero) key rest = tt
    CrashesItems_lem {name} (next {n = n} puts crashes) (suc (suc fuel)) key rest =
        past p _ _ (frame p true name key rest n) (puts_lem p puts true fuel key rest)
          (CrashesItems_lem crashes (suc fuel) key rest)

  loaded-Crashed : (x : Option (Err × W p)) → Crashed p x → loaded p x ≡ none
  loaded-Crashed none c = refl
  loaded-Crashed (some (ret, w)) c = ap (λ w. loaded p (some (ret, w))) c

  root-Crashes :
      (v : r.Value) (new : p.Message) (ms : List (k.Key × r.Value)) (fuel : ℕ)
      → Opens p v new ms
      → Crashes p ms new
      → Crashed p (for_each r (W p) fuel (json2field p) v (some []))
  unfolding for_each
  root-Crashes v new ms zero o crashes = tt
  root-Crashes v new ms (suc fuel) o crashes =
      let q = key_for p (r.string.get o.first) none [] in
      object_crashes p fuel none v [] o.object (
        finish-Crashed p object_end none v _
          (opened_crashes p fuel v new ms none q [] o refl (λ fuel. Crashes_lem crashes fuel q [])))

  Crashed-Lost :
      (x : Option (Err × W p)) → Crashed p x → x ≢ none → (ret : Err) × (x ≡ some (ret, none))
  Crashed-Lost none c ne = absurd (ne refl)
  Crashed-Lost (some (ret, w)) c ne = (ret, ap (λ w. some (ret, w)) c)

  -- A document that begins as a message and has a part at which `Json2pb` goes through a NULL pointer or
  -- protobuf ends the program: an inner object of an unknown type or with no members, for a field that
  -- takes a message, or a message of another type than its field. With enough fuel the walk ends, and
  -- the behaviour is undefined: there is neither a result nor a message.
  pub json2pb-Crashes :
      (v : r.Value) (new pb : p.Message) (ms : List (k.Key × r.Value)) (fuel : ℕ)
      → Opens p v new ms
      → Crashes p ms new
      → enough r (W p) v ≤ fuel
      → ((ret : Err) × (for_each r (W p) fuel (json2field p) v (some []) ≡ some (ret, none)))
        × (json2pb_new p fuel v ≡ none)
        × (json2pb p fuel v pb ≡ none)
  unfolding json2pb_new json2pb
  json2pb-Crashes v new pb ms fuel o crashes le =
      let crashed = root-Crashes v new ms fuel o crashes in
      let lost = loaded-Crashed _ crashed in
      (
        Crashed-Lost _ crashed (for_each_ends r (W p) v fuel (json2field p) (some []) le),
        lost,
        ap (swapped p pb) lost,
      )
