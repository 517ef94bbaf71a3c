-- ===== src/Pb/Load/Sound.antt =====
-- Json2pb computes what a document means.
use zpp_adapter.Prelude.{
  ℕ, zero, suc, ◌≤◌, ◌≡◌, ◌≢◌, refl, sym, ap, subst, ◌∙◌, Bool, true, false, Option, none, some,
  List, [], ◌∷◌,
}
use zpp_adapter.Zsi.{Err, ok}
use zpp_adapter.Json.{Keys, Rapid, val_null, val_object, val_array, array_end, object_end}
use zpp_adapter.Json.Each.{each_object, each_array, for_each}
use zpp_adapter.Json.Each.Ends.{enough, for_each_ends}
use zpp_adapter.Pb.{Protobuf}
use zpp_adapter.Pb.Load.{
  made, Msgs, key_for, merge_message, object_done, json2field, json2pb_new, json2pb, loaded,
  swapped,
}
use zpp_adapter.Pb.Load.Meaning.{
  Denotes, typed, Puts, nothing, scalar, child, Fills, done, one, list, Items, no_more, item,
}
use zpp_adapter.Pb.Load.Frame.{
  W, Gives, of, fresh, frame, at_name, go_on-Gives, finish-Gives, visited, scalar_lem, opened,
  key_for-frame, merged_lem,
}

module _ {k : Keys} {r : Rapid k} (p : Protobuf r) where
  nothing_lem :
      (b : Bool) (fuel : ℕ) (name : Option k.Key) (v : r.Value) (msgs : Msgs p)
      → r.kind v ≡ val_null
      → Gives p ok msgs (visited p fuel (r.kind v) name v msgs)
  unfolding json2field
  nothing_lem b fuel name v msgs e =
      subst (λ t. Gives p ok msgs (visited p fuel t name v msgs)) (sym e) refl

  -- The end of an object that denotes `c`, in the field `name` of the message `m`.
  object_lem :
      (b : Bool) (fuel : ℕ) (name : k.Key) (v : r.Value) (ret : Err) (c m n : p.Message)
      (key : Option k.Key) (rest : Msgs p)
      → r.kind v ≡ val_object
      → Gives p ok (of p c (some name) ∷ frame p b name key rest m) (
          each_object r
            (W p)
            fuel
            (json2field p)
            (r.members v)
            (some (fresh p (at_name b name) ∷ frame p b name key rest m)))
      → merge_message p (some name) m (made c) ≡ some (ret, n)
      → Gives p ok
          (frame p b name key rest n)
          (visited p fuel (r.kind v) (at_name b name) v (frame p b name key rest m))
  unfolding json2field
  object_lem b fuel name v ret c m n key rest o members g =
      subst
        (λ t.
          Gives p ok (frame p b name key rest n)
            (visited p fuel t (at_name b name) v (frame p b name key rest m)))
        (sym o)
        (finish-Gives p ok object_end (at_name b name) v _
          (of p c (some name) ∷ frame p b name key rest m) (frame p b name key rest n) members
          (merged_lem p b name (some name) v ret (made c) m n key rest g))

  pub array_lem :
      (ret : Err) (fuel : ℕ) (name : k.Key) (v : r.Value) (m n : p.Message) (key : Option k.Key)
      (rest : Msgs p)
      → r.kind v ≡ val_array
      → Gives p ret (frame p true name key rest n) (
          each_array r
            (W p)
            fuel
            (json2field p)
            (r.elements v)
            (some (frame p true name key rest m)))
      → Gives p ret
          (of p n key ∷ rest)
          (visited p fuel (r.kind v) (some name) v (of p m key ∷ rest))
  unfolding json2field
  array_lem ret fuel name v m n key rest e items =
      subst
        (λ t. Gives p ret (of p n key ∷ rest) (visited p fuel t (some name) v (of p m key ∷ rest)))
        (sym e)
        (finish-Gives p ret array_end (some name) v _ (frame p true name key rest n)
          (of p n key ∷ rest) items refl)

  mutual
    unfolding each_object each_array for_each

    pub puts_lem :
        {name : k.Key} {v : r.Value} {m n : p.Message}
        → Puts p name v m n
        → (b : Bool) (fuel : ℕ) (key : Option k.Key) (rest : Msgs p)
        → Gives p ok
            (frame p b name key rest n)
            (visited p fuel (r.kind v) (at_name b name) v (frame p b name key rest m))
    puts_lem {name} {v} {m} (nothing e) b fuel key rest =
        nothing_lem b fuel (at_name b name) v (frame p b name key rest m) e
    puts_lem {name} {v} {m} {n} (scalar s a e) b fuel key rest =
        scalar_lem p b fuel (r.kind v) name v m n ok key rest s a e
    puts_lem {name} {v} {m} {n}
          (child {ret = ret} {c = c}
            (typed {t = t} {key = tk} {ms = ms} {d = d} {m = new} o e a s f cr fills)
            g)
          b fuel key rest =
        object_lem b fuel name v ret c m n key rest o
          (opened p ok fuel v t tk ms d new c (at_name b name) (some name)
            (frame p b name key rest m) (key_for-frame p b (r.string.get t) name key rest m) e a s f
            cr (λ fuel. fills_lem fills fuel (some name) (frame p b name key rest m)))
          g

    pub fills_lem :
        {ms : List (k.Key × r.Value)} {m n : p.Message}
        → Fills p ms m n
        → (fuel : ℕ) (key : Option k.Key) (rest : Msgs p)
        → Gives p ok
            (of p n key ∷ rest)
            (each_object r (W p) fuel (json2field p) ms (some (of p m key ∷ rest)))
    fills_lem fills zero key rest = tt
    fills_lem done (suc fuel) key rest = refl
    fills_lem (one {n = n} puts fills) (suc fuel) key rest =
        go_on-Gives p ok _ _ (of p n key ∷ rest) _ (puts_lem puts false fuel key rest)
          (fills_lem fills fuel key rest)
    fills_lem {m = m} (list {name} {v} {n = n} e items fills) (suc fuel) key rest =
        go_on-Gives p ok _ _ (of p n key ∷ rest) _
          (array_lem ok fuel name v m n key rest e (items_lem items fuel key rest))
          (fills_lem fills fuel key rest)

    pub items_lem :
        {name : k.Key} {vs : List r.Value} {m n : p.Message}
        → Items p name vs m n
        → (fuel : ℕ) (key : Option k.Key) (rest : Msgs p)
        → Gives p ok
            (frame p true name key rest n)
            (each_array r (W p) fuel (json2field p) vs (some (frame p true name key rest m)))
    items_lem items zero key rest = tt
    items_lem no_more (suc fuel) key rest = refl
    items_lem (item puts items) (suc zero) key rest = tt
    items_lem {name} (item {n = n} puts items) (suc (suc fuel)) key rest =
        go_on-Gives p ok _ _ (frame p true name key rest n) _ (puts_lem puts true fuel key rest)
          (items_lem items (suc fuel) key rest)

  -- The walk over a document that denotes a message leaves one entry with it.
  walked :
      (v : r.Value) (m : p.Message) (fuel : ℕ)
      → Denotes p v m
      → (q : Option k.Key) × Gives p ok
          (of p m q ∷ [])
          (for_each r (W p) fuel (json2field p) v (some []))
  unfolding for_each json2field object_done
  walked v n zero den = (none, tt)
  walked v n (suc fuel) (typed {t = t} {key = key} {ms = ms} {d = d} {m = m} o e a s f c fills) =
      let q = key_for p (r.string.get t) none [] in
      (
        q,
        subst (λ t. Gives p ok (of p n q ∷ []) (visited p fuel t none v [])) (sym o)
            (finish-Gives p ok object_end none v _ (of p n q ∷ []) (of p n q ∷ [])
              (opened p ok fuel v t key ms d m n none q [] refl e a s f c
                (λ fuel. fills_lem fills fuel q []))
              refl),
      )

  loaded-Gives :
      (m : p.Message) (q : Option k.Key) (x : Option (Err × W p))
      → Gives p ok (of p m q ∷ []) x
      → x ≢ none
      → loaded p x ≡ some (ok, made m)
  loaded-Gives m q none h ne = absurd (ne refl)
  loaded-Gives m q (some x) h ne = ap (λ x. loaded p (some x)) h

  -- A document that denotes a message is turned into that message by `Json2pb`, with enough fuel for
  -- the walk over it; and an existing message of the same type then has its content.
  pub json2pb-Denotes :
      (v : r.Value) (m pb : p.Message) (fuel : ℕ)
      → Denotes p v m
      → p.same_type pb m ≡ true
      → enough r (W p) v ≤ fuel
      → (json2pb_new p fuel v ≡ some (ok, made m)) × (json2pb p fuel v pb ≡ some (ok, m))
  unfolding json2pb_new json2pb
  json2pb-Denotes v m pb fuel den same le =
      let (q, gives) = walked v m fuel den in
      let new =
        loaded-Gives m q _ gives (for_each_ends r (W p) v fuel (json2field p) (some []) le) in
      (new, ap (swapped p pb) new ∙ rw same refl)
