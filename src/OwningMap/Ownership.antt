-- ===== src/OwningMap/Ownership.antt =====
-- map.hpp: every pointer that goes in is in the map or deleted, once.
use mathlib.Core.List.{Perm, perm_middle, perm_append_comm}
use mathlib.Core.List.Perm
use zpp_adapter.Prelude.{
  ◌≡◌, if◌then◌else◌, true, false, none, some, Option-cases, inl, inr, List, [], ◌∷◌, ◌++◌,
  append-nil, arith,
}
use zpp_adapter.Zsi.{ok, not_exist}
use zpp_adapter.Std.Order.{KeyOrder}
use zpp_adapter.Std.Map.{
  Map, find, assign, erase, IsSorted, find-assign, find-erase, find-Above, Above-trans,
  assign-IsSorted, erase-IsSorted,
}
use zpp_adapter.OwningMap.{
  values, map_find, map_insert_del_old, map_del, map_del_clear, Call, inserts, dels, clears, run,
}

module _ {K P : Type 0} (o : KeyOrder K) where
  assign_new :
      (k : K) (v : P) (m : Map K P)
      → find o k m ≡ none
      → Perm (values (assign o k v m)) (v ∷ values m)
  unfolding find assign values
  assign_new k v [] h = Perm.refl _
  assign_new k v ((j, w) ∷ m) h =
      let ih = assign_new k v m in
      let deep =
        λ (e : find o k m ≡ none). Perm.trans (Perm.cons w (ih e)) (Perm.swap v w (values m)) in
      let here : Perm (v ∷ w ∷ values m) (v ∷ w ∷ values m) = Perm.refl _ in
      ground (arith, deep, here)

  assign_old :
      (k : K) (v old : P) (m : Map K P)
      → IsSorted o m
      → find o k m ≡ some old
      → Perm (old ∷ values (assign o k v m)) (v ∷ values m)
  unfolding find assign values
  assign_old k v old [] s h = cc
  assign_old k v old ((j, w) ∷ m) s h =
      let ih = assign_old k v old m s.1 in
      let deep = λ (e : find o k m ≡ some old).
        Perm.trans (Perm.swap w old _)
          (Perm.trans (Perm.cons w (ih e)) (Perm.swap v w (values m))) in
      let here : Perm (w ∷ v ∷ values m) (v ∷ w ∷ values m) = Perm.swap v w (values m) in
      ground (
        arith,
        deep,
        here,
        o.eq_iff j k,
        o.irrefl k,
        o.connex j k,
        find-Above o k m,
        Above-trans o k j m,
      )

  erase_old :
      (k : K) (old : P) (m : Map K P)
      → find o k m ≡ some old
      → Perm (old ∷ values (erase o k m)) (values m)
  unfolding find erase values
  erase_old k old [] h = cc
  erase_old k old ((j, w) ∷ m) h =
      let ih = erase_old k old m in
      let deep =
        λ (e : find o k m ≡ some old). Perm.trans (Perm.swap w old _) (Perm.cons w (ih e)) in
      let here : Perm (w ∷ values m) (w ∷ values m) = Perm.refl _ in ground (arith, deep, here)

  -- Every pointer: the deleted ones, and those in the map.
  abbrev pub all : List P → Map K P → List P
  all gone t = gone ++ values t

  swap_in :
      (v old : P) (gone xs ys : List P)
      → Perm (old ∷ xs) (v ∷ ys)
      → Perm (old ∷ (gone ++ xs)) (v ∷ (gone ++ ys))
  swap_in v old gone xs ys p =
      Perm.trans (Perm.symm (perm_middle gone xs))
        (Perm.trans (Perm.append_left gone p) (perm_middle gone ys))

  insert_all :
      (k : K) (v : P) (t : Map K P) (gone : List P)
      → IsSorted o t
      → let (_, t', d) = map_insert_del_old o t k v in Perm (all (d ++ gone) t') (v ∷ all gone t)
  unfolding map_insert_del_old
  insert_all k v t gone s = elim (Option-cases (find o k t)) [
    | inl free ↦
        rw (map_insert_del_old, ◌++◌, free)
          (Perm.trans (Perm.append_left gone (assign_new k v t free)) (perm_middle gone (values t)))
    | inr (old, e) ↦
        rw (map_insert_del_old, ◌++◌, e) (swap_in v old gone _ _ (assign_old k v old t s e))
  ]

  del_all :
      (k : K) (t : Map K P) (gone : List P)
      → let (_, t', d) = map_del o t k in Perm (all (d ++ gone) t') (all gone t)
  unfolding map_del
  del_all k t gone = elim (Option-cases (find o k t)) [
    | inl free ↦ rw (map_del, ◌++◌, free) (Perm.refl _)
    | inr (old, e) ↦
        rw (map_del, ◌++◌, e)
          (Perm.trans (Perm.symm (perm_middle gone _))
            (Perm.append_left gone (erase_old k old t e)))
  ]

  clear_all :
      (t : Map K P) (gone : List P)
      → let (t', d) = map_del_clear t in Perm (all (d ++ gone) t') (all gone t)
  unfolding map_del_clear values
  clear_all t gone = rw (append-nil (values t ++ gone)) (perm_append_comm (values t) gone)

  insert-IsSorted :
      (k : K) (v : P) (t : Map K P) → IsSorted o t → IsSorted o (map_insert_del_old o t k v).1
  unfolding map_insert_del_old
  insert-IsSorted k v t s = ground (arith, assign-IsSorted o k v t s)

  del-IsSorted : (k : K) (t : Map K P) → IsSorted o t → IsSorted o (map_del o t k).1
  unfolding map_del
  del-IsSorted k t s = ground (arith, erase-IsSorted o k t s)

  -- What the calls put in.
  pub inserted : List (Call K P) → List P
  inserted [] = []
  inserted (inserts k v ∷ cs) = v ∷ inserted cs
  inserted (dels k ∷ cs) = inserted cs
  inserted (clears ∷ cs) = inserted cs

  -- After any calls on a sorted map every pointer that was put in, before or since, is either in the
  -- map or deleted, and exactly once as often as it was put in.
  pub run_keeps :
      (cs : List (Call K P)) (t : Map K P) (gone : List P)
      → IsSorted o t
      → let (t', gone') = run o t gone cs in
        IsSorted o t' × Perm (all gone' t') (inserted cs ++ all gone t)
  unfolding run inserted map_del_clear values
  run_keeps [] t gone s = (s, Perm.refl _)
  run_keeps (inserts k v ∷ cs) t gone s =
      let r = map_insert_del_old o t k v in
      let (s', p) = run_keeps cs r.1 (r.2 ++ gone) (insert-IsSorted k v t s) in
      (
        s',
        Perm.trans p (
            Perm.trans (Perm.append_left (inserted cs) (insert_all k v t gone s))
              (perm_middle (inserted cs) (all gone t))),
      )
  run_keeps (dels k ∷ cs) t gone s =
      let r = map_del o t k in
      let (s', p) = run_keeps cs r.1 (r.2 ++ gone) (del-IsSorted k t s) in
      (s', Perm.trans p (Perm.append_left (inserted cs) (del_all k t gone)))
  run_keeps (clears ∷ cs) t gone s =
      let (s', p) = run_keeps cs [] (values t ++ gone) tt in
      (s', Perm.trans p (Perm.append_left (inserted cs) (clear_all t gone)))

  -- What `MapFind` finds for a key after each call on a sorted map: the value just inserted, none
  -- after a `MapDel` of the key, and for every other key what it was; and the answers of the calls.
  pub calls_find :
      (i k : K) (v dflt : P) (t : Map K P)
      → IsSorted o t
      → let (r1, t1, _) = map_insert_del_old o t k v in
        let (r2, t2, _) = map_del o t k in
        (map_find o t1 i dflt ≡ (if o.eq k i then (true, v) else map_find o t i dflt))
        × (map_find o t2 i dflt ≡ (if o.eq k i then (false, dflt) else map_find o t i dflt))
        × (r1 ≡ ok)
        × (r2 ≡ (if (map_find o t k dflt).0 then ok else not_exist))
  unfolding map_find map_insert_del_old map_del
  calls_find i k v dflt t s =
      ground (arith, find-assign o i k v t, find-erase o i k t s, o.eq_iff k i)
