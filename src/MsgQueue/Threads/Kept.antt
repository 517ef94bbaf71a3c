-- ===== src/MsgQueue/Threads/Kept.antt =====
-- MsgQueue under every interleaving of one writer's and one reader's accesses: no message is lost
-- and none is made up.
use mathlib.Core.List.{Perm, perm_middle, perm_append_singleton}
use mathlib.Core.List.Perm
use zpp_adapter.Prelude.{◌≡◌, subst, Bool, true, false, List, [], ◌∷◌, ◌++◌, append_assoc}
use zpp_adapter.Zsi.{Semaphore}
use zpp_adapter.MsgQueue.Threads.{
  State, queue, store, Step, enter, aim, put, load, skip, alert, post, lock, ready, block, wake,
  give_up, swap, take,
}

module _ {T : Type 0} where
  perm_insert : (t : T) (xs p q : List T) → Perm xs (p ++ q) → Perm (xs ++ (t ∷ [])) (p ++ (t ∷ q))
  perm_insert t xs p q h =
      Perm.trans (perm_append_singleton t xs)
        (Perm.trans (Perm.cons t h) (Perm.symm (perm_middle p q)))

  perm_put_first :
      (t : T) (xs g f s : List T)
      → Perm xs (g ++ (f ++ s))
      → Perm (xs ++ (t ∷ [])) (g ++ ((f ++ (t ∷ [])) ++ s))
  perm_put_first t xs g f s h =
      rw (append_assoc f (t ∷ []) s, ← append_assoc g f (t ∷ s))
        (perm_insert t xs (g ++ f) s (rw (append_assoc g f s) h))

  perm_put_second :
      (t : T) (xs g f s : List T)
      → Perm xs (g ++ (f ++ s))
      → Perm (xs ++ (t ∷ [])) (g ++ (f ++ (s ++ (t ∷ []))))
  perm_put_second t xs g f s h =
      rw (append_assoc g (f ++ s) (t ∷ []), append_assoc f s (t ∷ [])) at
        (Perm.append_right (t ∷ []) h)

  perm_take_first :
      (t : T) (xs g f s : List T)
      → Perm xs (g ++ ((t ∷ f) ++ s))
      → Perm xs ((g ++ (t ∷ [])) ++ (f ++ s))
  perm_take_first t xs g f s h = rw (append_assoc g (t ∷ []) (f ++ s)) h

  perm_take_second :
      (t : T) (xs g f s : List T)
      → Perm xs (g ++ (f ++ (t ∷ s)))
      → Perm xs ((g ++ (t ∷ [])) ++ (f ++ s))
  perm_take_second t xs g f s h =
      rw (append_assoc g (t ∷ []) (f ++ s)) (Perm.trans h (Perm.append_left g (perm_middle f s)))

module _ {S : Semaphore} {T : Type 0} where
  abbrev pub IsKept : State S T → Type 0
  IsKept s = Perm s.sent (s.got ++ (s.first ++ s.second))

  put-IsKept :
      (s : State S T) (t : T) (a : Bool)
      → IsKept s
      → IsKept (record (store s a (queue s a ++ (t ∷ []))) { sent = s.sent ++ (t ∷ []) })
  put-IsKept s t true k = perm_put_first t s.sent s.got s.first s.second k
  put-IsKept s t false k = perm_put_second t s.sent s.got s.first s.second k

  take-IsKept :
      (s : State S T) (t : T) (rest : List T) (a : Bool)
      → queue s a ≡ t ∷ rest
      → IsKept s
      → IsKept (record (store s a rest) { got = s.got ++ (t ∷ []) })
  take-IsKept s t rest true e k =
      perm_take_first t s.sent s.got rest s.second
        (subst (λ l. Perm s.sent (s.got ++ (l ++ s.second))) e k)
  take-IsKept s t rest false e k =
      perm_take_second t s.sent s.got s.first rest
        (subst (λ l. Perm s.sent (s.got ++ (s.first ++ l))) e k)

  -- Each access keeps the messages that were pushed the same as those popped and those queued.
  pub Step-IsKept : {s t : State S T} → Step s t → IsKept s → IsKept t
  Step-IsKept (enter t e) k = k
  Step-IsKept (aim t e) k = k
  Step-IsKept {s} (put t a e) k = put-IsKept s t a k
  Step-IsKept (load e) k = k
  Step-IsKept (skip a e h) k = k
  Step-IsKept (alert a e h) k = k
  Step-IsKept (post e) k = k
  Step-IsKept (lock e) k = k
  Step-IsKept (ready e h) k = k
  Step-IsKept (block e h) k = k
  Step-IsKept (wake ms e h) k = k
  Step-IsKept (give_up ms e h) k = k
  Step-IsKept (swap e) k = k
  Step-IsKept {s} (take t rest e h) k = take-IsKept s t rest _ h k
