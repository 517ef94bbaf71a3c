-- ===== src/PoolRing/Prealloc.antt =====
-- MsgPoolRing::PreAlloc: what the loop stores, and what it counts.
use zpp_adapter.Prelude.{
  set_middle, ℕ, ◌+◌, ◌^◌, ◌≡◌, refl, sym, ◌∙◌, Option, none, some, List, [], ◌∷◌, ◌++◌, map,
  length, length-append, replicate, length-replicate, set, arith, append_assoc,
}
use zpp_adapter.PoolRing.{Ring, fresh, fill, pre_alloc}

module _ {P : Type 0} where
  fill-buf :
      (ps : List P) (pre suf : List (Option P)) (i : ℕ) (r : Ring P)
      → i ≡ length pre
      → length suf ≡ length ps
      → r.buf ≡ pre ++ suf
      → (fill (map some ps) i r).buf ≡ pre ++ map some ps
  unfolding fill
  fill-buf [] pre [] i r n m e = e
  fill-buf [] pre (x ∷ suf) i r n m e = absurd (omega arith)
  fill-buf (p ∷ ps) pre [] i r n m e = absurd (omega arith)
  fill-buf (p ∷ ps) pre (x ∷ suf) i r n m e =
      fill-buf ps (pre ++ (some p ∷ [])) suf (i + 1)
        (record r { buf = set r.buf i (some p); size = i })
        (omega (arith, length-append pre (some p ∷ []))) (omega arith)
        (rw (e, n, set_middle pre x suf (some p)) (sym (append_assoc pre (some p ∷ []) suf)))
      ∙ append_assoc pre (some p ∷ []) (map some ps)

  fill-size :
      (ps : List P) (p : P) (i : ℕ) (r : Ring P)
      → (fill (map some (p ∷ ps)) i r).size ≡ i + length ps
  unfolding fill
  fill-size [] p i r = omega arith
  fill-size (q ∷ ps) p i r =
      fill-size ps q (i + 1) (record r { buf = set r.buf i (some p); size = i }) ∙ omega arith

  -- Where every `new` succeeds, `PreAlloc` stores an object in every slot and counts one too few.
  pub pre_alloc_undercounts :
      (k : ℕ) (p : P) (ps : List P)
      → length ps + 1 ≡ 2 ^ k
      → let r = pre_alloc (map some (p ∷ ps)) (fresh (2 ^ k)) in
        (r.buf ≡ map some (p ∷ ps)) × (r.size + 1 ≡ 2 ^ k)
  unfolding pre_alloc fresh
  pre_alloc_undercounts k p ps h = (
    fill-buf (p ∷ ps) [] (replicate (2 ^ k) none) 0 (fresh (2 ^ k)) refl
        (length-replicate (2 ^ k) none ∙ omega arith) refl,
    omega (arith, fill-size ps p 0 (fresh (2 ^ k))),
  )
