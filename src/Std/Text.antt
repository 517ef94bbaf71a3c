-- ===== src/Std/Text.antt =====
-- `std::string` as a key: `operator==`, and `operator<` by the first byte that differs.
use zpp_adapter.Prelude.{
  ◌≡◌, ◌↔◌, refl, Bool, true, false, ltb, ◌==◌, if◌then◌else◌, ◌&&◌, [], ◌∷◌, Str, arith,
}
use zpp_adapter.Std.Order.{KeyOrder}

abbrev pub text_eq : Str → Str → Bool
text_eq [] [] = true
text_eq (b ∷ s) (c ∷ t) = (b == c) && text_eq s t
text_eq _ _ = false

abbrev pub text_lt : Str → Str → Bool
text_lt [] [] = false
text_lt [] (c ∷ t) = true
text_lt (b ∷ s) [] = false
text_lt (b ∷ s) (c ∷ t) = let rest = text_lt s t in if b == c then rest else ltb b c

pub text-eq_iff : (s t : Str) → (text_eq s t ≡ true) ↔ (s ≡ t)
text-eq_iff [] [] = ((λ e. refl), λ e. refl)
text-eq_iff [] (c ∷ t) = ((λ e. cc), λ e. cc)
text-eq_iff (b ∷ s) [] = ((λ e. cc), λ e. cc)
text-eq_iff (b ∷ s) (c ∷ t) = ground (arith, text-eq_iff s t)

pub text_irrefl : (s : Str) → text_lt s s ≡ false
text_irrefl [] = refl
text_irrefl (b ∷ s) = ground (arith, text_irrefl s)

pub text_trans : (s t u : Str) → text_lt s t ≡ true → text_lt t u ≡ true → text_lt s u ≡ true
text_trans [] [] u h k = cc
text_trans [] (c ∷ t) [] h k = cc
text_trans [] (c ∷ t) (d ∷ u) h k = refl
text_trans (b ∷ s) [] u h k = cc
text_trans (b ∷ s) (c ∷ t) [] h k = cc
text_trans (b ∷ s) (c ∷ t) (d ∷ u) h k = ground (arith, text_trans s t u)

pub text_connex : (s t : Str) → text_lt s t ≡ false → text_lt t s ≡ false → s ≡ t
text_connex [] [] h k = refl
text_connex [] (c ∷ t) h k = cc
text_connex (b ∷ s) [] h k = cc
text_connex (b ∷ s) (c ∷ t) h k = ground (arith, text_connex s t)

abbrev pub text_order : KeyOrder Str
text_order = record {
  lt = text_lt;
  eq = text_eq;
  eq_iff = text-eq_iff;
  irrefl = text_irrefl;
  trans = text_trans;
  connex = text_connex;
}
