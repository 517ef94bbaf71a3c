-- ===== src/Std/Order.antt =====
-- A key type with `operator<` and `operator==`, as `std::map` and `std::set` ask for it.
use zpp_adapter.Prelude.{ℕ, ◌≡◌, ◌↔◌, Bool, true, false, ltb, ◌==◌, ==_iff, ◌||◌, ◌&&◌, not, arith}

pub record KeyOrder (K : Type 0) : Type 0 where
  pub lt : K → K → Bool
  pub eq : K → K → Bool
  pub eq_iff : (a b : K) → (eq a b ≡ true) ↔ (a ≡ b)
  pub irrefl : (a : K) → lt a a ≡ false
  pub trans : (a b c : K) → lt a b ≡ true → lt b c ≡ true → lt a c ≡ true
  pub connex : (a b : K) → lt a b ≡ false → lt b a ≡ false → a ≡ b

pub ltb_irrefl : (a : ℕ) → ltb a a ≡ false
ltb_irrefl a = ground arith

pub ltb_trans : (a b c : ℕ) → ltb a b ≡ true → ltb b c ≡ true → ltb a c ≡ true
ltb_trans a b c h k = ground arith

pub ltb_connex : (a b : ℕ) → ltb a b ≡ false → ltb b a ≡ false → a ≡ b
ltb_connex a b h k = ground arith

abbrev pub nat_order : KeyOrder ℕ
nat_order = record {
  lt = ltb;
  eq = ◌==◌;
  eq_iff = ==_iff;
  irrefl = ltb_irrefl;
  trans = ltb_trans;
  connex = ltb_connex;
}

-- `operator<` of `std::pair`.
module _ {K : Type 0} (o : KeyOrder K) where
  abbrev pub pair_lt : ℕ × K → ℕ × K → Bool
  pair_lt a b = ltb a.0 b.0 || (not (ltb b.0 a.0) && o.lt a.1 b.1)

  abbrev pub pair_eq : ℕ × K → ℕ × K → Bool
  pair_eq a b = (a.0 == b.0) && o.eq a.1 b.1

  pub pair-eq_iff : (a b : ℕ × K) → (pair_eq a b ≡ true) ↔ (a ≡ b)
  pair-eq_iff a b = ground (arith, o.eq_iff a.1 b.1)

  pub pair_irrefl : (a : ℕ × K) → pair_lt a a ≡ false
  pair_irrefl a = ground (arith, o.irrefl a.1)

  pub pair_trans : (a b c : ℕ × K) → pair_lt a b ≡ true → pair_lt b c ≡ true → pair_lt a c ≡ true
  pair_trans a b c h k = ground (arith, o.trans a.1 b.1 c.1)

  pub pair_connex : (a b : ℕ × K) → pair_lt a b ≡ false → pair_lt b a ≡ false → a ≡ b
  pair_connex a b h k = ground (arith, o.connex a.1 b.1)

  abbrev pub pair_order : KeyOrder (ℕ × K)
  pair_order = record {
    lt = pair_lt;
    eq = pair_eq;
    eq_iff = pair-eq_iff;
    irrefl = pair_irrefl;
    trans = pair_trans;
    connex = pair_connex;
  }
