-- ===== src/Python/Float.antt =====
-- Python's floats. Every finite double is a whole multiple of 2 ^ -1074, so a finite value is that
-- multiple, an integer, and comparisons, signs and absolute values are exact. Sums, which round, and
-- printing are not modelled here: they are parameters (Runtime).
use dataveda_nifty_agent.Prelude.{
  ℕ, zero, suc, ◌+◌, ◌^◌, ◌*◌, ◌≡◌, Bool, true, false, ltb, leb, arith,
}

-- `negsuc n` is -(n + 1).
pub data ℤ : Type 0 where
  pos : ℕ → ℤ
  negsuc : ℕ → ℤ

abbrev pub pos_part : ℤ → ℕ
pos_part (pos n) = n
pos_part (negsuc n) = 0

abbrev pub neg_part : ℤ → ℕ
neg_part (pos n) = 0
neg_part (negsuc n) = suc n

abbrev pub ltb_ℤ : ℤ → ℤ → Bool
ltb_ℤ a b = ltb (pos_part a + neg_part b) (pos_part b + neg_part a)

abbrev pub leb_ℤ : ℤ → ℤ → Bool
leb_ℤ a b = leb (pos_part a + neg_part b) (pos_part b + neg_part a)

-- - abs(a), the magnitude with a minus sign.
abbrev pub neg_abs_ℤ : ℤ → ℤ
neg_abs_ℤ (pos zero) = pos 0
neg_abs_ℤ (pos (suc n)) = negsuc n
neg_abs_ℤ (negsuc n) = negsuc n

pub data Float : Type 0 where
  finite : ℤ → Float
  plus_inf minus_inf nan : Float

-- The float of a whole number: exact, as the unit is 2 ^ -1074. (Below 2 ^ 53 it is Python's.)
abbrev pub of_ℕ : ℕ → Float
of_ℕ n = finite (pos (n * 2 ^ 1074))

abbrev pub float_zero : Float
float_zero = finite (pos 0)

-- a < b
unfoldable pub lt : Float → Float → Bool
lt nan b = false
lt a nan = false
lt (finite a) (finite b) = ltb_ℤ a b
lt (finite a) plus_inf = true
lt (finite a) minus_inf = false
lt plus_inf b = false
lt minus_inf minus_inf = false
lt minus_inf b = true

-- a <= b
unfoldable pub le : Float → Float → Bool
le nan b = false
le a nan = false
le (finite a) (finite b) = leb_ℤ a b
le (finite a) plus_inf = true
le (finite a) minus_inf = false
le plus_inf plus_inf = true
le plus_inf b = false
le minus_inf b = true

-- -abs(a)
unfoldable pub neg_abs : Float → Float
neg_abs (finite a) = finite (neg_abs_ℤ a)
neg_abs plus_inf = minus_inf
neg_abs minus_inf = minus_inf
neg_abs nan = nan

-- bool(a): only the two zeros are false.
unfoldable pub truthy : Float → Bool
truthy (finite (pos zero)) = false
truthy _ = true

-- A limit that is not zero is never reached by a loss of zero.
pub zero-above-neg_abs : (x : Float) → truthy x ≡ true → le float_zero (neg_abs x) ≡ false
unfolding truthy le neg_abs
zero-above-neg_abs (finite (pos zero)) h = ground arith
zero-above-neg_abs (finite (pos (suc n))) h = ground arith
zero-above-neg_abs (finite (negsuc n)) h = ground arith
zero-above-neg_abs plus_inf h = ground arith
zero-above-neg_abs minus_inf h = ground arith
zero-above-neg_abs nan h = ground arith
