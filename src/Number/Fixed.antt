-- ===== src/Number/Fixed.antt =====
-- A small number system that meets the laws, on which the models run: whole thousandths, exact
-- under addition and subtraction, and one value for all that is not a number.
use Prim.Native.Char.{code}
use Prim.Native.String
use ratelimit_gateway.Base.{
  ℕ, ◌+◌, ◌-◌, ◌*◌, ◌/◌, ◌%◌, String, Bool, true, false, ◌&&◌, refl, arith, ltb, leb, ◌==◌,
  if◌then◌else◌, decimal,
}
use ratelimit_gateway.Number.{Number}
use ratelimit_gateway.Number.Laws.{IsOrdered, IsArithmetic, IsExact}

-- `pos n` is n thousandths, `negsuc n` is -(n + 1) thousandths.
pub data Fixed : Type 0 where
  pos : ℕ → Fixed
  negsuc : ℕ → Fixed
  nan : Fixed

abbrev difference : ℕ → ℕ → Fixed
difference a b = if leb b a then pos (a - b) else negsuc (b - a - 1)

abbrev plus_fixed : Fixed → Fixed → Fixed
plus_fixed (pos a) (pos b) = pos (a + b)
plus_fixed (pos a) (negsuc b) = difference a (b + 1)
plus_fixed (negsuc a) (pos b) = difference b (a + 1)
plus_fixed (negsuc a) (negsuc b) = negsuc (a + b + 1)
plus_fixed _ _ = nan

abbrev negate : Fixed → Fixed
negate (pos n) = difference 0 n
negate (negsuc n) = pos (n + 1)
negate nan = nan

-- The product and the quotient of the magnitudes, cut to thousandths.
abbrev signed : (ℕ → ℕ → Fixed) → Fixed → Fixed → Fixed
signed f (pos a) (pos b) = f a b
signed f (pos a) (negsuc b) = negate (f a (b + 1))
signed f (negsuc a) (pos b) = negate (f (a + 1) b)
signed f (negsuc a) (negsuc b) = f (a + 1) (b + 1)
signed f _ _ = nan

abbrev quotient : ℕ → ℕ → Fixed
quotient a b = if b == 0 then nan else pos (a * 1000 / b)

abbrev remainder : ℕ → ℕ → Fixed
remainder a b = if b == 0 then nan else pos (a % b)

abbrev below : Fixed → Fixed → Bool
below (pos a) (pos b) = ltb a b
below (pos a) (negsuc b) = false
below (negsuc a) (pos b) = true
below (negsuc a) (negsuc b) = ltb b a
below _ _ = false

abbrev same : Fixed → Fixed → Bool
same (pos a) (pos b) = a == b
same (negsuc a) (negsuc b) = a == b
same _ _ = false

abbrev whole : (ℕ → ℕ) → (ℕ → ℕ) → Fixed → Fixed
whole f g (pos n) = pos (f n)
whole f g (negsuc n) = difference 0 (g (n + 1))
whole f g nan = nan

abbrev down : ℕ → ℕ
down n = n / 1000 * 1000

abbrev up : ℕ → ℕ
up n = (n + 999) / 1000 * 1000

abbrev nearest : ℕ → ℕ
nearest n = (n + 500) / 1000 * 1000

abbrev finite : Fixed → Bool
finite nan = false
finite _ = true

-- Whole parts only.
unfoldable pub show : Fixed → String
unfolding decimal
show (pos n) = decimal (n / 1000)
show (negsuc n) = String.◌++◌ "-" (decimal ((n + 1) / 1000))
show nan = "NaN"

-- A text of digits, or `nan`.
unfoldable pub read_from : ℕ → String → Fixed
read_from acc String.[] = pos (acc * 1000)
read_from acc (String.◌∷◌ c s) =
    let rest = read_from (acc * 10 + (code c - b'0')) s in
    if leb b'0' (code c) && leb (code c) b'9' then rest else nan

instance abbrev pub fixed_number : Number Fixed
fixed_number = record {
  nat = λ n. pos (n * 1000);
  add = plus_fixed;
  sub = λ a b. plus_fixed a (negate b);
  mul = signed (λ a b. pos (a * b / 1000));
  div = signed quotient;
  rem = signed remainder;
  lt = below;
  eq = same;
  floor = whole down up;
  ceil = whole up down;
  round = whole nearest nearest;
  is_finite = finite;
  text = show;
  fixed = λ d. show;
  of_text = read_from 0;
}

pub Fixed-IsOrdered : IsOrdered Fixed
Fixed-IsOrdered = record {
  eq_nat = λ n. ground arith;
  half_pos = refl;
  lt_le_trans = λ a b c h k. ground arith;
  le_lt_trans = λ a b c h k. ground arith;
  lt-not_le = λ a b h. ground arith;
  sub_eq = λ a b h k. ground arith;
  sub_finite = λ a b h k l m. ground arith;
  sub_nonpos = λ a b h k l. ground arith;
  div_nonneg = λ a b h k l. ground arith;
}

pub Fixed-IsArithmetic : IsArithmetic Fixed
Fixed-IsArithmetic = record {
  le_trans = λ a b c h k. ground arith;
  lt_le = λ a b h. ground arith;
  finite_le = λ a h. ground arith;
  zero_le = refl;
  not_lt = λ a b h k l. ground arith;
  add_nonneg = λ a b h k. ground arith;
  add_le = λ a b h k. ground arith;
  mul_nonneg = λ a b h k l. ground arith;
  div_nonneg = λ a b h k l. ground arith;
  thousand = (refl, refl);
  sub_le = λ a b h k l. ground arith;
  one = (refl, refl);
  floor_le = λ a h. ground arith;
  ceil_nonneg = λ a h. ground arith;
}

pub Fixed-IsExact : IsExact Fixed
Fixed-IsExact = record {
  finite_nat = λ n h. refl;
  lt_nat = λ a b h k. ground arith;
  eq_nat = λ a b h k. ground arith;
  sub_nat = λ a b h k. ground arith;
  floor_nat = λ n h. ground arith;
  sub_self = λ a h. ground arith;
  add_zero = λ n. ground arith;
  div_zero = refl;
  mul_zero = λ a h k. ground arith;
}
