-- ===== src/Go/Float.antt =====
-- Go's `float64`, as an interface: the operations that the source uses, over an abstract type of
-- numbers, and the laws of the order that some theorems need. `Milli` is a concrete such type.
use Prim.Native.Nat.{◌*◌}
use Prim.Native.String.{len}
use io_t_fleet_management.Go.Text.Decimal.{decimal_ℤ}
use io_t_fleet_management.Prelude.{
  Option, none, some, nat_eq, if◌then◌else◌, ◌%◌, ℕ, suc, ◌+◌, ◌/◌, ◌^◌, ◌≡◌, ◌⊎◌, Bool, true, not,
  String, arith,
}
use io_t_fleet_management.Prelude.Int.{
  ℤ, pos, negsuc, pos_part, neg_part, sub_ℕ, ◌+ℤ◌, leb_ℤ, ltb_ℤ, eq_ℤ,
}

pub record Float64 (F : Type 0) : Type 0 where
  -- `a < b`, `a <= b` and `a == b`; all false if an operand is NaN
  pub lt : F → F → Bool
  pub le : F → F → Bool
  pub eq : F → F → Bool
  pub add : F → F → F
  pub mul : F → F → F
  pub div : F → F → F
  pub neg : F → F
  -- `float64(n)` and `int64(x)`
  pub of_int : ℤ → F
  pub to_int : F → ℤ
  -- the constant m / 10^k
  pub decimal : ℕ → ℕ → F
  -- `math.MaxFloat64` and `math.Round`
  pub max_float : F
  pub round : F → F
  -- `fmt.Sprintf("%.0f", x)`
  pub format0 : F → String
  -- the length of the number in JSON, `none` for NaN and the infinities
  pub json_size : F → Option ℕ
  -- the number that its JSON text gives a field of type `int64`, if it gives one
  pub json_int : F → Option ℤ

infix 4 ◌≼◌
abbrev pub ◌≼◌ : {F : Type 0} ⦃d : Float64 F⦄ → F → F → Type 0
◌≼◌ ⦃d⦄ a b = d.le a b ≡ true

-- A number that equals itself is not NaN.
abbrev pub IsNumber : {F : Type 0} ⦃d : Float64 F⦄ → F → Type 0
IsNumber x = x ≼ x

-- The order of IEEE 754: total on the numbers that are not NaN, and false on NaN.
pub record IsOrdered (F : Type 0) ⦃d : Float64 F⦄ : Type 0 where
  pub number_of_le : (a b : F) → a ≼ b → IsNumber a × IsNumber b
  pub le_trans : (a b c : F) → a ≼ b → b ≼ c → a ≼ c
  pub le_total : (a b : F) → IsNumber a → IsNumber b → (a ≼ b) ⊎ (b ≼ a)
  pub lt_number : (a b : F) → d.lt a b ≡ true → IsNumber a × IsNumber b
  pub lt-eq-not-le : (a b : F) → IsNumber a → IsNumber b → d.lt a b ≡ not (d.le b a)

-- `math.Round(x*10) / 10`.
abbrev pub round1 : {F : Type 0} ⦃d : Float64 F⦄ → F → F
round1 ⦃d⦄ x = d.div (d.round (d.mul x (d.of_int (pos 10)))) (d.of_int (pos 10))

-- Thousandths, for evaluation: sums are exact, products and quotients are cut off.
pub record Milli : Type 0 where
  pub units : ℤ

abbrev pub milli : ℤ → Milli
milli n = record { units = n }

abbrev neg_ℤ : ℤ → ℤ
neg_ℤ a = sub_ℕ (neg_part a) (pos_part a)

abbrev abs_ℤ : ℤ → ℕ
abs_ℤ a = pos_part a + neg_part a

-- The sign of a product or a quotient.
abbrev signed : ℤ → ℤ → ℕ → ℤ
signed (pos _) (pos _) n = pos n
signed (negsuc _) (negsuc _) n = pos n
signed _ _ n = sub_ℕ 0 n

abbrev round_ℤ : ℤ → ℤ
round_ℤ (pos n) = pos ((n + 500) / 1000 * 1000)
round_ℤ (negsuc n) = sub_ℕ 0 ((suc n + 500) / 1000 * 1000)

instance abbrev pub milli_float : Float64 Milli
milli_float = record {
  lt = λ a b. ltb_ℤ a.units b.units;
  le = λ a b. leb_ℤ a.units b.units;
  eq = λ a b. eq_ℤ a.units b.units;
  add = λ a b. milli (a.units +ℤ b.units);
  mul = λ a b. milli (signed a.units b.units (abs_ℤ a.units * abs_ℤ b.units / 1000));
  div = λ a b. milli (signed a.units b.units (abs_ℤ a.units * 1000 / abs_ℤ b.units));
  neg = λ a. milli (neg_ℤ a.units);
  of_int = λ n. milli (signed (pos 1) n (abs_ℤ n * 1000));
  to_int = λ a. signed (pos 1) a.units (abs_ℤ a.units / 1000);
  decimal = λ m k. milli (pos (m * 1000 / 10 ^ k));
  max_float = milli (pos (10 ^ 300));
  round = λ a. milli (round_ℤ a.units);
  format0 = λ a. decimal_ℤ (signed (pos 1) (round_ℤ a.units) (abs_ℤ (round_ℤ a.units) / 1000));
  json_size = λ a. some (len (decimal_ℤ a.units) + 1);
  json_int = λ a.
      if nat_eq (abs_ℤ a.units % 1000) 0
      then some (signed (pos 1) a.units (abs_ℤ a.units / 1000))
      else none;
}

pub Milli-IsOrdered : IsOrdered Milli
Milli-IsOrdered = record {
  number_of_le = λ a b h. (ground arith, ground arith);
  le_trans = λ a b c h k. ground arith;
  le_total = λ a b h k. ground arith;
  lt_number = λ a b h. (ground arith, ground arith);
  lt-eq-not-le = λ a b h k. ground arith;
}
