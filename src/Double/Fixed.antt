-- ===== src/Double/Fixed.antt =====
-- A type of numbers that meets the laws of `IsDouble`: whole thousandths, with `none` for NaN. The
-- tests and the examples compute with it; no theorem about the program does.
use mirador_rca.Prelude.{
  ℕ, ◌<◌, zero, suc, ◌+◌, ◌*◌, ◌/◌, ◌^◌, ◌≡◌, Bool, true, false, Option, none, some, arith, leb,
  if◌then◌else◌,
}
use mirador_rca.Prelude.Int.{
  ℤ, pos, negsuc, pos_part, neg_part, ◌+ℤ◌, ◌-ℤ◌, ◌*ℤ◌, div_ℤ, abs_ℤ, ltb_ℤ, leb_ℤ, eqb_ℤ, sub_ℕ,
}
use mirador_rca.Double.{Double, IsDouble}

abbrev pub Fixed : Type 0
Fixed = Option ℤ

abbrev on_numbers : (ℤ → ℤ → Bool) → Fixed → Fixed → Bool
on_numbers f (some a) (some b) = f a b
on_numbers f _ _ = false

abbrev map₂ : (ℤ → ℤ → Fixed) → Fixed → Fixed → Fixed
map₂ f (some a) (some b) = f a b
map₂ f _ _ = none

abbrev map₁ : (ℤ → Fixed) → Fixed → Fixed
map₁ f (some a) = f a
map₁ f none = none

-- A quotient by zero is NaN.
abbrev quotient : ℤ → ℤ → Fixed
quotient a b = if eqb_ℤ b (pos 0) then none else some (div_ℤ (pos 1000 *ℤ a) b)

-- The whole root of `n`, by trying each candidate from `r` down.
unfoldable pub root_below : ℕ → ℕ → ℕ
root_below zero n = 0
root_below (suc r) n = let rest = root_below r n in if leb (suc r * suc r) n then suc r else rest

-- For the small values of the tests.
abbrev root : ℤ → Fixed
root (pos n) = some (pos (root_below 5000 (n * 1000)))
root (negsuc n) = none

-- To the nearest whole number, halves away from zero.
abbrev nearest : ℤ → ℤ
nearest a = sub_ℕ ((pos_part a + 500) / 1000 * 1000) ((neg_part a + 500) / 1000 * 1000)

-- The only power that the program takes is the square.
instance abbrev pub fixed_double : Double Fixed
fixed_double = record {
  add = map₂ λ a b. some (a +ℤ b);
  sub = map₂ λ a b. some (a -ℤ b);
  mul = map₂ λ a b. some (div_ℤ (a *ℤ b) (pos 1000));
  div = map₂ quotient;
  abs = map₁ λ a. some (abs_ℤ a);
  sqrt = map₁ root;
  pow = map₂ λ a _. some (div_ℤ (a *ℤ a) (pos 1000));
  round = map₁ λ a. some (nearest a);
  trunc = λ x. elim x [ none ↦ pos 0 | some a ↦ div_ℤ a (pos 1000) ];
  of_int = λ n. some (pos 1000 *ℤ n);
  lit = λ m k. some (pos (m * 1000 / 10 ^ k));
  lt = on_numbers ltb_ℤ;
  le = on_numbers leb_ℤ;
  eq = on_numbers eqb_ℤ;
  format_2 = λ x. "x";
}

-- Products and quotients of numbers that are not negative.
*ℤ_pos : (a b : ℕ) → pos a *ℤ pos b ≡ pos (a * b)
unfolding ◌*ℤ◌
*ℤ_pos a b = ground arith

div_ℤ_pos : (a b : ℕ) → div_ℤ (pos a) (pos b) ≡ pos (a / b)
unfolding div_ℤ
div_ℤ_pos a b = ground arith

infix 4 ◌⊑◌
abbrev ◌⊑◌ : Fixed → Fixed → Type 0
x ⊑ y = fixed_double.le x y ≡ true

mul_nonneg :
    (x : Fixed) (m k : ℕ)
    → some (pos 0) ⊑ x
    → (some (pos 0) ⊑ fixed_double.mul x (fixed_double.lit m k))
      × (some (pos 0) ⊑ fixed_double.mul (fixed_double.lit m k) x)
mul_nonneg none m k h = (h, h)
mul_nonneg (some (pos a)) m k h = simp (*ℤ_pos, div_ℤ_pos) (ground arith, ground arith)
mul_nonneg (some (negsuc a)) m k h = absurd (ground arith)

quotient_nonneg : (a b : ℕ) → 0 < b → some (pos 0) ⊑ quotient (pos a) (pos b)
quotient_nonneg a b p = simp (*ℤ_pos, div_ℤ_pos) (ground arith)

div_nonneg :
    (x : Fixed) (m : ℕ)
    → 0 < m
    → some (pos 0) ⊑ x
    → some (pos 0) ⊑ fixed_double.div x (fixed_double.lit m 0)
div_nonneg none m p h = h
div_nonneg (some (pos a)) m p h = quotient_nonneg a (m * 1000 / 1) (omega arith)
div_nonneg (some (negsuc a)) m p h = absurd (ground arith)

ratio_nonneg :
    (m n : ℕ)
    → 0 < n
    → some (pos 0) ⊑ fixed_double.div (fixed_double.of_int (pos m)) (fixed_double.of_int (pos n))
ratio_nonneg m n p =
    rw (*ℤ_pos 1000 m, *ℤ_pos 1000 n) (quotient_nonneg (1000 * m) (1000 * n) (omega arith))

pub Fixed-IsDouble : IsDouble Fixed
unfolding ◌+ℤ◌ ◌*ℤ◌ div_ℤ
Fixed-IsDouble = record {
  refl_of_le = ground arith;
  refl_of_lt = ground arith;
  le_trans = ground arith;
  le_total = ground arith;
  lt-eq-not_le = ground arith;
  lit_nonneg = ground arith;
  zero-le-one = ground arith;
  add_nonneg = ground arith;
  mul_nonneg = λ x m k h _. mul_nonneg x m k h;
  div_nonneg = div_nonneg;
  ratio_nonneg = ratio_nonneg;
}
