-- ===== src/Double.antt =====
-- `float64` as far as the program uses it: a type with Go's operations as a parameter. Comparisons
-- are Boolean, so a value that is not `le` itself is NaN.
pub mod Fixed
use mirador_rca.Prelude.{ℕ, ◌<◌, ◌≡◌, ◌⊎◌, Bool, true, false, not, String}
use mirador_rca.Prelude.Int.{ℤ, pos}

pub record Double {ℓ} (F : Type ℓ) : Type ℓ where
  pub add : F → F → F
  pub sub : F → F → F
  pub mul : F → F → F
  pub div : F → F → F
  pub abs : F → F
  pub sqrt : F → F
  -- `math.Pow`
  pub pow : F → F → F
  -- `math.Round`
  pub round : F → F
  -- `int(x)`
  pub trunc : F → ℤ
  -- `float64(n)`
  pub of_int : ℤ → F
  -- The literal m / 10 ^ k.
  pub lit : ℕ → ℕ → F
  pub lt : F → F → Bool
  pub le : F → F → Bool
  pub eq : F → F → Bool
  -- `%.2f`
  pub format_2 : F → String

infix 4 ◌≼◌
abbrev pub ◌≼◌ {ℓ} : {F : Type ℓ} ⦃d : Double F⦄ → F → F → Type 0
◌≼◌ ⦃d⦄ x y = d.le x y ≡ true

-- A number is what is not NaN.
abbrev pub IsNumber {ℓ} : {F : Type ℓ} ⦃d : Double F⦄ → F → Type 0
IsNumber x = x ≼ x

-- The facts of IEEE 754 that the theorems rest on: the order away from NaN, comparisons with NaN are
-- false, and signs of sums, products and quotients of numbers that are not negative.
pub record IsDouble {ℓ} (F : Type ℓ) ⦃d : Double F⦄ : Type ℓ where
  pub refl_of_le : (x y : F) → x ≼ y → IsNumber x × IsNumber y
  pub refl_of_lt : (x y : F) → d.lt x y ≡ true → IsNumber x × IsNumber y
  pub le_trans : (x y z : F) → x ≼ y → y ≼ z → x ≼ z
  pub le_total : (x y : F) → IsNumber x → IsNumber y → (x ≼ y) ⊎ (y ≼ x)
  pub lt-eq-not_le : (x y : F) → IsNumber x → IsNumber y → d.lt x y ≡ not (d.le y x)
  pub lit_nonneg : (m k : ℕ) → d.lit 0 0 ≼ d.lit m k
  pub zero-le-one : d.lit 0 0 ≼ d.lit 1 0
  pub add_nonneg : (x y : F) → d.lit 0 0 ≼ x → d.lit 0 0 ≼ y → d.lit 0 0 ≼ d.add x y
  pub mul_nonneg :
      (x : F) (m k : ℕ)
      → d.lit 0 0 ≼ x
      → x ≼ d.lit 1 0
      → (d.lit 0 0 ≼ d.mul x (d.lit m k)) × (d.lit 0 0 ≼ d.mul (d.lit m k) x)
  pub div_nonneg : (x : F) (m : ℕ) → 0 < m → d.lit 0 0 ≼ x → d.lit 0 0 ≼ d.div x (d.lit m 0)
  pub ratio_nonneg : (m n : ℕ) → 0 < n → d.lit 0 0 ≼ d.div (d.of_int (pos m)) (d.of_int (pos n))
