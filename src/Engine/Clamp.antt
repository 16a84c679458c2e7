-- ===== src/Engine/Clamp.antt =====
-- internal/engine/pipeline.go, `clamp`: what it does to numbers.
use mirador_rca.Prelude.{arith, if◌then◌else◌}
use mirador_rca.Double.{Double, ◌≼◌, IsDouble, IsNumber}

module _ {F : Type 0} ⦃d : Double F⦄ where
  -- `clamp`
  pub clamp : F → F → F → F
  clamp value low high = if d.lt value low then low else if d.lt high value then high else value

  abbrev pub IsUnit : F → Type 0
  IsUnit x = (d.lit 0 0 ≼ x) × (x ≼ d.lit 1 0)

  module _ (laws : IsDouble F) where
    open laws use {refl_of_le, lt-eq-not_le, le_total}

    -- A number that is clamped lies in the range, whatever the number is.
    pub clamp_bounds :
        (value low high : F)
        → IsNumber value
        → low ≼ high
        → (low ≼ clamp value low high) × (clamp value low high ≼ high)
    unfolding clamp
    clamp_bounds value low high n h =
        let (ln, hn) = refl_of_le low high h in
        ground (
          arith,
          lt-eq-not_le value low n ln,
          lt-eq-not_le high value hn n,
          le_total value low n ln,
          le_total high value hn n,
        )
