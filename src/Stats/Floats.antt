-- ===== src/Stats/Floats.antt =====
-- utils/Math.hpp: almostEqual, and what it and the rank tests ask of <cmath> and <limits>.
use madlibport.Base.{ℕ, Bool, not, ◌&&◌, ◌||◌, if◌then◌else◌}
use madlibport.Doubles.{Double}

pub record Floating (D : Type 0) : Type 0 where
  pub is_finite : D → Bool
  pub is_infinite : D → Bool
  pub is_nan : D → Bool
  pub epsilon : D

module _ {D : Type 0} ⦃d : Double D⦄ ⦃f : Floating D⦄ where
  open d use {nought, of_uint, neg, sub, mul, lt, le}
  open f use {is_infinite, epsilon}

  abbrev pub fabs : D → D
  fabs x = if lt x nought then neg x else x

  abbrev max : D → D → D
  max x y = if lt x y then y else x

  abbrev same_sign : D → D → Bool
  same_sign x y = if lt x nought then lt y nought else not (lt y nought)

  -- `ulp` is in units in the last place.
  unfoldable pub almost_equal : D → D → ℕ → Bool
  almost_equal x y ulp =
      le (fabs (sub x y)) (mul (mul epsilon (max (fabs x) (fabs y))) (of_uint ulp))
      || (is_infinite x && (is_infinite y && same_sign x y))
