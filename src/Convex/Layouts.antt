-- ===== src/Convex/Layouts.antt =====
-- The arrays of doubles behind the other states of type/state.hpp and behind `ScalesState` of
-- utils_regularization.cpp: their sizes, and where `rebind` puts the fields. Dimensions, sizes and
-- offsets are in 32 bits; the dimension of Newton's method has 16 bits.
use madlibport.Base.{ℕ, ◌+◌, ◌*◌, ◌%◌, ◌^◌, ◌<◌, ◌≡◌, refl, List, [], ◌∷◌, arith, ◌↔◌}
use madlibport.Convex.Lmf.Layout.{Tiles, rebind_fields, array_size, rebind_fields-Tiles_iff}

abbrev uint32 : ℕ → ℕ
uint32 n = n % 2 ^ 32

-- `GLMIGDState`: dimension, stepsize, model; number of rows, loss, incremental model.
abbrev pub igd_size : ℕ → ℕ
igd_size dim = uint32 (4 + 2 * dim)

unfoldable pub igd_fields : ℕ → List (ℕ × ℕ)
igd_fields dim =
    (0, 1)
    ∷ (1, 1)
    ∷ (2, dim)
    ∷ (uint32 (2 + dim), 1)
    ∷ (uint32 (3 + dim), 1)
    ∷ (uint32 (4 + dim), dim)
    ∷ []

-- `RegularizedGLMIGDState`: dimension, stepsize, lambda, number of all rows, model; number of rows,
-- loss, incremental model, gradient.
abbrev pub regularized_size : ℕ → ℕ
regularized_size dim = uint32 (6 + 3 * dim)

unfoldable pub regularized_fields : ℕ → List (ℕ × ℕ)
regularized_fields dim =
    (0, 1)
    ∷ (1, 1)
    ∷ (2, 1)
    ∷ (3, 1)
    ∷ (4, dim)
    ∷ (uint32 (4 + dim), 1)
    ∷ (uint32 (5 + dim), 1)
    ∷ (uint32 (6 + dim), dim)
    ∷ (uint32 (6 + 2 * dim), dim)
    ∷ []

-- `GLMCGState`: dimension, iteration, stepsize, model, direction, gradient; number of rows, loss,
-- incremental gradient.
abbrev pub cg_size : ℕ → ℕ
cg_size dim = uint32 (5 + 4 * dim)

unfoldable pub cg_fields : ℕ → List (ℕ × ℕ)
cg_fields dim =
    (0, 1)
    ∷ (1, 1)
    ∷ (2, 1)
    ∷ (3, dim)
    ∷ (uint32 (3 + dim), dim)
    ∷ (uint32 (3 + 2 * dim), dim)
    ∷ (uint32 (3 + 3 * dim), 1)
    ∷ (uint32 (4 + 3 * dim), 1)
    ∷ (uint32 (5 + 3 * dim), dim)
    ∷ []

-- `GLMNewtonState`: dimension, model; number of rows, loss, gradient, Hessian.
abbrev pub newton_size : ℕ → ℕ
newton_size dim = uint32 (3 + (dim + 2) * dim)

unfoldable pub newton_fields : ℕ → List (ℕ × ℕ)
newton_fields dim =
    (0, 1) ∷ (1, dim) ∷ (1 + dim, 1) ∷ (2 + dim, 1) ∷ (3 + dim, dim) ∷ (3 + 2 * dim, dim * dim) ∷ []

-- `ScalesState`: dimension, number of rows, mean, deviation.
abbrev pub scales_size : ℕ → ℕ
scales_size dim = uint32 (2 + 2 * dim)

unfoldable pub scales_fields : ℕ → List (ℕ × ℕ)
scales_fields dim = (0, 1) ∷ (1, 1) ∷ (2, dim) ∷ (uint32 (2 + dim), dim) ∷ []

module _ (dim : ℕ) (fits : dim < 2 ^ 32) where
  igd_fields-Tiles_iff : Tiles 0 (igd_fields dim) (igd_size dim) ↔ (4 + 2 * dim < 2 ^ 32)
  unfolding igd_fields
  igd_fields-Tiles_iff = (
    λ t. omega (arith, t.1.1.1.0, t.1.1.1.1.0, t.1.1.1.1.1.0, t.1.1.1.1.1.1),
    λ h. (refl, (refl, (refl, (omega arith, (omega arith, (omega arith, omega arith)))))),
  )

  regularized_fields-Tiles_iff :
      Tiles 0 (regularized_fields dim) (regularized_size dim) ↔ (6 + 3 * dim < 2 ^ 32)
  unfolding regularized_fields
  regularized_fields-Tiles_iff = (
    λ t. let u = t.1.1.1.1.1 in omega (arith, u.0, u.1.0, u.1.1.0, u.1.1.1.0, u.1.1.1.1),
    λ h. (
      refl,
      (
        refl,
        (
          refl,
          (refl, (refl, (omega arith, (omega arith, (omega arith, (omega arith, omega arith)))))),
        ),
      ),
    ),
  )

  cg_fields-Tiles_iff : Tiles 0 (cg_fields dim) (cg_size dim) ↔ (5 + 4 * dim < 2 ^ 32)
  unfolding cg_fields
  cg_fields-Tiles_iff = (
    λ t.
        let u = t.1.1.1.1 in
        omega (arith, u.0, u.1.0, u.1.1.0, u.1.1.1.0, u.1.1.1.1.0, u.1.1.1.1.1),
    λ h. (
      refl,
      (
        refl,
        (
          refl,
          (
            refl,
            (omega arith, (omega arith, (omega arith, (omega arith, (omega arith, omega arith))))),
          ),
        ),
      ),
    ),
  )

  scales_fields-Tiles_iff : Tiles 0 (scales_fields dim) (scales_size dim) ↔ (2 + 2 * dim < 2 ^ 32)
  unfolding scales_fields
  scales_fields-Tiles_iff = (
    λ t. omega (arith, t.1.1.1.0, t.1.1.1.1),
    λ h. (refl, (refl, (refl, (omega arith, omega arith)))),
  )

newton_fields-Tiles_iff :
    (dim : ℕ) → Tiles 0 (newton_fields dim) (newton_size dim) ↔ (3 + (dim + 2) * dim < 2 ^ 32)
unfolding newton_fields
newton_fields-Tiles_iff dim =
    let square : (dim + 2) * dim ≡ dim * dim + 2 * dim = grind arith in
    (
      λ t. omega (arith, t.1.1.1.1.1.1),
      λ h. (refl, (refl, (omega arith, (omega arith, (omega arith, (omega arith, omega arith)))))),
    )

-- Each array is divided by its fields if and only if its size is not cut.
abbrev pub TileWhenWhole : ℕ → ℕ → ℕ → ℕ → ℕ → Type 0
TileWhenWhole row_dim col_dim max_rank dim newton_dim =
    (Tiles 0 (rebind_fields row_dim col_dim max_rank) (array_size row_dim col_dim max_rank)
      ↔ (8 + 2 * ((row_dim + col_dim) * max_rank) < 2 ^ 32))
    × (Tiles 0 (igd_fields dim) (igd_size dim) ↔ (4 + 2 * dim < 2 ^ 32))
    × (Tiles 0 (regularized_fields dim) (regularized_size dim) ↔ (6 + 3 * dim < 2 ^ 32))
    × (Tiles 0 (cg_fields dim) (cg_size dim) ↔ (5 + 4 * dim < 2 ^ 32))
    × (Tiles 0 (newton_fields newton_dim) (newton_size newton_dim)
        ↔ (3 + (newton_dim + 2) * newton_dim < 2 ^ 32))
    × (Tiles 0 (scales_fields dim) (scales_size dim) ↔ (2 + 2 * dim < 2 ^ 32))

-- For each of the six states, with a dimension below 2^32 where it is a uint32_t, the fields divide the
-- allocated array among them, with no gap, no overlap and none beyond its end, if and only if the size
-- of the array is not cut to 32 bits.
pub layouts-TileWhenWhole :
    (row_dim col_dim max_rank dim newton_dim : ℕ)
    → dim < 2 ^ 32
    → TileWhenWhole row_dim col_dim max_rank dim newton_dim
layouts-TileWhenWhole row_dim col_dim max_rank dim newton_dim fits = (
  rebind_fields-Tiles_iff row_dim col_dim max_rank,
  igd_fields-Tiles_iff dim fits,
  regularized_fields-Tiles_iff dim fits,
  cg_fields-Tiles_iff dim fits,
  newton_fields-Tiles_iff newton_dim,
  scales_fields-Tiles_iff dim fits,
)
