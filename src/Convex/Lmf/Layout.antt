-- ===== src/Convex/Lmf/Layout.antt =====
-- The storage of `LMFIGDState` (type/state.hpp) as an array of doubles: its size, and where `rebind`
-- puts the fields. The products of dimensions are written as they are without overflow of an `int`;
-- lengths, and the sums with one, are in 32 bits.
use madlibport.Base.{
  ℕ, ◌+◌, ◌*◌, ◌%◌, ◌^◌, ◌<◌, ◌≡◌, refl, List, [], ◌∷◌, arith, ◌↔◌, Option, some, none, ltb,
  if◌then◌else◌,
}

abbrev pub model_size : ℕ → ℕ → ℕ → ℕ
model_size row_dim col_dim max_rank = (row_dim + col_dim) * max_rank % 2 ^ 32

abbrev pub array_size : ℕ → ℕ → ℕ → ℕ
array_size row_dim col_dim max_rank = (8 + 2 * model_size row_dim col_dim max_rank) % 2 ^ 32

-- `allocate`: where the size is cut to 32 bits, `rebind` puts fields beyond the end of the storage, which
-- `reset` and `initialize` then write.
unfoldable pub allocate : ℕ → ℕ → ℕ → Option ℕ
allocate row_dim col_dim max_rank =
    if ltb (8 + 2 * ((row_dim + col_dim) * max_rank)) (2 ^ 32)
    then some (array_size row_dim col_dim max_rank)
    else none

-- Where each field begins and its number of elements: the five parameters, U and V, the RMSE, the
-- number of rows, the loss, and U and V of the incremental model.
unfoldable pub rebind_fields : ℕ → ℕ → ℕ → List (ℕ × ℕ)
rebind_fields row_dim col_dim max_rank =
    let model_length = model_size row_dim col_dim max_rank in
    let u = row_dim * max_rank in
    let v = col_dim * max_rank in
    (0, 1)
    ∷ (1, 1)
    ∷ (2, 1)
    ∷ (3, 1)
    ∷ (4, 1)
    ∷ (5, u)
    ∷ (5 + u, v)
    ∷ ((5 + model_length) % 2 ^ 32, 1)
    ∷ ((6 + model_length) % 2 ^ 32, 1)
    ∷ ((7 + model_length) % 2 ^ 32, 1)
    ∷ ((8 + model_length) % 2 ^ 32, u)
    ∷ ((8 + model_length + u) % 2 ^ 32, v)
    ∷ []

-- Each field begins where the one before ends, and the last one ends at `end`.
abbrev pub Tiles : ℕ → List (ℕ × ℕ) → ℕ → Type 0
Tiles at [] end = at ≡ end
Tiles at ((start, len) ∷ fields) end = (start ≡ at) × Tiles (start + len) fields end

-- The fields divide the allocated array among them, with no gap, no overlap and none beyond its end,
-- if and only if its size is not cut to 32 bits.
pub rebind_fields-Tiles_iff :
    (row_dim col_dim max_rank : ℕ)
    → Tiles 0 (rebind_fields row_dim col_dim max_rank) (array_size row_dim col_dim max_rank)
      ↔ (8 + 2 * ((row_dim + col_dim) * max_rank) < 2 ^ 32)
unfolding rebind_fields
rebind_fields-Tiles_iff row_dim col_dim max_rank =
    let split : (row_dim + col_dim) * max_rank ≡ row_dim * max_rank + col_dim * max_rank =
      grind arith in
    (
      λ tiles.
          let rmse = tiles.1.1.1.1.1.1.1.0 in
          let end = tiles.1.1.1.1.1.1.1.1.1.1.1.1 in omega arith,
      λ fits.
          let whole : model_size row_dim col_dim max_rank ≡ (row_dim + col_dim) * max_rank =
            omega arith in
          (
            refl,
            (
              refl,
              (
                refl,
                (
                  refl,
                  (
                    refl,
                    (
                      refl,
                      (
                        refl,
                        (
                          omega arith,
                          (omega arith, (omega arith, (omega arith, (omega arith, omega arith)))),
                        ),
                      ),
                    ),
                  ),
                ),
              ),
            ),
          ),
    )
