-- ===== src/Lda/Matrix/Step.antt =====
-- The loops of `lda_transpose::run`, and the calls of `lda_unnest::SRF_next`.
use madlibport.Base.{
  ℕ, zero, suc, ◌+◌, ◌*◌, Option, none, some, List, [], ◌∷◌, get_elem?, set?, ◌>>=◌,
}
use madlibport.Base.Int.{ℤ}
use madlibport.Base.{for_loop}

-- `transposed[j * row_num + i] = matrix[index]`
unfoldable pub copy_cell : ℕ → ℕ → List ℤ → ℕ → ℕ → List ℤ → Option (List ℤ)
copy_cell row_num col_num matrix i j transposed = do
  v ← get_elem? matrix (i * col_num + j)
  set? transposed (j * row_num + i) v

unfoldable pub copy_row : ℕ → ℕ → List ℤ → ℕ → List ℤ → Option (List ℤ)
copy_row row_num col_num matrix i transposed =
    for_loop 0 col_num (copy_cell row_num col_num matrix i) transposed

pub record SrCtx : Type 0 where
  pub inarray : List ℤ
  pub maxcall : ℕ
  pub dim : ℕ
  pub curcall : ℕ

-- `memcpy` of `len` elements from the element `start` on.
abbrev pub copy_from : List ℤ → ℕ → ℕ → Option (List ℤ)
copy_from xs start zero = some []
copy_from xs start (suc len) = do
  x ← get_elem? xs start
  rest ← copy_from xs (start + 1) len
  some (x ∷ rest)

-- `none` for a call behind the last row.
unfoldable pub unnest_next : SrCtx → Option (Option (List ℤ × SrCtx))
unnest_next ctx = elim ctx.maxcall [
  | zero ↦ some none
  | suc left ↦ copy_from ctx.inarray (ctx.curcall * ctx.dim) ctx.dim >>= λ row. some (
      some (
        row,
        record { inarray = ctx.inarray; maxcall = left; dim = ctx.dim; curcall = ctx.curcall + 1 },
      ))
]

-- The database calls until there is no row any more.
unfoldable pub unnest_rows : ℕ → SrCtx → Option (List (List ℤ))
unnest_rows zero ctx = none
unnest_rows (suc fuel) ctx = unnest_next ctx >>= λ r. elim r [
  | none ↦ some []
  | some (row, ctx') ↦ unnest_rows fuel ctx' >>= λ rows. some (row ∷ rows)
]
