-- ===== src/Linalg/MatrixOp/Split.antt =====
-- The set-returning functions of matrix_op.cpp: `row_split` and `unnest_block`.
use madlibport.Base.{
  ℕ, zero, suc, ◌+◌, ◌*◌, ◌/◌, ◌%◌, not, ◌&&◌, Option, none, some, List, [], ◌∷◌, length, replicate,
  ◌==◌, if◌then◌else◌, ◌>>=◌, memcpy,
}
use madlibport.Base.Int.{ℤ, pos, negsuc}
use madlibport.Doubles.{Double}

-- `sr_ctx1`
pub record SplitCtx (D : Type 0) : Type 0 where
  pub inarray : List D
  pub dim : ℕ
  pub maxcall : ℕ
  pub size : ℕ
  pub curcall : ℕ

-- `sr_ctx2`
pub record BlockCtx (D : Type 0) : Type 0 where
  pub inarray : List D
  pub maxcall : ℕ
  pub dim : ℕ
  pub curcall : ℕ

module _ {D : Type 0} ⦃d : Double D⦄ where
  -- `row_split::SRF_init`. The quotient of two `int32_t` in doubles is not rounded over an integer,
  -- so `ceil` of it is the quotient rounded up. `none` is the error on a size that is not positive.
  unfoldable pub split_init : List D → ℤ → Option (SplitCtx D)
  split_init inarray (negsuc n) = none
  split_init inarray (pos zero) = none
  split_init inarray (pos (suc m)) = some (record {
    inarray = inarray;
    dim = length inarray;
    maxcall = (length inarray + m) / suc m;
    size = suc m;
    curcall = 0;
  })

  -- The number of elements in the next row.
  unfoldable pub split_size : SplitCtx D → ℕ
  split_size ctx =
      if ctx.maxcall == 1 && not (ctx.dim % ctx.size == 0) then ctx.dim % ctx.size else ctx.size

  -- `row_split::SRF_next`: `some none` for the call that is the last one.
  unfoldable pub split_next : SplitCtx D → Option (Option (List D × (SplitCtx D)))
  unfolding split_size
  split_next ctx = elim ctx.maxcall [
    | zero ↦ some none
    | suc left ↦
        memcpy (replicate (split_size ctx) d.nought) 0 ctx.inarray (ctx.curcall * ctx.size)
          (split_size ctx)
        >>= λ outarray.
            some (some (outarray, record ctx { curcall = ctx.curcall + 1; maxcall = left }))
  ]

  -- The database calls until there is no row any more.
  unfoldable pub split_rows : ℕ → SplitCtx D → Option (List (List D))
  split_rows zero ctx = none
  split_rows (suc fuel) ctx = split_next ctx >>= λ r. elim r [
    | none ↦ some []
    | some (row, ctx') ↦ split_rows fuel ctx' >>= λ rows. some (row ∷ rows)
  ]

  -- `unnest_block`; `none` is the error on an array that is not a matrix.
  unfoldable pub block_init : List ℕ → List D → Option (BlockCtx D)
  block_init (rows ∷ cols ∷ []) inarray =
      some (record { inarray = inarray; maxcall = rows; dim = cols; curcall = 0 })
  block_init sizes inarray = none

  unfoldable pub block_next : BlockCtx D → Option (Option (List D × (BlockCtx D)))
  block_next ctx = elim ctx.maxcall [
    | zero ↦ some none
    | suc left ↦
        memcpy (replicate ctx.dim d.nought) 0 ctx.inarray (ctx.curcall * ctx.dim) ctx.dim
        >>= λ outarray.
            some (some (outarray, record ctx { curcall = ctx.curcall + 1; maxcall = left }))
  ]

  unfoldable pub block_rows : ℕ → BlockCtx D → Option (List (List D))
  block_rows zero ctx = none
  block_rows (suc fuel) ctx = block_next ctx >>= λ r. elim r [
    | none ↦ some []
    | some (row, ctx') ↦ block_rows fuel ctx' >>= λ rows. some (row ∷ rows)
  ]
