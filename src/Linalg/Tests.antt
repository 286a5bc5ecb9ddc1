-- ===== src/Linalg/Tests.antt =====
-- Small matrices.
use madlibport.Base.{
  ℕ, zero, suc, ◌+◌, ◌*◌, ◌<◌, ◌≡◌, refl, true, some, none, List, [], ◌∷◌, arith, length, get_elem?,
  replicate, ◌==◌, if◌then◌else◌, length-replicate,
}
use madlibport.Base.Int.{pos}
use madlibport.Base.Outcome.{ok, faults}
use madlibport.Doubles.{Hundredths, hundredths_double}
use madlibport.Linalg.MatrixOp.{matrix_mem_mult}
use madlibport.Linalg.MatrixOp.Product.{HasEntries, sum_of_products, matrix_mem_mult-HasEntries}
use madlibport.Linalg.MatrixOp.Sum.{mem_sum_run, sum_entries, mem_sum_run-HasEntries}
use madlibport.Linalg.MatrixOp.Blocks.{blockize_run, put_rows, blockize_run-HasEntries}
use madlibport.Linalg.MatrixOp.Split.{SplitCtx, split_init, split_rows}
use madlibport.Linalg.MatrixOp.Pieces.{ArePieces, split_rows-ArePieces}
use madlibport.Linalg.MatrixOp.Joined.{unblockize_run, row_split-unblockize}
use madlibport.Linalg.MatrixOp.Pieces.{join}
use madlibport.Linalg.MatrixAgg.{
  matrix_agg_transition, matrix_agg_run, matrix_agg_final, fresh_storage,
}
use madlibport.Linalg.MatrixAgg.Columns.{matrix_agg-columns}
use madlibport.Linalg.MatrixAgg.Limit.{matrix_agg-faults}

-- One row with 1.00 and 2.00.
abbrev row : List Hundredths
row = pos 100 ∷ pos 200 ∷ []

abbrev entry : ℕ → ℕ → Hundredths
entry i j = if j == 0 then pos 100 else pos 200

row_entry : (i j : ℕ) → i < 1 → j < 2 → get_elem? row (i * 2 + j) ≡ some (entry i j)
row_entry zero zero h k = refl
row_entry zero (suc zero) h k = refl
row_entry zero (suc (suc j)) h k = absurd (omega arith)
row_entry (suc i) j h k = absurd (omega arith)

row-HasEntries : HasEntries 1 2 row entry
row-HasEntries = record { sized = refl; entry = row_entry }

-- The product with the transposed row.
abbrev SmallProduct : Type 0
SmallProduct =
    (r : List Hundredths) × (matrix_mem_mult (1 ∷ 2 ∷ []) row (1 ∷ 2 ∷ []) row true
      ≡ ok (record { sizes = 1 ∷ 1 ∷ []; cells = r }))
    × HasEntries 1 1 r
        (λ i k. sum_of_products (λ j. hundredths_double.mul (entry i j) (entry k j)) 2)

matrix_mem_mult-HasEntries_example : SmallProduct
matrix_mem_mult-HasEntries_example =
    matrix_mem_mult-HasEntries true 1 2 1 2 row row entry entry row-HasEntries row-HasEntries refl

abbrev SmallSum : Type 0
SmallSum =
    (r : List Hundredths) × (mem_sum_run 1 2 none (row ∷ row ∷ [])
      ≡ ok (some (record { sizes = 1 ∷ 2 ∷ []; cells = r })))
    × HasEntries 1 2 r (sum_entries (λ i j. pos 0) (entry ∷ entry ∷ []))

mem_sum_run-HasEntries_example : SmallSum
mem_sum_run-HasEntries_example =
    mem_sum_run-HasEntries 1 2 row (row ∷ []) entry (entry ∷ []) row-HasEntries (row-HasEntries, tt)

row_cell : (j : ℕ) → j < 2 → get_elem? row j ≡ some (entry 0 j)
row_cell zero h = refl
row_cell (suc zero) h = refl
row_cell (suc (suc j)) h = absurd (omega arith)

-- The row with the number 3 in a block of two.
abbrev SmallBlock : Type 0
SmallBlock =
    (r : List Hundredths) × (blockize_run (pos 2) none ((3, row) ∷ [])
      ≡ ok (some (record { sizes = 2 ∷ 2 ∷ []; cells = r })))
    × HasEntries 2 2 r (put_rows 2 (λ i j. pos 0) ((3, row) ∷ []) (entry 0 ∷ []))

blockize_run-HasEntries_example : SmallBlock
blockize_run-HasEntries_example =
    blockize_run-HasEntries 1 2 3 row [] (entry 0) [] ((refl, row_cell), tt)

abbrev three : List Hundredths
three = pos 100 ∷ pos 200 ∷ pos 300 ∷ []

-- Three elements in rows of two.
abbrev SmallPieces : Type 0
SmallPieces =
    (ctx : SplitCtx Hundredths) × (split_init three (pos 2) ≡ some ctx)
    × (rows : List (List Hundredths)) × (split_rows 3 ctx ≡ some rows)
    × (length rows ≡ 2)
    × ArePieces 2 three rows

split_rows-ArePieces_example : SmallPieces
split_rows-ArePieces_example = split_rows-ArePieces three 1

abbrev SmallJoin : Type 0
SmallJoin =
    (ctx : SplitCtx Hundredths) × (split_init three (pos 2) ≡ some ctx)
    × (rows : List (List Hundredths)) × (split_rows 3 ctx ≡ some rows)
    × (unblockize_run 3 none 0 rows ≡ ok (some three))

row_split-unblockize_example : SmallJoin
row_split-unblockize_example = row_split-unblockize three 1 (omega arith)

-- Two columns of two elements.
abbrev SmallColumns : Type 0
SmallColumns =
    (storage : ℕ × ℕ × List Hundredths) × (matrix_agg_run fresh_storage (row ∷ row ∷ [])
      ≡ ok storage)
    × (matrix_agg_final storage ≡ ok (2, 2, join (row ∷ row ∷ [])))

matrix_agg-columns_example : SmallColumns
matrix_agg-columns_example = matrix_agg-columns 2 row (row ∷ []) (refl, (refl, tt)) (omega arith)

many : List Hundredths
many = replicate 32769 (pos 0)

matrix_agg-faults_example : matrix_agg_transition (1, 32769, many) (pos 100 ∷ []) ≡ faults
unfolding many
matrix_agg-faults_example =
    matrix_agg-faults 1 many (pos 100 ∷ []) (omega (arith, length-replicate 32769 (pos 0))) refl
