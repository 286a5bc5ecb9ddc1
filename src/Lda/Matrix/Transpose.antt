-- ===== src/Lda/Matrix/Transpose.antt =====
-- The transposed matrix.
use madlibport.Base.{
  ℕ, ◌+◌, ◌*◌, ◌<◌, ◌≡◌, sym, ◌∙◌, ap, subst, true, false, ◌&&◌, some, List, [], ◌∷◌, arith, length,
  get_elem?, replicate, ◌==◌, get_elem?-some, set?-some, length-set?, get_elem?-set?,
  length-replicate, for_loop-inv_zero, ℕ_discrete,
}
use madlibport.Base.Int.{ℤ, pos}
use madlibport.Base.Outcome.{ok}
use madlibport.Lda.TopicCount.Cell.{same_cell}
use madlibport.Lda.Matrix.{lda_transpose}
use madlibport.Lda.Matrix.Step.{copy_cell, copy_row}

-- A cell of a row-major matrix.
pub cell_bound : (rows cols i j : ℕ) → i < rows → j < cols → i * cols + j < rows * cols
cell_bound rows cols i j hi hj = grind arith

-- The cells of the columns below `i`, and the first `k` of the column `i`.
record Copied (rows cols : ℕ) (matrix : List ℤ) (i k : ℕ) (t : List ℤ) : Type 0 where
  sized : length t ≡ cols * rows
  columns :
      (r c : ℕ)
      → r < i
      → r < rows
      → c < cols
      → get_elem? t (c * rows + r) ≡ get_elem? matrix (r * cols + c)
  column :
      (c : ℕ)
      → i < rows
      → c < k
      → c < cols
      → get_elem? t (c * rows + i) ≡ get_elem? matrix (i * cols + c)

module _ (rows cols : ℕ) (matrix : List ℤ) (full : length matrix ≡ rows * cols) where
  copy_cell-Copied :
      (i k : ℕ) (t : List ℤ)
      → i < rows
      → k < cols
      → Copied rows cols matrix i k t
      → (t' : List ℤ) × (copy_cell rows cols matrix i k t ≡ some t')
        × Copied rows cols matrix i (k + 1) t'
  unfolding copy_cell
  copy_cell-Copied i k t hi hk p =
      let (v, ev) =
        get_elem?-some matrix (i * cols + k) (omega (arith, cell_bound rows cols i k hi hk)) in
      let (t', et) =
        set?-some t (k * rows + i) v (omega (arith, p.sized, cell_bound cols rows k i hk hi)) in
      let g = λ (j : ℕ). get_elem?-set? t (k * rows + i) j v et in
      (
        t',
        rw ev et,
        record {
          sized = length-set? t (k * rows + i) v et ∙ p.sized;
          columns = λ r c hr hr' hc.
              let other : ((k == c) && (i == r)) ≡ false = ground arith in
              g (c * rows + r)
              ∙ rw (same_cell k c rows i r hi hr', other) (p.columns r c hr hr' hc);
          column = λ c hi' hc hc'. elim (ℕ_discrete k c) [
            | yes here ↦
                let this : ((k == c) && (i == i)) ≡ true = ground arith in
                g (c * rows + i)
                ∙ rw (same_cell k c rows i i hi hi, this)
                    (sym ev ∙ ap (λ (n : ℕ). get_elem? matrix (i * cols + n)) here)
            | no there ↦
                let other : ((k == c) && (i == i)) ≡ false = ground arith in
                g (c * rows + i)
                ∙ rw (same_cell k c rows i i hi hi, other) (p.column c hi' (omega arith) hc')
          ];
        },
      )

  copy_row-Copied :
      (i : ℕ) (t : List ℤ)
      → i < rows
      → Copied rows cols matrix i 0 t
      → (t' : List ℤ) × (copy_row rows cols matrix i t ≡ some t')
        × Copied rows cols matrix (i + 1) 0 t'
  unfolding copy_row
  copy_row-Copied i t hi p =
      let (t', e, q) =
        for_loop-inv_zero (Copied rows cols matrix i) (copy_cell rows cols matrix i) cols t
          (λ k u hk q. copy_cell-Copied i k u hi hk q) p in
      (
        t',
        e,
        record {
          sized = q.sized;
          columns = λ r c hr hr' hc. elim (ℕ_discrete r i) [
            | yes here ↦
                subst (λ (n : ℕ). get_elem? t' (c * rows + n) ≡ get_elem? matrix (n * cols + c))
                  (sym here) (q.column c hi hc hc)
            | no there ↦ q.columns r c (omega arith) hr' hc
          ];
          column = λ c hi' hc hc'. absurd (omega arith);
        },
      )

-- `t` has the rows of the matrix as its columns.
pub record IsTransposed (rows cols : ℕ) (matrix t : List ℤ) : Type 0 where
  pub sized : length t ≡ cols * rows
  pub cell :
      (i j : ℕ) → i < rows → j < cols → get_elem? t (j * rows + i) ≡ get_elem? matrix (i * cols + j)

-- `lda_transpose` of a matrix with `rows` rows and `cols` columns returns a matrix with `cols` rows
-- and `rows` columns, and in row j and column i of it stands what stood in row i and column j.
pub lda_transpose-IsTransposed :
    (rows cols : ℕ) (matrix : List ℤ)
    → length matrix ≡ rows * cols
    → (t : List ℤ) × (lda_transpose (rows ∷ cols ∷ []) matrix ≡ ok (cols ∷ rows ∷ [], t))
      × IsTransposed rows cols matrix t
unfolding lda_transpose
lda_transpose-IsTransposed rows cols matrix full =
    let (t, e, q) =
      for_loop-inv_zero (λ i t. Copied rows cols matrix i 0 t) (copy_row rows cols matrix) rows
        (replicate (cols * rows) (pos 0))
        (λ i u hi q. copy_row-Copied rows cols matrix full i u hi q)
        (record {
          sized = length-replicate (cols * rows) (pos 0);
          columns = λ r c h. absurd (omega arith);
          column = λ c h h'. absurd (omega arith);
        }) in
    (t, rw e, record { sized = q.sized; cell = λ i j hi hj. q.columns i j hi hi hj })
