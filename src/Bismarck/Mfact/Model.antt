-- ===== src/Bismarck/Mfact/Model.antt =====
-- A step of matrix factorization on a whole model: which cells move, and how.
use madlibport.Base.{
  some, Returns, Returns-of, ℕ, ◌+◌, ◌-◌, ◌*◌, ◌≤◌, ◌<◌, ◌≡◌, refl, ◌∙◌, subst, inl, inr, some,
  List, arith, length, get_elem?, in_range, Bool-cases,
}
use madlibport.Doubles.{Double}
use madlibport.Bismarck.Linalg.{simple_dot, simple_dot-Readable_iff, Readable}
use madlibport.Bismarck.Mfact.{
  Cell, real, real_at, lr_pointers, Block, mf_step, mf_predict, start_block,
}
use madlibport.Bismarck.Mfact.Layout.{row_fits, offset_of, real_at_of, IsModel}
use madlibport.Bismarck.Mfact.Rows.{AreReal}
use madlibport.Bismarck.Mfact.Moved.{BothMoved, stepped_cell, mf_igd_step_lem}

module _ {D : Type 0} ⦃d : Double D⦄ where
  open d use {nought, one, hundredth, of_uint, neg, add, sub, mul, div}

  -- The step at a row and a column of the model `mem`, as an inner product and a new value for each
  -- cell.
  abbrev pub MfSteps :
      ℕ
      → ℕ
      → ℕ
      → D
      → List (Cell D)
      → ℕ
      → ℕ
      → Cell D
      → D
      → Block D
      → D
      → D
      → D
      → List ℕ
      → List ℕ
      → ℕ
      → ℕ
      → Type 0
  MfSteps rows cols rank mean mem row col fill val block step mu mean' rowdeg coldeg row_deg
        col_deg =
      Returns
        (λ dot.
          Returns
            (λ b.
              (b.len ≡ block.len)
              × Returns
                  (λ mem'.
                    IsModel rows cols rank mean mem'
                    × ((i : ℕ)
                        → get_elem? mem' i
                          ≡ stepped_cell (4 + row * rank) (4 + rows * rank + col * rank) rank
                              (sub one (div (mul mu step) (of_uint row_deg)))
                              (sub one (div (mul mu step) (of_uint col_deg)))
                              (mul (mul (neg one) step) (sub (add dot mean') val)) mem i))
                  b.str)
            (mf_step fill row col val block step mu mean' rank rowdeg coldeg))
        (simple_dot (λ j. real_at mem ((4 + row * rank) + j))
          (λ j. real_at mem ((4 + rows * rank + col * rank) + j)) rank)

  module _ (rows cols rank : ℕ) (mean : D) (mem : List (Cell D))
      (model : IsModel rows cols rank mean mem) (row col : ℕ) (row_lt : row < rows)
      (col_lt : col < cols) where
    abbrev l_row : ℕ
    l_row = 4 + row * rank

    abbrev r_row : ℕ
    r_row = 4 + rows * rank + col * rank

    rows_apart : l_row + rank ≤ r_row
    rows_apart = omega (arith, row_fits row rows rank row_lt)

    rows_fit : r_row + rank ≤ length mem
    rows_fit = omega (arith, row_fits col cols rank col_lt, model.size)

    l_row-AreReal : AreReal mem l_row rank
    l_row-AreReal j h = model.reals (l_row + j) (omega arith) (omega (arith, rows_apart, rows_fit))

    r_row-AreReal : AreReal mem r_row rank
    r_row-AreReal j h = model.reals (r_row + j) (omega arith) (omega (arith, rows_fit))

    lr_pointers_lem : lr_pointers mem ≡ some (4, 4 + rows * rank)
    lr_pointers_lem = rw (model.rows_cell, model.rank_cell)

    BothMoved-IsModel :
        (scal_l scal_r a : D) (mem' : List (Cell D))
        → BothMoved l_row r_row rank scal_l scal_r a mem mem'
        → IsModel rows cols rank mean mem'
    BothMoved-IsModel scal_l scal_r a mem' b = record {
      size = b.same_length ∙ model.size;
      rows_cell = header 0 (omega arith) ∙ model.rows_cell;
      cols_cell = header 1 (omega arith) ∙ model.cols_cell;
      rank_cell = header 2 (omega arith) ∙ model.rank_cell;
      mean_cell = header 3 (omega arith) ∙ model.mean_cell;
      reals = λ i lo hi. cell i lo (omega (arith, b.same_length));
    }
      where
        header : (i : ℕ) → i < 4 → get_elem? mem' i ≡ get_elem? mem i
        header i h = b.outside i (ground arith) (ground arith)

        cell : (i : ℕ) → 4 ≤ i → i < length mem → (u : D) × (get_elem? mem' i ≡ some (real u))
        cell i lo hi = elim (Bool-cases (in_range l_row rank i)) [
          | inl l ↦
              let (le, lt) = offset_of l_row rank i l in
              let (u, eu) = l_row-AreReal (i - l_row) lt in
              let (v, ev) = r_row-AreReal (i - l_row) lt in
              (
                add (mul u scal_l) (mul a v),
                subst (λ (k : ℕ). get_elem? mem' k ≡ some (real (add (mul u scal_l) (mul a v))))
                    (omega arith) (b.l_moved (i - l_row) u v lt eu ev),
              )
          | inr nl ↦ elim (Bool-cases (in_range r_row rank i)) [
            | inl r ↦
                let (le, lt) = offset_of r_row rank i r in
                let (u, eu) = l_row-AreReal (i - r_row) lt in
                let (v, ev) = r_row-AreReal (i - r_row) lt in
                (
                  add (mul v scal_r) (mul a u),
                  subst (λ (k : ℕ). get_elem? mem' k ≡ some (real (add (mul v scal_r) (mul a u))))
                      (omega arith) (b.r_moved (i - r_row) u v lt eu ev),
                )
            | inr nr ↦ let (u, eu) = model.reals i lo hi in (u, b.outside i nl nr ∙ eu)
          ]
        ]

    pub mf_step_cells :
        (fill : Cell D) (val : D) (block : Block D) (step mu mean' : D) (rowdeg coldeg : List ℕ)
        (row_deg col_deg : ℕ)
        → start_block block.str fill (length rowdeg) (length coldeg) rank mean' ≡ some mem
        → get_elem? rowdeg row ≡ some row_deg
        → get_elem? coldeg col ≡ some col_deg
        → (dot : D) × (mem' : List (Cell D)) × (simple_dot
              (λ j. real_at mem (l_row + j))
              (λ j. real_at mem (r_row + j))
              rank
            ≡ some dot)
          × (mf_step fill row col val block step mu mean' rank rowdeg coldeg
              ≡ some (record block { str = some mem' }))
          × IsModel rows cols rank mean mem'
          × BothMoved l_row r_row rank
              (sub one (div (mul mu step) (of_uint row_deg)))
              (sub one (div (mul mu step) (of_uint col_deg)))
              (mul (mul (neg one) step) (sub (add dot mean') val))
              mem
              mem'
    unfolding mf_step
    mf_step_cells fill val block step mu mean' rowdeg coldeg row_deg col_deg eb er ec =
        let (dot, mem', edot, e, b) =
          mf_igd_step_lem l_row r_row rank val mean' mu step row_deg col_deg mem rows_apart rows_fit
            l_row-AreReal r_row-AreReal in
        (dot, mem', edot, rw (eb, lr_pointers_lem, er, ec, e), BothMoved-IsModel _ _ _ mem' b, b)

    BothMoved-stepped_cell :
        (scal_l scal_r a : D) (mem' : List (Cell D))
        → BothMoved l_row r_row rank scal_l scal_r a mem mem'
        → (i : ℕ) → get_elem? mem' i ≡ stepped_cell l_row r_row rank scal_l scal_r a mem i
    BothMoved-stepped_cell scal_l scal_r a mem' b i = elim (Bool-cases (in_range l_row rank i)) [
      | inl l ↦
          let (le, lt) = offset_of l_row rank i l in
          let (u, eu) = l_row-AreReal (i - l_row) lt in
          let (v, ev) = r_row-AreReal (i - l_row) lt in
          let back : l_row + (i - l_row) ≡ i = omega arith in
          rw (l, real_at_of mem i (rw back at eu), real_at_of mem (r_row + (i - l_row)) ev)
            (rw back at (b.l_moved (i - l_row) u v lt eu ev))
      | inr nl ↦ elim (Bool-cases (in_range r_row rank i)) [
        | inl r ↦
            let (le, lt) = offset_of r_row rank i r in
            let (u, eu) = l_row-AreReal (i - r_row) lt in
            let (v, ev) = r_row-AreReal (i - r_row) lt in
            let back : r_row + (i - r_row) ≡ i = omega arith in
            rw (nl, r, real_at_of mem i (rw back at ev), real_at_of mem (l_row + (i - r_row)) eu)
              (rw back at (b.r_moved (i - r_row) u v lt eu ev))
        | inr nr ↦ rw (nl, nr) (b.outside i nl nr)
      ]
    ]

    -- A step on a model, its own or the one that replaces NULL, at a row and a column within it, with a
    -- degree in `rowdeg` and `coldeg` each, and called with the rank of that model, does not fault. It
    -- keeps the length of the cells and the header, and changes only row `row` of L and
    -- row `col` of R: with `err` the prediction less the value, each cell `u` of the one becomes
    -- `u * (1 - mu * step / degree) - step * err * v`, with `v` the old cell of the other.
    pub mf_step_lem :
        (fill : Cell D) (val : D) (block : Block D) (step mu mean' : D) (rowdeg coldeg : List ℕ)
        (row_deg col_deg : ℕ)
        → start_block block.str fill (length rowdeg) (length coldeg) rank mean' ≡ some mem
        → get_elem? rowdeg row ≡ some row_deg
        → get_elem? coldeg col ≡ some col_deg
        → MfSteps rows cols rank mean mem row col fill val block step mu mean' rowdeg coldeg row_deg
            col_deg
    mf_step_lem fill val block step mu mean' rowdeg coldeg row_deg col_deg eb er ec =
        let (dot, mem', edot, e, model', b) =
          mf_step_cells fill val block step mu mean' rowdeg coldeg row_deg col_deg eb er ec in
        Returns-of _ _ edot (Returns-of _ _ e (refl, (model', BothMoved-stepped_cell _ _ _ mem' b)))

    -- Prediction at a row and a column within a model does not fault: it is the inner product of the
    -- two rows, plus the mean that the model holds.
    pub mf_predict_lem :
        Returns
          (λ dot. mf_predict mem row col ≡ some (add dot mean))
          (simple_dot (λ j. real_at mem (l_row + j)) (λ j. real_at mem (r_row + j)) rank)
    unfolding mf_predict
    mf_predict_lem =
        let x = λ (j : ℕ). real_at mem (l_row + j) in
        let y = λ (j : ℕ). real_at mem (r_row + j) in
        let hx : Readable x rank =
          λ j h. let (u, e) = l_row-AreReal j h in (u, real_at_of mem (l_row + j) e) in
        let hy : Readable y rank =
          λ j h. let (u, e) = r_row-AreReal j h in (u, real_at_of mem (r_row + j) e) in
        let (dot, edot) = (simple_dot-Readable_iff x y rank).1 (hx, hy) in
        Returns-of _ _ edot (rw (lr_pointers_lem, model.rank_cell, model.mean_cell, edot))
