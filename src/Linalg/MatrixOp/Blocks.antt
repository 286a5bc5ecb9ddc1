-- ===== src/Linalg/MatrixOp/Blocks.antt =====
-- The block that the aggregate over `matrix_blockize_sfunc` builds.
use madlibport.Base.{
  ℕ, suc, ◌+◌, ◌*◌, ◌%◌, ◌<◌, ◌≡◌, refl, sym, ◌∙◌, ap, subst, false, Option, some, none, List, [],
  ◌∷◌, arith, length, get_elem?, replicate, ◌==◌, if◌then◌else◌, length-replicate,
  get_elem?-replicate, ℕ_discrete, memcpy_lem,
}
use madlibport.Base.Int.{ℤ, pos, lt_ℤ}
use madlibport.Base.Outcome.{Outcome, ok, faults}
use madlibport.Base.Outcome
use madlibport.Doubles.{Double}
use madlibport.Linalg.MatrixOp.{MatrixError, Matrix, matrix_blockize_sfunc}
use madlibport.Linalg.MatrixOp.Step.{state_or, write_row, rem_int}
use madlibport.Linalg.MatrixOp.Product.{HasEntries, other_row, row_room, cell_bound}

module _ {D : Type 0} ⦃d : Double D⦄ where
  -- The aggregate over the rows of one block, each with its `row_id`.
  unfoldable pub blockize_run :
      ℤ → Option (Matrix D) → List (ℕ × List D) → Outcome MatrixError (Option (Matrix D))
  blockize_run rsize state [] = ok state
  blockize_run rsize state ((id, row) ∷ rows) =
      Outcome.◌>>=◌ (matrix_blockize_sfunc state (some (pos id)) row rsize)
        λ next. blockize_run rsize next rows

  -- The entries after a row `v` of number `id` is put in its place.
  abbrev pub put_row : ℕ → ℕ → (ℕ → D) → (ℕ → ℕ → D) → ℕ → ℕ → D
  put_row rsize id v s i j = if i == id % rsize then v j else s i j

  module _ (rows cols : ℕ) (row : List D) (v : ℕ → D) (width : length row ≡ cols)
      (has : (j : ℕ) → j < cols → get_elem? row j ≡ some (v j)) where
    write_row_lem :
        (i : ℕ) (s : ℕ → ℕ → D) (r : List D)
        → i < rows
        → HasEntries rows cols r s
        → (r' : List D) × (write_row r (pos i) row cols ≡ some r')
          × HasEntries rows cols r' (λ k j. if k == i then v j else s k j)
    write_row_lem i s r hi p =
        let sized = p.sized in
        let (r', e, q) =
          memcpy_lem r (i * cols) row 0 cols (omega (arith, row_room rows cols i hi))
            (omega arith) in
        (
          r',
          e,
          record {
            sized = q.same_length ∙ p.sized;
            entry = λ k j hk hj. elim (ℕ_discrete k i) [
              | yes here ↦
                  let test : (if k == i then v j else s k j) ≡ v j = ground arith in
                  rw test (
                    subst (λ (k' : ℕ). get_elem? r' (k' * cols + j) ≡ some (v j)) (sym here)
                      (q.inside j hj ∙ ap (get_elem? row) (zero_add j) ∙ has j hj))
              | no there ↦
                  let test : (if k == i then v j else s k j) ≡ s k j = ground arith in
                  q.outside (k * cols + j) (other_row cols i k j (λ x. there (sym x)) hj)
                  ∙ p.entry k j hk hj
                  ∙ ap some (sym test)
            ];
          },
        )
      where
        zero_add : (n : ℕ) → 0 + n ≡ n
        zero_add n = omega arith

  abbrev matrix_of : ℕ → ℕ → List D → Matrix D
  matrix_of rows cols r = record { sizes = rows ∷ cols ∷ []; cells = r }

  blockize_step :
      (m cols : ℕ) (arg : Option (Matrix D)) (r row : List D) (id : ℕ) (s : ℕ → ℕ → D) (v : ℕ → D)
      → state_or arg (matrix_of (suc m) (length row) (replicate (suc m * length row) d.nought))
        ≡ matrix_of (suc m) cols r
      → HasEntries (suc m) cols r s
      → length row ≡ cols
      → ((j : ℕ) → j < cols → get_elem? row j ≡ some (v j))
      → (r' : List D) × (matrix_blockize_sfunc arg (some (pos id)) row (pos (suc m))
          ≡ ok (some (matrix_of (suc m) cols r')))
        × HasEntries (suc m) cols r' (put_row (suc m) id v s)
  unfolding matrix_blockize_sfunc
  blockize_step m cols arg r row id s v e p w h =
      let (r', e', p') = write_row_lem (suc m) cols row v w h (id % suc m) s r (omega arith) p in
      let positive : lt_ℤ (pos (suc m)) (pos 1) ≡ false = ground arith in
      let e'' : write_row r (rem_int (pos id) (suc m)) row (length row) ≡ some r' = rw w e' in
      (r', rw (positive, e) (rw e''), p')

  -- The rows with the functions of their entries.
  abbrev pub RowsHave : ℕ → List (ℕ × List D) → List (ℕ → D) → Type 0
  RowsHave cols [] [] = Unit {0}
  RowsHave cols ((id, row) ∷ rows) (v ∷ vs) =
      ((length row ≡ cols) × ((j : ℕ) → j < cols → get_elem? row j ≡ some (v j)))
      × RowsHave cols rows vs
  RowsHave cols rows vs = ⊥

  abbrev pub put_rows : ℕ → (ℕ → ℕ → D) → List (ℕ × List D) → List (ℕ → D) → ℕ → ℕ → D
  put_rows rsize s ((id, row) ∷ rows) (v ∷ vs) = put_rows rsize (put_row rsize id v s) rows vs
  put_rows rsize s rows vs = s

  blockize_run_lem :
      (m cols : ℕ) (r : List D) (s : ℕ → ℕ → D) (rows : List (ℕ × List D)) (vs : List (ℕ → D))
      → HasEntries (suc m) cols r s
      → RowsHave cols rows vs
      → (r' : List D) × (blockize_run (pos (suc m)) (some (matrix_of (suc m) cols r)) rows
          ≡ ok (some (matrix_of (suc m) cols r')))
        × HasEntries (suc m) cols r' (put_rows (suc m) s rows vs)
  unfolding blockize_run
  blockize_run_lem m cols r s [] [] p h = (r, refl, p)
  blockize_run_lem m cols r s [] (v ∷ vs) p h = absurd h
  blockize_run_lem m cols r s ((id, row) ∷ rows) [] p h = absurd h
  blockize_run_lem m cols r s ((id, row) ∷ rows) (v ∷ vs) p ((w, h), hs) =
      let (r₁, e₁, p₁) =
        blockize_step m cols (some (matrix_of (suc m) cols r)) r row id s v refl p w h in
      let (r', e', p') = blockize_run_lem m cols r₁ (put_row (suc m) id v s) rows vs p₁ hs in
      (r', rw e₁ e', p')

  -- Over one or more rows of `cols` elements, with numbers that are not negative, the aggregate of
  -- `matrix_blockize_sfunc` for a positive block size, from NULL, returns a block of as many rows of
  -- `cols` elements; row i of it is the last of the rows whose number has the remainder i by the block
  -- size, and zeros where there is none.
  pub blockize_run-HasEntries :
      (m cols id : ℕ) (row : List D) (rows : List (ℕ × List D)) (v : ℕ → D) (vs : List (ℕ → D))
      → RowsHave cols ((id, row) ∷ rows) (v ∷ vs)
      → (r : List D) × (blockize_run (pos (suc m)) none ((id, row) ∷ rows)
          ≡ ok (some (record { sizes = suc m ∷ cols ∷ []; cells = r })))
        × HasEntries (suc m) cols r (put_rows (suc m) (λ i j. d.nought) ((id, row) ∷ rows) (v ∷ vs))
  unfolding blockize_run
  blockize_run-HasEntries m cols id row rows v vs ((w, h), hs) =
      let zeros = replicate (suc m * cols) d.nought in
      let fresh : matrix_of (suc m) (length row) (replicate (suc m * length row) d.nought)
          ≡ matrix_of (suc m) cols zeros =
        ap (λ (n : ℕ). matrix_of (suc m) n (replicate (suc m * n) d.nought)) w in
      let (r₁, e₁, p₁) =
        blockize_step m cols none zeros row id (λ i j. d.nought) v fresh
          (record {
            sized = length-replicate (suc m * cols) d.nought;
            entry = λ i j hi hj.
                get_elem?-replicate (suc m * cols) (i * cols + j) d.nought
                  (cell_bound (suc m) cols i j hi hj);
          })
          w h in
      let (r', e', p') =
        blockize_run_lem m cols r₁ (put_row (suc m) id v (λ i j. d.nought)) rows vs p₁ hs in
      (r', rw e₁ e', p')
