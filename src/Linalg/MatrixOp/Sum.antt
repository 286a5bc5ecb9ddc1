-- ===== src/Linalg/MatrixOp/Sum.antt =====
-- The sum that the aggregate over `matrix_mem_sum_sfunc` computes.
use madlibport.Base.{
  ℕ, ◌+◌, ◌*◌, ◌<◌, ◌≡◌, refl, sym, ◌∙◌, ap, subst, Option, some, none, List, [], ◌∷◌, arith,
  get_elem?, replicate, ltb, ◌==◌, if◌then◌else◌, length-replicate, get_elem?-replicate, ◌>>=◌,
  for_loop-inv_zero, update_cells_lem, AppliedTo-in, AppliedTo-out, AppliedTo, ℕ_discrete,
}
use madlibport.Base.Outcome.{Outcome, ok}
use madlibport.Base.Outcome
use madlibport.Doubles.{Double}
use madlibport.Linalg.MatrixOp.{MatrixError, Matrix, matrix_mem_sum_sfunc}
use madlibport.Linalg.MatrixOp.Step.{state_or, add_row, add_matrix}
use madlibport.Linalg.MatrixOp.Product.{HasEntries, other_row, row_room, cell_bound}

module _ {D : Type 0} ⦃d : Double D⦄ where
  -- The aggregate over matrices of one size.
  unfoldable pub mem_sum_run :
      ℕ → ℕ → Option (Matrix D) → List (List D) → Outcome MatrixError (Option (Matrix D))
  mem_sum_run rows cols state [] = ok state
  mem_sum_run rows cols state (m ∷ ms) =
      Outcome.◌>>=◌ (matrix_mem_sum_sfunc state (rows ∷ cols ∷ []) m)
        λ next. mem_sum_run rows cols (some next) ms

  module _ (rows cols : ℕ) (m : List D) (f : ℕ → ℕ → D) (has : HasEntries rows cols m f) where
    abbrev row_body : ℕ → List D → ℕ → D → Option D
    row_body i _ j u = get_elem? m (i * cols + j) >>= λ v. some (d.add u v)

    abbrev with_row : ℕ → (ℕ → ℕ → D) → ℕ → ℕ → D
    with_row i s k j = if k == i then d.add (s k j) (f k j) else s k j

    new_entry :
        (i j : ℕ) (s : ℕ → ℕ → D) (r r' : List D)
        → i < rows
        → j < cols
        → HasEntries rows cols r s
        → AppliedTo (row_body i) (i * cols) cols r r'
        → get_elem? r' (i * cols + j) ≡ some (d.add (s i j) (f i j))
    new_entry i j s r r' hi hj p q =
        AppliedTo-in (row_body i) (i * cols) cols r r' q j _ hj (p.entry i j hi hj)
        ∙ rw (has.entry i j hi hj)

    add_row_lem :
        (i : ℕ) (s : ℕ → ℕ → D) (r : List D)
        → i < rows
        → HasEntries rows cols r s
        → (r' : List D) × (add_row cols m i r ≡ some r') × HasEntries rows cols r' (with_row i s)
    unfolding add_row
    add_row_lem i s r hi p =
        let sized = p.sized in
        let (r', e, q) =
          update_cells_lem (i * cols) cols (row_body i) r (λ ys k u h c. refl)
            (omega (arith, row_room rows cols i hi))
            (λ j u h c. (d.add u (f i j), rw (has.entry i j hi h))) in
        (
          r',
          e,
          record {
            sized = q.same_length ∙ p.sized;
            entry = λ k j hk hj. elim (ℕ_discrete k i) [
              | yes here ↦
                  let test : with_row i s k j ≡ d.add (s k j) (f k j) = ground arith in
                  rw test (
                    subst
                      (λ (k' : ℕ). get_elem? r' (k' * cols + j) ≡ some (d.add (s k' j) (f k' j)))
                      (sym here) (new_entry i j s r r' hi hj p q))
              | no there ↦
                  let test : with_row i s k j ≡ s k j = ground arith in
                  AppliedTo-out (row_body i) (i * cols) cols r r' q (k * cols + j)
                    (other_row cols i k j (λ x. there (sym x)) hj)
                  ∙ p.entry k j hk hj
                  ∙ ap some (sym test)
            ];
          },
        )

    -- The rows before `i` are added.
    abbrev rows_added : ℕ → (ℕ → ℕ → D) → ℕ → ℕ → D
    rows_added i s k j = if ltb k i then d.add (s k j) (f k j) else s k j

    HasEntries-same :
        (g h : ℕ → ℕ → D) (r : List D)
        → ((i j : ℕ) → i < rows → g i j ≡ h i j)
        → HasEntries rows cols r g
        → HasEntries rows cols r h
    HasEntries-same g h r e p = record {
      sized = p.sized;
      entry = λ i j hi hj. p.entry i j hi hj ∙ ap some (e i j hi);
    }

    add_matrix_lem :
        (s : ℕ → ℕ → D) (r : List D)
        → HasEntries rows cols r s
        → (r' : List D) × (add_matrix rows cols m r ≡ some r')
          × HasEntries rows cols r' (λ i j. d.add (s i j) (f i j))
    unfolding add_matrix
    add_matrix_lem s r p =
        let (r', e, q) =
          for_loop-inv_zero (λ i u. HasEntries rows cols u (rows_added i s)) (add_row cols m) rows r
            (λ i u hi q.
              let (u', e, q') = add_row_lem i (rows_added i s) u hi q in
              (u', e, HasEntries-same _ (rows_added (i + 1) s) u' (λ k j h. ground arith) q'))
            (HasEntries-same s _ r (λ k j h. ground arith) p) in
        (r', e, HasEntries-same _ (λ i j. d.add (s i j) (f i j)) r' (λ k j h. ground arith) q)

  -- The matrices of a list with their entries, and the sum in the order of the list.
  abbrev pub AllHave : ℕ → ℕ → List (List D) → List (ℕ → ℕ → D) → Type 0
  AllHave rows cols [] [] = Unit {0}
  AllHave rows cols (m ∷ ms) (f ∷ fs) = HasEntries rows cols m f × AllHave rows cols ms fs
  AllHave rows cols ms fs = ⊥

  abbrev pub sum_entries : (ℕ → ℕ → D) → List (ℕ → ℕ → D) → ℕ → ℕ → D
  sum_entries s [] i j = s i j
  sum_entries s (f ∷ fs) i j = sum_entries (λ k l. d.add (s k l) (f k l)) fs i j

  abbrev matrix_of : ℕ → ℕ → List D → Matrix D
  matrix_of rows cols r = record { sizes = rows ∷ cols ∷ []; cells = r }

  mem_sum_step :
      (rows cols : ℕ) (arg : Option (Matrix D)) (r m : List D) (s f : ℕ → ℕ → D)
      → state_or arg (matrix_of rows cols (replicate (rows * cols) d.nought))
        ≡ matrix_of rows cols r
      → HasEntries rows cols r s
      → HasEntries rows cols m f
      → (r' : List D) × (matrix_mem_sum_sfunc arg (rows ∷ cols ∷ []) m
          ≡ ok (matrix_of rows cols r'))
        × HasEntries rows cols r' (λ i j. d.add (s i j) (f i j))
  unfolding matrix_mem_sum_sfunc
  mem_sum_step rows cols arg r m s f e p q =
      let (r', e', p') = add_matrix_lem rows cols m f q s r p in (r', rw e (rw e'), p')

  mem_sum_run_lem :
      (rows cols : ℕ) (r : List D) (s : ℕ → ℕ → D) (ms : List (List D)) (fs : List (ℕ → ℕ → D))
      → HasEntries rows cols r s
      → AllHave rows cols ms fs
      → (r' : List D) × (mem_sum_run rows cols (some (matrix_of rows cols r)) ms
          ≡ ok (some (matrix_of rows cols r')))
        × HasEntries rows cols r' (sum_entries s fs)
  unfolding mem_sum_run
  mem_sum_run_lem rows cols r s [] [] p h = (r, refl, p)
  mem_sum_run_lem rows cols r s [] (f ∷ fs) p h = absurd h
  mem_sum_run_lem rows cols r s (m ∷ ms) [] p h = absurd h
  mem_sum_run_lem rows cols r s (m ∷ ms) (f ∷ fs) p (h, hs) =
      let (r₁, e₁, p₁) = mem_sum_step rows cols (some (matrix_of rows cols r)) r m s f refl p h in
      let (r', e', p') = mem_sum_run_lem rows cols r₁ _ ms fs p₁ hs in (r', rw e₁ e', p')

  -- Over one or more matrices of one size the aggregate of `matrix_mem_sum_sfunc`, from NULL,
  -- returns the matrix of that size whose entries are the sums, from zero and in the order of the
  -- rows, of the entries of the matrices.
  pub mem_sum_run-HasEntries :
      (rows cols : ℕ) (m : List D) (ms : List (List D)) (f : ℕ → ℕ → D) (fs : List (ℕ → ℕ → D))
      → HasEntries rows cols m f
      → AllHave rows cols ms fs
      → (r : List D) × (mem_sum_run rows cols none (m ∷ ms)
          ≡ ok (some (record { sizes = rows ∷ cols ∷ []; cells = r })))
        × HasEntries rows cols r (sum_entries (λ i j. d.nought) (f ∷ fs))
  unfolding mem_sum_run
  mem_sum_run-HasEntries rows cols m ms f fs h hs =
      let (r₁, e₁, p₁) =
        mem_sum_step rows cols none (replicate (rows * cols) d.nought) m (λ i j. d.nought) f refl
          (record {
            sized = length-replicate (rows * cols) d.nought;
            entry = λ i j hi hj.
                get_elem?-replicate (rows * cols) (i * cols + j) d.nought
                  (cell_bound rows cols i j hi hj);
          })
          h in
      let (r', e', p') = mem_sum_run_lem rows cols r₁ _ ms fs p₁ hs in (r', rw e₁ e', p')
