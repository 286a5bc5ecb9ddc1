-- ===== src/Linalg/MatrixOp/Step.antt =====
-- The writes and the loops of matrix_op.cpp. An array is its elements in row-major order; `none` is
-- a read or a write outside it.
use madlibport.Base.{
  ℕ, zero, suc, ◌+◌, ◌*◌, ◌%◌, Bool, Option, none, some, List, get_elem?, set?, if◌then◌else◌,
  ◌>>=◌, for_loop, update_cells, memcpy,
}
use madlibport.Base.Int.{ℤ, pos, negsuc, index?}
use madlibport.Doubles.{Double}

-- The state of an aggregate: an array of the database, or NULL, for which zeros are allocated.
abbrev pub state_or : {A : Type 0} → Option A → A → A
state_or none fresh = fresh
state_or (some state) fresh = state

-- `*(state.ptr() + col) = val`
abbrev pub write_at : {A : Type 0} → List A → ℤ → A → Option (List A)
write_at state col val = index? col >>= λ i. set? state i val

-- `row_id % rsize` for a positive `rsize`: it has the sign of `row_id`.
abbrev pub rem_int : ℤ → ℕ → ℤ
rem_int (pos n) m = pos (n % m)
rem_int (negsuc n) m = elim (suc n % m) [ zero ↦ pos 0 | suc k ↦ negsuc k ]

-- The row of the block that `matrix_blockize_sfunc::run` overwrites.
abbrev pub write_row : {A : Type 0} → List A → ℤ → List A → ℕ → Option (List A)
write_row state row row_vec csize = index? row >>= λ i. memcpy state (i * csize) row_vec 0 csize

module _ {D : Type 0} ⦃d : Double D⦄ where
  -- The loops of `matrix_mem_sum_sfunc::run`.
  unfoldable pub add_row : ℕ → List D → ℕ → List D → Option (List D)
  add_row col_m m i state =
      update_cells (i * col_m) col_m
        (λ _ j u. get_elem? m (i * col_m + j) >>= λ v. some (d.add u v)) state

  unfoldable pub add_matrix : ℕ → ℕ → List D → List D → Option (List D)
  add_matrix row_m col_m m state = for_loop 0 row_m (add_row col_m m) state

  -- The product that `matrix_mem_mult::run` adds to the cell (i, k) in round j.
  unfoldable pub term : Bool → ℕ → ℕ → List D → List D → ℕ → ℕ → ℕ → Option D
  term trans_b col_a col_b a b i j k = do
    x ← get_elem? a (i * col_a + j)
    y ← get_elem? b (if trans_b then k * col_b + j else j * col_b + k)
    some (d.mul x y)

  -- The loop over k, the loop over j and the loop over i.
  unfoldable pub mult_round : Bool → ℕ → ℕ → ℕ → List D → List D → ℕ → ℕ → List D → Option (List D)
  mult_round trans_b col_a col_b cols a b i j r =
      update_cells (i * cols) cols
        (λ _ k u. term trans_b col_a col_b a b i j k >>= λ t. some (d.add u t)) r

  unfoldable pub mult_row : Bool → ℕ → ℕ → ℕ → List D → List D → ℕ → List D → Option (List D)
  mult_row trans_b col_a col_b cols a b i r =
      for_loop 0 col_a (mult_round trans_b col_a col_b cols a b i) r

  unfoldable pub mult_loops : Bool → ℕ → ℕ → ℕ → ℕ → List D → List D → List D → Option (List D)
  mult_loops trans_b row_a col_a col_b cols a b r =
      for_loop 0 row_a (mult_row trans_b col_a col_b cols a b) r

module _ {A : Type 0} where
  -- The loops of `matrix_mem_trans::run`.
  unfoldable pub trans_cell : ℕ → ℕ → List A → ℕ → ℕ → List A → Option (List A)
  trans_cell row_m col_m m i j r = do v ← get_elem? m (i * col_m + j); set? r (j * row_m + i) v

  unfoldable pub trans_row : ℕ → ℕ → List A → ℕ → List A → Option (List A)
  trans_row row_m col_m m i r = for_loop 0 col_m (trans_cell row_m col_m m i) r
