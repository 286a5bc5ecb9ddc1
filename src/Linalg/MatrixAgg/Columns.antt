-- ===== src/Linalg/MatrixAgg/Columns.antt =====
-- The matrix that the aggregate returns.
use mathlib.Core.List.{append-nil, append_assoc}
use madlibport.Base.{
  ℕ, suc, ◌+◌, ◌*◌, ◌^◌, ◌≤◌, ◌<◌, ◌≡◌, refl, sym, ◌∙◌, ap, subst, false, some, List, [], ◌∷◌, ◌++◌,
  arith, length, take, ltb, ◌==◌, All, length-append, take_all, take-IsCopied, memcpy, memcpy_lem,
}
use madlibport.Base.Outcome.{ok}
use madlibport.Doubles.{Double}
use madlibport.Linalg.MatrixOp.Pieces.{join}
use madlibport.Linalg.MatrixAgg.{
  rebind, bind_state, prepare, initialize, reserve, new_column, matrix_agg_transition,
  matrix_agg_final, matrix_agg_run, fresh_storage, inconsistent,
}
use madlibport.Linalg.MatrixAgg.Step.{MatrixAggState, put_column}
use madlibport.Utils.PowerOfTwo.{HasRoom}
use madlibport.Linalg.MatrixAgg.Room.{
  IsColumns, IsReserved, bound, column_room, join_snoc, mul_le, mul_swap, reserve-IsReserved,
  reserve-IsReserved_empty, size_eq, size_same, with_sizes,
}

module _ {D : Type 0} ⦃d : Double D⦄ where
  -- The vector becomes the last column.
  column-IsColumns :
      (rows : ℕ) (xs : List (List D)) (x : List D) (s : MatrixAggState D)
      → length x ≡ rows
      → IsReserved rows (length xs) (join xs) s
      → (cells : List D) × (put_column (record s { map_rows = rows; map_cols = suc (length xs) }) x
          ≡ some (bound rows (suc (length xs)) (suc (length xs)) cells))
        × IsColumns rows (xs ++ x ∷ []) (rows, suc (length xs), cells)
  unfolding put_column
  column-IsColumns rows xs x s w p =
      let n = length xs in
      let sized = p.sized in
      let fits : n * rows + rows ≤ length s.cells =
        rw sized (column_room rows n p.room (p.has_room.enough)) in
      let (out, e, c) = memcpy_lem s.cells (n * rows) x 0 rows fits (omega arith) in
      let e' : memcpy s.cells (s.num_cols * rows) x 0 rows ≡ some out =
        ap (λ (m : ℕ). memcpy s.cells (m * rows) x 0 rows) p.num_cols ∙ e in
      let count : length (xs ++ x ∷ []) ≡ suc n = omega (arith, length-append xs (x ∷ [])) in
      let next : s.num_cols + 1 ≡ suc n = let same = p.num_cols in omega arith in
      (
        out,
        rw e' (
            ap (λ (m : ℕ). some (with_sizes m (s.num_cols + 1) rows (suc n) out)) p.num_rows
            ∙ ap (λ (m : ℕ). some (with_sizes rows m rows (suc n) out)) next),
        record {
          num_rows = refl;
          num_cols = sym count;
          columns =
              ap (λ (m : ℕ). take m out) (size_eq rows n (length (xs ++ x ∷ [])) count)
              ∙ take-IsCopied s.cells (n * rows) x rows out fits (omega arith) c
              ∙ ap (λ (m : ℕ). take m s.cells ++ take rows x) (mul_swap n rows)
              ∙ ap (λ ys. ys ++ take rows x) p.kept
              ∙ ap (λ ys. join xs ++ ys) (take_all rows x (omega arith))
              ∙ sym (join_snoc xs x);
          room = p.room;
          sized = c.same_length ∙ sized;
          has_room = subst (λ (m : ℕ). HasRoom m p.room) (sym count) p.has_room;
        },
      )

  new_column_lem :
      (t s u : MatrixAggState D) (x : List D)
      → reserve t ≡ ok s
      → ltb (length s.cells) (s.num_rows * (s.num_cols + 1)) ≡ false
      → put_column (record s { map_rows = s.num_rows; map_cols = s.num_cols + 1 }) x ≡ some u
      → new_column t x ≡ ok u
  unfolding new_column rebind
  new_column_lem t s u x e₁ e₂ e₃ = rw (e₁, e₂, e₃)

  reserved_fits :
      (rows cols : ℕ) (old : List D) (s : MatrixAggState D)
      → IsReserved rows cols old s
      → ltb (length s.cells) (s.num_rows * (s.num_cols + 1)) ≡ false
  reserved_fits rows cols old s p =
      let sized = p.sized in
      let bound : rows * suc cols ≤ rows * p.room =
        mul_le rows (suc cols) p.room (p.has_room.enough) in
      let same : s.num_rows * (s.num_cols + 1) ≡ rows * suc cols =
        size_same s.num_rows s.num_cols rows cols p.num_rows p.num_cols in
      ground arith

  -- A column after the ones that are there.
  new_column-IsColumns :
      (rows : ℕ) (xs : List (List D)) (x : List D) (t s : MatrixAggState D)
      → length x ≡ rows
      → reserve t ≡ ok s
      → IsReserved rows (length xs) (join xs) s
      → (cells : List D) × (new_column t x
          ≡ ok (bound rows (suc (length xs)) (suc (length xs)) cells))
        × IsColumns rows (xs ++ x ∷ []) (rows, suc (length xs), cells)
  new_column-IsColumns rows xs x t s w e p =
      let (cells, e', q) = column-IsColumns rows xs x s w p in
      let next : suc (length xs) ≡ s.num_cols + 1 = let same = p.num_cols in omega arith in
      (
        cells,
        new_column_lem t s _ x e (reserved_fits rows (length xs) (join xs) s p) (
            ap (λ (m : ℕ). put_column (record s { map_rows = m; map_cols = s.num_cols + 1 }) x)
              p.num_rows
            ∙ ap (λ (m : ℕ). put_column (record s { map_rows = rows; map_cols = m }) x) (sym next)
            ∙ e'),
        q,
      )

  -- The first column.
  first-IsColumns :
      (rows : ℕ) (x cells : List D)
      → length x ≡ rows
      → (cells' : List D) × (matrix_agg_transition (0, 0, cells) x ≡ ok (rows, 1, cells'))
        × IsColumns rows (x ∷ []) (rows, 1, cells')
  unfolding matrix_agg_transition bind_state prepare initialize rebind
  first-IsColumns rows x cells w =
      let (s, e, p) = reserve-IsReserved_empty rows cells in
      let (cells', e', q) = new_column-IsColumns rows [] x (bound rows 0 0 cells) s w e p in
      let t₁ : ltb (length cells) (0 * 0) ≡ false = ground arith in
      let t₂ : ltb (length cells) (length x * 0) ≡ false = ground arith in
      (cells', rw (t₁, t₂, w) (rw e'), q)

  transition_lem :
      (rows cols : ℕ) (cells x : List D) (u : MatrixAggState D)
      → ltb (length cells) (rows * cols) ≡ false
      → (cols == 0) ≡ false
      → inconsistent (bound rows cols cols cells) x ≡ false
      → new_column (bound rows cols cols cells) x ≡ ok u
      → matrix_agg_transition (rows, cols, cells) x ≡ ok (u.num_rows, u.num_cols, u.cells)
  unfolding matrix_agg_transition bind_state prepare rebind
  transition_lem rows cols cells x u e₁ e₂ e₃ e₄ = rw (e₁, e₂, e₃) (rw e₄)

  next_at :
      (rows : ℕ) (xs : List (List D)) (x cells : List D)
      → length x ≡ rows
      → 0 < length xs
      → length xs ≤ 2 ^ 15
      → IsColumns rows xs (rows, length xs, cells)
      → (next : ℕ × ℕ × List D) × (matrix_agg_transition (rows, length xs, cells) x ≡ ok next)
        × IsColumns rows (xs ++ x ∷ []) next
  next_at rows xs x cells w pos few p =
      let n = length xs in
      let (s, e, r) = reserve-IsReserved rows n p.room cells pos few p.sized p.has_room in
      let r' = subst (λ old. IsReserved rows n old s) p.columns r in
      let (cells', e', q) = new_column-IsColumns rows xs x (bound rows n n cells) s w e r' in
      let sized = p.sized in
      let fits = mul_le rows n p.room (p.has_room.enough) in
      (
        (rows, suc n, cells'),
        transition_lem rows n cells x _ (ground arith) (ground arith) (ground arith) e',
        q,
      )

  next-IsColumns :
      (rows : ℕ) (xs : List (List D)) (x : List D) (storage : ℕ × ℕ × List D)
      → length x ≡ rows
      → 0 < length xs
      → length xs ≤ 2 ^ 15
      → IsColumns rows xs storage
      → (next : ℕ × ℕ × List D) × (matrix_agg_transition storage x ≡ ok next)
        × IsColumns rows (xs ++ x ∷ []) next
  next-IsColumns rows xs x (r, c, cells) w pos few p =
      let same : ◌≡◌ {A = ℕ × ℕ × List D} (r, c, cells) (rows, length xs, cells) =
        λ i. (p.num_rows i, p.num_cols i, cells) in
      subst
        (λ st.
          (next : ℕ × ℕ × List D) × (matrix_agg_transition st x ≡ ok next)
          × IsColumns rows (xs ++ x ∷ []) next)
        (sym same) (next_at rows xs x cells w pos few (subst (IsColumns rows xs) same p))

  run-IsColumns :
      (rows : ℕ) (xs ys : List (List D)) (storage : ℕ × ℕ × List D)
      → All (λ y. length y ≡ rows) ys
      → 0 < length xs
      → length xs + length ys ≤ 2 ^ 15 + 1
      → IsColumns rows xs storage
      → (final : ℕ × ℕ × List D) × (matrix_agg_run storage ys ≡ ok final)
        × IsColumns rows (xs ++ ys) final
  unfolding matrix_agg_run
  run-IsColumns rows xs [] storage h pos few p =
      (storage, refl, subst (λ zs. IsColumns rows zs storage) (sym (append-nil xs)) p)
  run-IsColumns rows xs (y ∷ ys) storage (h, hs) pos few p =
      let (next, e, q) = next-IsColumns rows xs y storage h pos (omega arith) p in
      let (final, e', r) =
        run-IsColumns rows (xs ++ y ∷ []) ys next hs (omega (arith, length-append xs (y ∷ [])))
          (omega (arith, length-append xs (y ∷ []))) q in
      (final, rw e e', subst (λ zs. IsColumns rows zs final) (append_assoc xs (y ∷ []) ys) r)

  final_lem :
      (rows cols : ℕ) (cells : List D)
      → ltb (length cells) (rows * cols) ≡ false
      → matrix_agg_final (rows, cols, cells) ≡ ok (rows, cols, take (rows * cols) cells)
  unfolding matrix_agg_final bind_state rebind
  final_lem rows cols cells e = rw e

  final-IsColumns :
      (rows : ℕ) (xs : List (List D)) (storage : ℕ × ℕ × List D)
      → IsColumns rows xs storage
      → matrix_agg_final storage ≡ ok (rows, length xs, join xs)
  final-IsColumns rows xs (r, c, cells) p =
      let same : ◌≡◌ {A = ℕ × ℕ × List D} (r, c, cells) (rows, length xs, cells) =
        λ i. (p.num_rows i, p.num_cols i, cells) in
      let sized = p.sized in
      let fits = mul_le rows (length xs) p.room (p.has_room.enough) in
      ap matrix_agg_final same
      ∙ final_lem rows (length xs) cells (ground arith)
      ∙ ap (λ ys. ok (rows, length xs, ys)) p.columns

-- Over 1 to 32769 vectors of one size the aggregate, from the storage that the database initializes,
-- throws nothing and does not fault, and its final function returns the matrix with these vectors as
-- its columns, in their order.
pub matrix_agg-columns :
    {D : Type 0} ⦃d : Double D⦄ (rows : ℕ) (x : List D) (xs : List (List D))
    → All (λ y. length y ≡ rows) (x ∷ xs)
    → length (x ∷ xs) ≤ 2 ^ 15 + 1
    → (storage : ℕ × ℕ × List D) × (matrix_agg_run fresh_storage (x ∷ xs) ≡ ok storage)
      × (matrix_agg_final storage ≡ ok (rows, length (x ∷ xs), join (x ∷ xs)))
unfolding matrix_agg_run
matrix_agg-columns {D} ⦃d⦄ rows x xs (h, hs) few =
    let (cells, e, p) = first-IsColumns rows x (d.nought ∷ []) h in
    let (storage, e', q) =
      run-IsColumns rows (x ∷ []) xs (rows, 1, cells) hs (omega arith) (omega arith) p in
    (storage, rw e e', final-IsColumns rows (x ∷ xs) storage q)
