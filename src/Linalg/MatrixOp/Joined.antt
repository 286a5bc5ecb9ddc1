-- ===== src/Linalg/MatrixOp/Joined.antt =====
-- `matrix_unblockize_sfunc` over the rows that `row_split` returns.
use madlibport.Base.{
  ℕ, suc, ◌+◌, ◌-◌, ◌/◌, ◌≤◌, ◌<◌, ◌≡◌, refl, sym, ◌∙◌, ap, false, Option, some, none, List, [],
  ◌∷◌, ◌++◌, arith, length, get_elem?, drop, replicate, All, length-append, length-replicate,
  length-drop, list_ext, get_elem?-append, get_elem?-drop, drop-append, drop-drop, memcpy_lem,
  in_range, dec_lt,
}
use madlibport.Base.Int.{pos, lt_ℤ, le_ℤ}
use madlibport.Base.Outcome.{Outcome, ok, ◌>>=◌}
use madlibport.Doubles.{Double}
use madlibport.Linalg.MatrixOp.{MatrixError, matrix_unblockize_sfunc, unblockize_row}
use madlibport.Linalg.MatrixOp.Step.{state_or}
use madlibport.Linalg.MatrixOp.Split.{SplitCtx, split_init, split_rows}
use madlibport.Linalg.MatrixOp.Pieces.{join, AreFull, split_rows-ArePieces}

zero_add : (n : ℕ) → 0 + n ≡ n
zero_add n = omega arith

-- The aggregate over the rows of one group, each with the offset of its first column.
unfoldable pub unblockize_run :
    {D : Type 0} ⦃d : Double D⦄
    → ℕ
    → Option (List D)
    → ℕ
    → List (List D)
    → Outcome MatrixError (Option (List D))
unblockize_run total state offset [] = ok state
unblockize_run total state offset (row ∷ rows) =
    matrix_unblockize_sfunc state (some (pos total)) (some (pos offset)) (some row) >>= λ next.
    unblockize_run total next (offset + length row) rows

AreFull-pos :
    {A : Type 0} (m : ℕ) (rows : List (List A))
    → AreFull (suc m) rows
    → All (λ row. 0 < length row) rows
AreFull-pos m [] f = tt
AreFull-pos m (row ∷ []) (h, k) = (h, tt)
AreFull-pos m (row ∷ next ∷ rows) (e, f) = (omega arith, AreFull-pos m (next ∷ rows) f)

module _ {D : Type 0} ⦃d : Double D⦄ (xs : List D) where
  -- The first `k` elements of the state are those of the array.
  record IsFilled (k : ℕ) (state : List D) : Type 0 where
    sized : length state ≡ length xs
    filled : (i : ℕ) → i < k → get_elem? state i ≡ get_elem? xs i

  abbrev zeros : List D
  zeros = replicate (length xs) d.nought

  module _ (k : ℕ) (row rest : List D) (split : row ++ rest ≡ drop k xs) where
    rest-drop : rest ≡ drop (k + length row) xs
    rest-drop =
        sym (drop-append row rest) ∙ ap (drop (length row)) split ∙ drop-drop k (length row) xs

    row_cell : (j : ℕ) → j < length row → get_elem? row j ≡ get_elem? xs (k + j)
    row_cell j h =
        sym (get_elem?-append row rest j h)
        ∙ ap (λ (ys : List D). get_elem? ys j) split
        ∙ get_elem?-drop k j xs

    row_fits : k ≤ length xs → k + length row ≤ length xs
    row_fits h =
        let total : length (row ++ rest) ≡ length xs - k = ap length split ∙ length-drop k xs in
        omega (arith, length-append row rest)

    unblockize_row-IsFilled :
        (arg : Option (List D))
        → 0 < length row
        → k ≤ length xs
        → IsFilled k (state_or arg zeros)
        → (state : List D) × (unblockize_row arg (pos (length xs)) (pos k) row ≡ ok state)
          × IsFilled (k + length row) state
    unfolding unblockize_row
    unblockize_row-IsFilled arg h b f =
        let fits = row_fits b in
        let (state, e, c) =
          memcpy_lem (state_or arg zeros) k row 0 (length row) (omega (arith, f.sized))
            (omega arith) in
        let t₁ : lt_ℤ (pos (length xs)) (pos 1) ≡ false = ground arith in
        let t₂ : lt_ℤ (pos k) (pos 0) ≡ false = ground arith in
        let t₃ : le_ℤ (pos (length xs)) (pos k) ≡ false = ground arith in
        (
          state,
          rw (t₁, t₂, t₃) (rw e refl),
          record {
            sized = c.same_length ∙ f.sized;
            filled = λ i below. elim (dec_lt i k) [
              | yes old ↦
                  let out : in_range k (length row) i ≡ false = ground arith in
                  c.outside i out ∙ f.filled i old
              | no new ↦
                  let at : k + (i - k) ≡ i = omega arith in
                  ap (get_elem? state) (sym at)
                  ∙ c.inside (i - k) (omega arith)
                  ∙ ap (get_elem? row) (zero_add (i - k))
                  ∙ row_cell (i - k) (omega arith)
                  ∙ ap (get_elem? xs) at
            ];
          },
        )

  -- From a state in which the elements before `offset` are in place.
  unblockize_run-whole :
      (rows : List (List D)) (offset : ℕ) (state : List D)
      → All (λ row. 0 < length row) rows
      → join rows ≡ drop offset xs
      → offset ≤ length xs
      → IsFilled offset state
      → unblockize_run (length xs) (some state) offset rows ≡ ok (some xs)
  unfolding unblockize_run matrix_unblockize_sfunc
  unblockize_run-whole [] offset state h j b f =
      let none_left : 0 ≡ length xs - offset = ap length j ∙ length-drop offset xs in
      let all = f.filled in
      ap (λ (s : List D). ok (some s))
        (list_ext state xs f.sized (λ i c. all i (omega (arith, f.sized))))
  unblockize_run-whole (row ∷ rows) offset state (h, hs) j b f =
      let (next, e, g) = unblockize_row-IsFilled offset row (join rows) j (some state) h b f in
      rw e (
        unblockize_run-whole rows (offset + length row) next hs (rest-drop offset row (join rows) j)
          (row_fits offset row (join rows) j b) g)

  unblockize_run-first :
      (rows : List (List D))
      → 0 < length xs
      → All (λ row. 0 < length row) rows
      → join rows ≡ xs
      → unblockize_run (length xs) none 0 rows ≡ ok (some xs)
  unfolding unblockize_run matrix_unblockize_sfunc
  unblockize_run-first [] p h j = let empty : 0 ≡ length xs = ap length j in absurd (omega arith)
  unblockize_run-first (row ∷ rows) p (h, hs) j =
      let (next, e, g) = unblockize_row-IsFilled 0 row (join rows) j none h (omega arith) (record {
        sized = length-replicate (length xs) d.nought;
        filled = λ i b. absurd (omega arith);
      }) in
      rw e (
        unblockize_run-whole rows (0 + length row) next hs (rest-drop 0 row (join rows) j)
          (row_fits 0 row (join rows) j (omega arith)) g)

-- The rows that `row_split` returns for an array with one element at least, each given to
-- `matrix_unblockize_sfunc` with the offset of its first element, make up the array again.
pub row_split-unblockize :
    {D : Type 0} ⦃d : Double D⦄ (xs : List D) (m : ℕ)
    → 0 < length xs
    → (ctx : SplitCtx D) × (split_init xs (pos (suc m)) ≡ some ctx)
      × (rows : List (List D)) × (split_rows (suc ((length xs + m) / suc m)) ctx ≡ some rows)
      × (unblockize_run (length xs) none 0 rows ≡ ok (some xs))
row_split-unblockize {D} ⦃d⦄ xs m h =
    let (ctx, e₁, rows, e₂, _, p) = split_rows-ArePieces xs m in
    (ctx, e₁, rows, e₂, unblockize_run-first xs rows h (AreFull-pos m rows p.full) p.joined)
