-- ===== src/Linalg/MatrixOp/Product.antt =====
-- The product that `matrix_mem_mult::run` computes.
use madlibport.Base.{
  ℕ, zero, suc, ◌+◌, ◌*◌, ◌≤◌, ◌<◌, ◌≡◌, ◌≢◌, refl, sym, ◌∙◌, ap, subst, Bool, true, false, Option,
  some, List, [], ◌∷◌, arith, length, get_elem?, replicate, ◌==◌, ltb, if◌then◌else◌,
  length-replicate, get_elem?-replicate, ◌>>=◌, for_loop-inv_zero, update_cells_lem, AppliedTo-in,
  AppliedTo-out, in_range, AppliedTo, dec_lt, ℕ_discrete,
}
use madlibport.Base.Outcome.{ok}
use madlibport.Doubles.{Double}
use madlibport.Linalg.MatrixOp.{matrix_mem_mult, mult_mismatch}
use madlibport.Linalg.MatrixOp.Step.{term, mult_round, mult_row, mult_loops}

-- The cells of a row-major array are the values of a function of the row and the column.
pub record HasEntries {A : Type 0} (rows cols : ℕ) (cells : List A) (f : ℕ → ℕ → A) : Type 0 where
  pub sized : length cells ≡ rows * cols
  pub entry : (i j : ℕ) → i < rows → j < cols → get_elem? cells (i * cols + j) ≡ some (f i j)

pub other_row :
    (cols i i' k : ℕ) → i ≢ i' → k < cols → in_range (i * cols) cols (i' * cols + k) ≡ false
other_row cols i i' k ne h = elim (dec_lt i i') [
  | yes lt ↦ let room : i * cols + cols ≤ i' * cols = grind arith in ground arith
  | no ge ↦ let room : i' * cols + cols ≤ i * cols = grind arith in ground arith
]

pub cell_bound : (rows cols i j : ℕ) → i < rows → j < cols → i * cols + j < rows * cols
cell_bound rows cols i j hi hj = grind arith

pub row_room : (rows cols i : ℕ) → i < rows → i * cols + cols ≤ rows * cols
row_room rows cols i h = grind arith

module _ {D : Type 0} ⦃d : Double D⦄ where
  -- The sum of the first `n` products, in the order of the loop.
  abbrev pub sum_of_products : (ℕ → D) → ℕ → D
  sum_of_products t zero = d.nought
  sum_of_products t (suc n) = d.add (sum_of_products t n) (t n)

  module _ (trans_b : Bool) (rows n cols col_b : ℕ) (a b : List D) (t : ℕ → ℕ → ℕ → D)
      (terms : (i j k : ℕ)
        → i < rows
        → j < n
        → k < cols
        → term trans_b n col_b a b i j k ≡ some (t i k j)) where
    -- Row i has seen the first `done i` rounds.
    abbrev Progress : (ℕ → ℕ) → List D → Type 0
    Progress done r = HasEntries rows cols r (λ i k. sum_of_products (t i k) (done i))

    abbrev round_body : ℕ → ℕ → List D → ℕ → D → Option D
    round_body i j _ k u = term trans_b n col_b a b i j k >>= λ v. some (d.add u v)

    new_entry :
        (i j k : ℕ) (done : ℕ → ℕ) (r r' : List D)
        → i < rows
        → j < n
        → k < cols
        → done i ≡ j
        → Progress done r
        → AppliedTo (round_body i j) (i * cols) cols r r'
        → get_elem? r' (i * cols + k) ≡ some (sum_of_products (t i k) (suc j))
    new_entry i j k done r r' hi hj hk now p q =
        AppliedTo-in (round_body i j) (i * cols) cols r r' q k _ hk (p.entry i k hi hk)
        ∙ rw (terms i j k hi hj hk)
            (ap (λ (c : ℕ). some (d.add (sum_of_products (t i k) c) (t i k j))) now)

    abbrev step_row : ℕ → ℕ → (ℕ → ℕ) → ℕ → ℕ
    step_row i j done m = if m == i then suc j else done m

    round_step :
        (i j : ℕ) (done : ℕ → ℕ) (r : List D)
        → i < rows
        → j < n
        → done i ≡ j
        → Progress done r
        → (r' : List D) × (mult_round trans_b n col_b cols a b i j r ≡ some r')
          × Progress (step_row i j done) r'
    unfolding mult_round
    round_step i j done r hi hj now p =
        let sized = p.sized in
        let (r', e, q) =
          update_cells_lem (i * cols) cols (round_body i j) r (λ ys k u h c. refl)
            (omega (arith, row_room rows cols i hi))
            (λ k u h c. (d.add u (t i k j), rw (terms i j k hi hj h))) in
        (
          r',
          e,
          record {
            sized = q.same_length ∙ p.sized;
            entry = λ m k hm hk. elim (ℕ_discrete m i) [
              | yes here ↦
                  let test : step_row i j done m ≡ suc j = ground arith in
                  rw test (
                    subst
                      (λ (m' : ℕ).
                        get_elem? r' (m' * cols + k) ≡ some (sum_of_products (t m' k) (suc j)))
                      (sym here) (new_entry i j k done r r' hi hj hk now p q))
              | no there ↦
                  let test : step_row i j done m ≡ done m = ground arith in
                  AppliedTo-out (round_body i j) (i * cols) cols r r' q (m * cols + k)
                    (other_row cols i m k (λ x. there (sym x)) hk)
                  ∙ p.entry m k hm hk
                  ∙ ap (λ (c : ℕ). some (sum_of_products (t m k) c)) (sym test)
            ];
          },
        )

    Progress-same : (f g : ℕ → ℕ) (r : List D) → ((m : ℕ) → f m ≡ g m) → Progress f r → Progress g r
    Progress-same f g r h p = record {
      sized = p.sized;
      entry =
          λ m k hm hk. p.entry m k hm hk ∙ ap (λ (c : ℕ). some (sum_of_products (t m k) c)) (h m);
    }

    -- The rows before `i` are complete.
    abbrev rows_done : ℕ → ℕ → ℕ
    rows_done i m = if ltb m i then n else 0

    row_step :
        (i : ℕ) (r : List D)
        → i < rows
        → Progress (rows_done i) r
        → (r' : List D) × (mult_row trans_b n col_b cols a b i r ≡ some r')
          × Progress (rows_done (i + 1)) r'
    unfolding mult_row
    row_step i r hi p =
        let (r', e, q) =
          for_loop-inv_zero (λ j u. Progress (λ m. if m == i then j else rows_done i m) u)
            (mult_round trans_b n col_b cols a b i) n r
            (λ j u hj q.
              let (u', e, q') =
                round_step i j (λ m. if m == i then j else rows_done i m) u hi hj (ground arith)
                  q in
              (
                u',
                e,
                Progress-same _ (λ m. if m == i then j + 1 else rows_done i m) u'
                    (λ m. ground arith) q',
              ))
            (Progress-same (rows_done i) _ r (λ m. ground arith) p) in
        (r', e, Progress-same _ (rows_done (i + 1)) r' (λ m. ground arith) q)

    pub mult_loops_lem :
        (r' : List D) × (mult_loops trans_b rows n col_b cols a b (replicate (rows * cols) d.nought)
          ≡ some r')
        × HasEntries rows cols r' (λ i k. sum_of_products (t i k) n)
    unfolding mult_loops
    mult_loops_lem =
        let (r', e, q) =
          for_loop-inv_zero (λ i r. Progress (rows_done i) r) (mult_row trans_b n col_b cols a b)
            rows (replicate (rows * cols) d.nought) (λ i u hi q. row_step i u hi q)
            (record {
              sized = length-replicate (rows * cols) d.nought;
              entry = λ i j hi hj.
                  get_elem?-replicate (rows * cols) (i * cols + j) d.nought
                    (cell_bound rows cols i j hi hj)
                  ∙ ap (λ (c : ℕ). some (sum_of_products (t i j) c)) (none_done i);
            }) in
        (
          r',
          e,
          record {
            sized = q.sized;
            entry = λ i j hi hj.
                q.entry i j hi hj
                ∙ ap (λ (c : ℕ). some (sum_of_products (t i j) c)) (all_done i hi);
          },
        )
      where
        none_done : (i : ℕ) → 0 ≡ rows_done 0 i
        none_done i = ground arith

        all_done : (i : ℕ) → i < rows → rows_done rows i ≡ n
        all_done i h = ground arith

term_lem :
    {D : Type 0} ⦃d : Double D⦄ (trans_b : Bool) (col_a col_b : ℕ) (a b : List D) (i j k : ℕ)
    (x y : D)
    → get_elem? a (i * col_a + j) ≡ some x
    → get_elem? b (if trans_b then k * col_b + j else j * col_b + k) ≡ some y
    → term trans_b col_a col_b a b i j k ≡ some (d.mul x y)
unfolding term
term_lem trans_b col_a col_b a b i j k x y e e' = rw (e, e')

-- `matrix_mem_mult` of matrices with the entries f(i, j) and g(j, k), whose sizes agree, returns the
-- matrix with the entry of row i and column k the sum, from zero and in ascending order of j, of the
-- products f(i, j) g(j, k); with `trans_b`, of f(i, j) g(k, j).
pub matrix_mem_mult-HasEntries :
    {D : Type 0} ⦃d : Double D⦄ (trans_b : Bool) (row_a col_a row_b col_b : ℕ) (a b : List D)
    (f g : ℕ → ℕ → D)
    → HasEntries row_a col_a a f
    → HasEntries row_b col_b b g
    → col_a ≡ (if trans_b then col_b else row_b)
    → (r : List D) × (matrix_mem_mult (row_a ∷ col_a ∷ []) a (row_b ∷ col_b ∷ []) b trans_b
        ≡ ok (record { sizes = row_a ∷ (if trans_b then row_b else col_b) ∷ []; cells = r }))
      × HasEntries row_a
          (if trans_b then row_b else col_b)
          r
          (λ i k. sum_of_products (λ j. d.mul (f i j) (if trans_b then g k j else g j k)) col_a)
unfolding matrix_mem_mult
matrix_mem_mult-HasEntries {D} ⦃d⦄ true row_a col_a row_b col_b a b f g p q e =
    let test : mult_mismatch true col_a row_b col_b ≡ false = ground arith in
    let (r, e', h) =
      mult_loops_lem true row_a col_a row_b col_b a b (λ i k j. d.mul (f i j) (g k j))
        (λ i j k hi hj hk.
          term_lem true col_a col_b a b i j k (f i j) (g k j) (p.entry i j hi hj)
            (q.entry k j hk (omega arith))) in
    (r, rw (test, e'), h)
matrix_mem_mult-HasEntries {D} ⦃d⦄ false row_a col_a row_b col_b a b f g p q e =
    let test : mult_mismatch false col_a row_b col_b ≡ false = ground arith in
    let (r, e', h) =
      mult_loops_lem false row_a col_a col_b col_b a b (λ i k j. d.mul (f i j) (g j k))
        (λ i j k hi hj hk.
          term_lem false col_a col_b a b i j k (f i j) (g j k) (p.entry i j hi hj)
            (q.entry j k (omega arith) hk)) in
    (r, rw (test, e'), h)
