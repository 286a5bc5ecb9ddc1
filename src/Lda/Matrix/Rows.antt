-- ===== src/Lda/Matrix/Rows.antt =====
-- The rows that `lda_unnest` returns, one in each call.
use madlibport.Base.{
  ℕ, zero, suc, ◌+◌, ◌*◌, ◌≤◌, ◌≡◌, refl, sym, ◌∙◌, ap, subst, some, List, [], ◌∷◌, ◌++◌, arith,
  length, get_elem?, drop, All, get_elem?-some,
}
use madlibport.Base.Int.{ℤ}
use madlibport.Base.Outcome.{ok}
use madlibport.Lda.Matrix.{unnest_init}
use madlibport.Lda.Matrix.Step.{SrCtx, copy_from, unnest_next, unnest_rows}

drop_next :
    (s : ℕ) (xs : List ℤ) {x : ℤ} → get_elem? xs s ≡ some x → drop s xs ≡ x ∷ drop (suc s) xs
drop_next s [] e = cc
drop_next zero (x ∷ xs) {x = a} e = let same : x ≡ a = cc in ap (λ y. y ∷ xs) same
drop_next (suc s) (x ∷ xs) e = drop_next s xs e

drop_all : (n : ℕ) (xs : List ℤ) → length xs ≤ n → drop n xs ≡ []
drop_all zero [] h = refl
drop_all (suc n) [] h = refl
drop_all zero (x ∷ xs) h = absurd (omega arith)
drop_all (suc n) (x ∷ xs) h = drop_all n xs (omega arith)

copy_from_lem :
    (xs : List ℤ) (start len : ℕ)
    → start + len ≤ length xs
    → (row : List ℤ) × (copy_from xs start len ≡ some row)
      × (length row ≡ len)
      × (row ++ drop (start + len) xs ≡ drop start xs)
copy_from_lem xs start zero h =
    let same : start + 0 ≡ start = omega arith in ([], refl, refl, ap (λ (n : ℕ). drop n xs) same)
copy_from_lem xs start (suc len) h =
    let (x, ex) = get_elem?-some xs start (omega arith) in
    let (row, er, el, ej) = copy_from_lem xs (start + 1) len (omega arith) in
    let shift : start + suc len ≡ start + 1 + len = omega arith in
    let next : suc start ≡ start + 1 = omega arith in
    (
      x ∷ row,
      rw (ex, er),
      omega arith,
      ap (◌∷◌ x)
            (ap (λ (n : ℕ). row ++ drop n xs) shift ∙ ej ∙ ap (λ (n : ℕ). drop n xs) (sym next))
          ∙ sym (drop_next start xs ex),
    )

abbrev pub join : List (List ℤ) → List ℤ
join [] = []
join (row ∷ rows) = row ++ join rows

-- The rows, each with `cols` elements, make up `cells`.
pub record AreRows (rows cols : ℕ) (cells : List ℤ) (result : List (List ℤ)) : Type 0 where
  pub number : length result ≡ rows
  pub width : All (λ row. length row ≡ cols) result
  pub joined : join result ≡ cells

rows_lem :
    (xs : List ℤ) (dim left cur : ℕ)
    → cur * dim + left * dim ≡ length xs
    → (result : List (List ℤ)) × (unnest_rows
          (suc left)
          (record { inarray = xs; maxcall = left; dim = dim; curcall = cur })
        ≡ some result)
      × AreRows left dim (drop (cur * dim) xs) result
unfolding unnest_rows unnest_next
rows_lem xs dim zero cur h = (
  [],
  refl,
  record { number = refl; width = tt; joined = sym (drop_all (cur * dim) xs (omega arith)) },
)
rows_lem xs dim (suc left) cur h =
    let step : cur * dim + dim ≡ (cur + 1) * dim = grind arith in
    let whole : (cur + 1) * dim + left * dim ≡ length xs = grind arith in
    let (row, er, el, ej) = copy_from_lem xs (cur * dim) dim (omega arith) in
    let (rows, e, p) = rows_lem xs dim left (cur + 1) whole in
    (
      row ∷ rows,
      rw (er, e),
      record {
        number = omega (arith, p.number);
        width = (el, p.width);
        joined = ap (λ ys. row ++ ys) (p.joined ∙ ap (λ (n : ℕ). drop n xs) (sym step)) ∙ ej;
      },
    )

-- The number of calls that return a row, and the last one.
abbrev pub AllRows : ℕ → ℕ → List ℤ → Type 0
AllRows rows cols cells =
    (ctx : SrCtx) × (unnest_init (rows ∷ cols ∷ []) cells ≡ ok ctx)
    × (result : List (List ℤ)) × (unnest_rows (suc rows) ctx ≡ some result)
    × AreRows rows cols cells result

-- `lda_unnest` of a matrix with `rows` rows and `cols` columns returns a row in each of `rows` calls
-- and ends with the next call; the rows have `cols` elements each and, joined, are the matrix.
pub unnest-AllRows :
    (rows cols : ℕ) (cells : List ℤ) → length cells ≡ rows * cols → AllRows rows cols cells
unfolding unnest_init
unnest-AllRows rows cols cells h =
    let none_before : 0 * cols + rows * cols ≡ length cells = grind arith in
    let start : 0 * cols ≡ 0 = grind arith in
    let (result, e, p) = rows_lem cells cols rows 0 none_before in
    (_, refl, result, e, subst (λ (n : ℕ). AreRows rows cols (drop n cells) result) start p)
