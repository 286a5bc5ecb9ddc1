-- ===== src/Convex/Scales/Totals.antt =====
-- The scales of a table: sums by column, mean and standard deviation.
use madlibport.Base.{
  ℕ, zero, suc, ◌+◌, ◌≤◌, ◌<◌, ◌≡◌, refl, ◌∙◌, true, false, Option, none, some, List, [], ◌∷◌, map,
  arith, length, get_elem?, ltb, ◌==◌, if◌then◌else◌, ◌>>=◌, All, update_cells, update_cells_lem,
  AppliedTo-cell_zero,
}
use madlibport.Doubles.{Double}
use madlibport.Convex.Scales.{
  ScalesState, no_scales, add_elements, var_scales_transition, var_scales_run,
}

-- A vector with the elements that a function gives.
pub record HasElements {D : Type 0} (n : ℕ) (f : ℕ → D) (xs : List D) : Type 0 where
  pub size : length xs ≡ n
  pub element : (i : ℕ) → i < n → get_elem? xs i ≡ some (f i)

pub update-HasElements :
    {D : Type 0} (n : ℕ) (g : ℕ → D → Option D) (h : ℕ → D → D) (f : ℕ → D) (xs : List D)
    → HasElements n f xs
    → ((i : ℕ) (u : D) → i < n → g i u ≡ some (h i u))
    → (ys : List D) × (update_cells 0 n (λ _. g) xs ≡ some ys) × HasElements n (λ i. h i (f i)) ys
update-HasElements n g h f xs p total =
    let (ys, e, q) =
      update_cells_lem 0 n (λ _. g) xs (λ zs j u b c. refl) (omega (arith, p.size))
        (λ j u b c. (h j u, total j u b)) in
    (
      ys,
      e,
      record {
        size = q.same_length ∙ p.size;
        element = λ i b.
            AppliedTo-cell_zero (λ _. g) n xs ys q i
            ∙ (let inside : ltb i n ≡ true = ground arith in
                rw (inside, p.element i b) (total i (f i) b));
      },
    )

length-map : {D : Type 0} (h : D → D) (xs : List D) → length (map h xs) ≡ length xs
length-map h [] = refl
length-map h (x ∷ xs) = let ih = length-map h xs in omega arith

get_elem?-map :
    {D : Type 0} (h : D → D) (xs : List D) (i : ℕ)
    → get_elem? (map h xs) i ≡ (get_elem? xs i >>= λ u. some (h u))
get_elem?-map h [] i = refl
get_elem?-map h (x ∷ xs) zero = refl
get_elem?-map h (x ∷ xs) (suc i) = get_elem?-map h xs i

pub map-HasElements :
    {D : Type 0} (h : D → D) (n : ℕ) (f : ℕ → D) (xs : List D)
    → HasElements n f xs
    → HasElements n (λ i. h (f i)) (map h xs)
map-HasElements h n f xs p = record {
  size = length-map h xs ∙ p.size;
  element = λ i b. let e = p.element i b in get_elem?-map h xs i ∙ rw e refl;
}

-- The element at an index; there is one in each row that the theorems speak of.
abbrev pub coordinate : {D : Type 0} ⦃d : Double D⦄ → List D → ℕ → D
coordinate ⦃d⦄ x i = elim (get_elem? x i) [ none ↦ d.nought | some v ↦ v ]

module _ {D : Type 0} ⦃d : Double D⦄ where
  open d use {nought, of_uint, add, sub, mul, div}

  -- The sum of a term over the elements of a column, from the first row on.
  unfoldable pub column_sum : (D → D) → ℕ → D → List (List D) → D
  column_sum term i total [] = total
  column_sum term i total (x ∷ xs) = column_sum term i (add total (term (coordinate x i))) xs

  abbrev pub column_mean : List (List D) → ℕ → D
  column_mean xs i = div (column_sum (λ v. v) i nought xs) (of_uint (length xs))

  abbrev pub column_squares : List (List D) → ℕ → D
  column_squares xs i = div (column_sum (λ v. mul v v) i nought xs) (of_uint (length xs))

  -- Behind `n` rows: the sums by column.
  pub record HasSums (dim n : ℕ) (f g : ℕ → D) (s : ScalesState D) : Type 0 where
    pub dimension : s.dimension ≡ dim
    pub rows : s.num_rows ≡ n
    pub mean : HasElements dim f s.mean
    pub std : HasElements dim g s.std

  coordinate_of : (x : List D) (i : ℕ) → i < length x → get_elem? x i ≡ some (coordinate x i)
  coordinate_of [] i b = absurd (omega arith)
  coordinate_of (x ∷ xs) zero b = refl
  coordinate_of (x ∷ xs) (suc i) b = coordinate_of xs i (omega arith)

  add_elements-HasElements :
      (term : D → D) (dim : ℕ) (x : List D) (f : ℕ → D) (xs : List D)
      → dim ≤ length x
      → HasElements dim f xs
      → (ys : List D) × (add_elements term dim x xs ≡ some ys)
        × HasElements dim (λ i. add (f i) (term (coordinate x i))) ys
  unfolding add_elements
  add_elements-HasElements term dim x f xs long p =
      update-HasElements dim (λ i u. get_elem? x i >>= λ v. some (add u (term v)))
        (λ i u. add u (term (coordinate x i))) f xs p
        (λ i u b. let e = coordinate_of x i (omega arith) in rw e refl)

  transition_by :
      (state s : ScalesState D) (x : List D) (dim : ℕ) {mean std : List D}
      → (if state.num_rows == 0 then no_scales dim else state) ≡ s
      → add_elements (λ v. v) s.dimension x s.mean ≡ some mean
      → add_elements (λ v. mul v v) s.dimension x s.std ≡ some std
      → var_scales_transition state x dim
        ≡ some (record s { num_rows = s.num_rows + 1; mean = mean; std = std })
  unfolding var_scales_transition
  transition_by state s x dim e₁ e₂ e₃ = rw (e₁, e₂, e₃)

  pub transition-HasSums :
      (state s : ScalesState D) (x : List D) (dim n : ℕ) (f g : ℕ → D)
      → (if state.num_rows == 0 then no_scales dim else state) ≡ s
      → HasSums dim n f g s
      → dim ≤ length x
      → (t : ScalesState D) × (var_scales_transition state x dim ≡ some t)
        × HasSums dim
            (suc n)
            (λ i. add (f i) (coordinate x i))
            (λ i. add (g i) (mul (coordinate x i) (coordinate x i)))
            t
  transition-HasSums state s x dim n f g e p long =
      let (mean, em, q) = add_elements-HasElements (λ v. v) dim x f s.mean long p.mean in
      let (std, es, r) = add_elements-HasElements (λ v. mul v v) dim x g s.std long p.std in
      (
        _,
        transition_by state s x dim e (rw p.dimension em) (rw p.dimension es),
        record { dimension = p.dimension; rows = omega (arith, p.rows); mean = q; std = r },
      )

  pub run-HasSums :
      (xs : List (List D)) (s : ScalesState D) (dim n : ℕ) (f g : ℕ → D)
      → HasSums dim (suc n) f g s
      → All (λ x. dim ≤ length x) xs
      → (t : ScalesState D) × (var_scales_run s xs dim ≡ some t)
        × HasSums dim
            (suc n + length xs)
            (λ i. column_sum (λ v. v) i (f i) xs)
            (λ i. column_sum (λ v. mul v v) i (g i) xs)
            t
  unfolding var_scales_run column_sum
  run-HasSums [] s dim n f g p long = (
    s,
    refl,
    record { dimension = p.dimension; rows = omega (arith, p.rows); mean = p.mean; std = p.std },
  )
  run-HasSums (x ∷ xs) s dim n f g p (h, hs) =
      let going : (s.num_rows == 0) ≡ false = ground (arith, p.rows) in
      let (t, e, q) = transition-HasSums s s x dim (suc n) f g (rw going) p h in
      let (u, e', r) = run-HasSums xs t dim (suc n) _ _ q hs in
      (
        u,
        rw e e',
        record {
          dimension = r.dimension;
          rows = omega (arith, r.rows);
          mean = r.mean;
          std = r.std;
        },
      )
