-- ===== src/Convex/Scales/Deviation.antt =====
-- The final function of the scales after the transitions of a table.
use madlibport.Base.{
  ℕ, suc, ◌≤◌, ◌≡◌, refl, true, false, some, List, ◌∷◌, map, arith, length, get_elem?, replicate,
  length-replicate, get_elem?-replicate, ◌==◌, ◌>>=◌, All, update_cells,
}
use madlibport.Doubles.{Double}
use madlibport.Convex.Scales.{ScalesState, no_scales, var_scales_final, var_scales_run}
use madlibport.Convex.Scales.Totals.{
  HasElements, HasSums, column_sum, column_mean, column_squares, map-HasElements, run-HasSums,
  transition-HasSums, update-HasElements,
}

module _ {D : Type 0} ⦃d : Double D⦄ where
  open d use {nought, of_uint, add, sub, mul, div}

  zeros-HasElements : (n : ℕ) → HasElements n (λ _. nought) (replicate n nought)
  zeros-HasElements n = record {
    size = length-replicate n nought;
    element = λ i b. get_elem?-replicate n i nought b;
  }

  table-HasSums :
      (x : List D) (xs : List (List D)) (s : ScalesState D) (dim : ℕ)
      → s.num_rows ≡ 0
      → All (λ y. dim ≤ length y) (x ∷ xs)
      → (t : ScalesState D) × (var_scales_run s (x ∷ xs) dim ≡ some t)
        × HasSums dim
            (length (x ∷ xs))
            (λ i. column_sum (λ v. v) i nought (x ∷ xs))
            (λ i. column_sum (λ v. mul v v) i nought (x ∷ xs))
            t
  unfolding var_scales_run column_sum
  table-HasSums x xs s dim fresh (h, hs) =
      let zeros = zeros-HasElements dim in
      let start : (s.num_rows == 0) ≡ true = ground arith in
      let (t, e, q) =
        transition-HasSums s (no_scales dim) x dim 0 (λ _. nought) (λ _. nought) (rw start refl)
          (record { dimension = refl; rows = refl; mean = zeros; std = zeros }) h in
      let (u, e', r) = run-HasSums xs t dim 0 _ _ q hs in
      (
        u,
        rw e e',
        record {
          dimension = r.dimension;
          rows = omega (arith, r.rows);
          mean = r.mean;
          std = r.std;
        },
      )

  module _ (sqrt : D → D) where
    final_by :
        (s : ScalesState D) {std : List D}
        → (s.num_rows == 0) ≡ false
        → update_cells 0 s.dimension
            (λ _ i u. get_elem? (map (λ v. div v (of_uint s.num_rows)) s.mean) i >>= λ m.
              some (sqrt (sub u (mul m m))))
            (map (λ v. div v (of_uint s.num_rows)) s.std)
          ≡ some std
        → var_scales_final sqrt s
          ≡ some
              (some (record s { mean = map (λ v. div v (of_uint s.num_rows)) s.mean; std = std }))
    unfolding var_scales_final
    final_by s e₁ e₂ = rw (e₁, e₂)

    final-HasElements :
        (s : ScalesState D) (dim n : ℕ) (f g : ℕ → D)
        → HasSums dim (suc n) f g s
        → (r : ScalesState D) × (var_scales_final sqrt s ≡ some (some r))
          × HasElements dim (λ i. div (f i) (of_uint (suc n))) r.mean
          × HasElements dim
              (λ i.
                let m = div (f i) (of_uint (suc n)) in
                sqrt (sub (div (g i) (of_uint (suc n))) (mul m m)))
              r.std
    final-HasElements s dim n f g p =
        let count = of_uint (suc n) in
        let means = map-HasElements (λ v. div v count) dim f s.mean p.mean in
        let squares = map-HasElements (λ v. div v count) dim g s.std p.std in
        let going : (s.num_rows == 0) ≡ false = ground (arith, p.rows) in
        let (std, e, q) =
          update-HasElements dim
            (λ i u.
              get_elem? (map (λ v. div v count) s.mean) i >>= λ m. some (sqrt (sub u (mul m m))))
            (λ i u. let m = div (f i) count in sqrt (sub u (mul m m))) _ _ squares
            (λ i u b. let at = means.element i b in rw at refl) in
        (_, final_by s going (rw (p.rows, p.dimension) e), rw p.rows means, q)

    -- From a state without rows, over one or more rows with at least as many elements as the
    -- dimension, no access is outside a vector, and the final function does not return NULL: the mean
    -- of each column is the sum of its elements by their number, and its deviation the square root of
    -- the mean of the squares less the square of the mean, all sums in the order of the rows.
    pub var_scales_run-HasElements :
        (x : List D) (xs : List (List D)) (s : ScalesState D) (dim : ℕ)
        → s.num_rows ≡ 0
        → All (λ y. dim ≤ length y) (x ∷ xs)
        → (t : ScalesState D) × (r : ScalesState D) × (var_scales_run s (x ∷ xs) dim ≡ some t)
          × (var_scales_final sqrt t ≡ some (some r))
          × HasElements dim (column_mean (x ∷ xs)) r.mean
          × HasElements dim
              (λ i.
                let m = column_mean (x ∷ xs) i in sqrt (sub (column_squares (x ∷ xs) i) (mul m m)))
              r.std
    var_scales_run-HasElements x xs s dim fresh long =
        let (t, e, p) = table-HasSums x xs s dim fresh long in
        let (r, e', means, deviations) = final-HasElements t dim (length xs) _ _ p in
        (t, r, e, e', means, deviations)
