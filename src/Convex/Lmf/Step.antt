-- ===== src/Convex/Lmf/Step.antt =====
-- The state of matrix factorization by gradient descent, a gradient step, and the merge of models.
use madlibport.Base.{
  ℕ, zero, suc, ◌+◌, Option, none, some, List, [], ◌∷◌, map, get_elem?, set?, ◌==◌, if◌then◌else◌,
  ◌>>=◌,
}
use madlibport.Doubles.{Double}

pub record LmfModel (D : Type 0) : Type 0 where
  pub matrix_u : List (List D)
  pub matrix_v : List (List D)

pub record LmfTask (D : Type 0) : Type 0 where
  pub row_dim : ℕ
  pub col_dim : ℕ
  pub max_rank : ℕ
  pub stepsize : D
  pub scale_factor : D
  pub model : LmfModel D
  pub rmse : D

pub record LmfAlgo (D : Type 0) : Type 0 where
  pub num_rows : ℕ
  pub loss : D
  pub incr_model : LmfModel D

pub record LmfState (D : Type 0) : Type 0 where
  pub task : LmfTask D
  pub algo : LmfAlgo D

-- The indices and the entry of the matrix.
pub record LmfTuple (D : Type 0) : Type 0 where
  pub i : ℕ
  pub j : ℕ
  pub dep_var : D

-- The values at 0 to n - 1.
unfoldable pub tabulate : {A : Type 0} → ℕ → (ℕ → A) → List A
tabulate zero f = []
tabulate (suc n) f = f 0 ∷ tabulate n (λ k. f (suc k))

-- An operation on the elements of two vectors, or on the rows of two matrices; `none` where their
-- sizes differ.
unfoldable pub zip_with? : {A : Type 0} → (A → A → Option A) → List A → List A → Option (List A)
zip_with? op [] [] = some []
zip_with? op [] (y ∷ ys) = none
zip_with? op (x ∷ xs) [] = none
zip_with? op (x ∷ xs) (y ∷ ys) = do z ← op x y; zs ← zip_with? op xs ys; some (z ∷ zs)

module _ {D : Type 0} ⦃d : Double D⦄ where
  open d use {of_uint, add, sub, mul, div}

  -- `x - c * y` for two rows.
  unfoldable pub sub_scaled : D → List D → List D → Option (List D)
  unfolding zip_with?
  sub_scaled c x y = zip_with? (λ u v. some (sub u (mul c v))) x y

  abbrev pub scale_matrix : D → List (List D) → List (List D)
  scale_matrix c m = map (map (λ u. mul u c)) m

  unfoldable pub add_matrices : List (List D) → List (List D) → Option (List (List D))
  unfolding zip_with?
  add_matrices = zip_with? (zip_with? (λ u v. some (add u v)))

  -- `operator*=` and `operator+=`
  abbrev pub scale_model : D → LmfModel D → LmfModel D
  scale_model c m = record {
    matrix_u = scale_matrix c m.matrix_u;
    matrix_v = scale_matrix c m.matrix_v;
  }

  unfoldable pub add_model : LmfModel D → LmfModel D → Option (LmfModel D)
  unfolding add_matrices
  add_model m other = do
    u ← add_matrices m.matrix_u other.matrix_u
    v ← add_matrices m.matrix_v other.matrix_v
    some (record { matrix_u = u; matrix_v = v })

  -- `IGD::merge`
  unfoldable pub igd_merge : LmfState D → LmfState D → Option (LmfState D)
  igd_merge s other =
      let with_model = λ (m : LmfModel D). record s { algo = record s.algo { incr_model = m } } in
      let rows = of_uint s.algo.num_rows in
      let other_rows = of_uint other.algo.num_rows in
      let total = of_uint (s.algo.num_rows + other.algo.num_rows) in
      if s.algo.num_rows == 0
      then some (with_model other.algo.incr_model)
      else if other.algo.num_rows == 0
      then some s
      else (add_model (scale_model (div rows other_rows) s.algo.incr_model) other.algo.incr_model
          >>= λ m. some (with_model (scale_model (div other_rows total) m)))

-- Over the product of a row and a transposed row of Eigen.
module _ {D : Type 0} ⦃d : Double D⦄ (dot : List D → List D → D) where
  open d use {add, sub, mul}

  -- `gradientInPlace`
  unfoldable pub gradient_in_place : LmfModel D → LmfTuple D → D → Option (LmfModel D)
  gradient_in_place m t stepsize = do
    u ← get_elem? m.matrix_u t.i
    v ← get_elem? m.matrix_v t.j
    let e = sub (dot u v) t.dep_var
    temp ← sub_scaled (mul stepsize e) u v
    moved ← sub_scaled (mul stepsize e) v u
    matrix_v ← set? m.matrix_v t.j moved
    matrix_u ← set? m.matrix_u t.i temp
    some (record { matrix_u = matrix_u; matrix_v = matrix_v })

  -- `LMF::loss`
  unfoldable pub lmf_loss : LmfModel D → LmfTuple D → Option D
  lmf_loss m t = do
    u ← get_elem? m.matrix_u t.i
    v ← get_elem? m.matrix_v t.j
    let e = sub (dot u v) t.dep_var
    some (mul e e)

  -- `transition` of `IGD` and of `Loss`, and the count of the tuple.
  unfoldable pub lmf_step : LmfState D → LmfTuple D → Option (LmfState D)
  lmf_step s t = do
    incr_model ← gradient_in_place s.algo.incr_model t s.task.stepsize
    e ← lmf_loss s.task.model t
    some (record s {
      algo = record {
        num_rows = s.algo.num_rows + 1;
        loss = add s.algo.loss e;
        incr_model = incr_model;
      };
    })
