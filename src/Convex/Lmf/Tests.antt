-- ===== src/Convex/Lmf/Tests.antt =====
-- Small runs of matrix factorization.
use madlibport.Base.{◌*◌, refl, List, [], ◌∷◌, arith}
use madlibport.Base.Int.{pos}
use madlibport.Doubles.{Hundredths, hundredths_double}
use madlibport.Convex.Lmf.{config, Generator}
use madlibport.Convex.Lmf.Step.{LmfModel, LmfState, LmfTuple}
use madlibport.Convex.Lmf.Run.{start_factors}
use madlibport.Convex.Lmf.Iteration.{Fits, from_config, iteration-IsFitted}

abbrev counting : Generator Hundredths
counting = record { min = pos 0; max = pos 400; draw = λ n. pos (100 * n) }

abbrev dot : List Hundredths → List Hundredths → Hundredths
dot (x ∷ xs) (y ∷ ys) = hundredths_double.mul x y
dot xs ys = pos 0

abbrev root : Hundredths → Hundredths
root x = x

abbrev no_model : LmfModel Hundredths
no_model = record { matrix_u = []; matrix_v = [] }

abbrev marker : LmfState Hundredths
marker = record {
  task = record {
    row_dim = 0;
    col_dim = 0;
    max_rank = 0;
    stepsize = pos 0;
    scale_factor = pos 0;
    model = no_model;
    rmse = pos 0;
  };
  algo = record { num_rows = 0; loss = pos 0; incr_model = no_model };
}

-- One entry of a matrix of 2 rows and a column.
abbrev entry : LmfTuple Hundredths
entry = record { i = 2; j = 1; dep_var = pos 300 }

iteration-IsFitted_example :
    Fits dot root counting
      (config 2 1 1 (pos 50) (pos 100))
      marker
      2
      1
      1
      (pos 50)
      (start_factors counting (pos 100) 2 1 1)
      (entry ∷ [])
iteration-IsFitted_example =
    iteration-IsFitted dot root counting (config 2 1 1 (pos 50) (pos 100)) 2 1 1 (pos 50)
      (start_factors counting (pos 100) 2 1 1) marker entry []
      (from_config 2 1 1 (pos 50) (pos 100) (omega arith) (omega arith) (omega arith) (omega arith)
        refl refl)
      refl ((omega arith, omega arith, omega arith, omega arith), tt)
