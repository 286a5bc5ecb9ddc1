-- ===== src/Convex/Lmf/Iteration.antt =====
-- Iterations of matrix factorization from a configuration, and from the state of the one before.
use madlibport.Base.{
  ℕ, suc, ◌<◌, ◌≡◌, refl, ◌∙◌, ap, false, true, ltb, ◌+◌, ◌*◌, ◌^◌, some, List, [], ◌∷◌, arith,
  length, ◌==◌, All,
}
use madlibport.Base.Outcome.{ok}
use madlibport.Doubles.{Double}
use madlibport.Convex.Lmf.{
  Start, previous, config, Generator, reset, initialize_model, begin_iteration, lmf_run,
  lmf_igd_final,
}
use madlibport.Convex.Lmf.Layout.{allocate}
use madlibport.Convex.Lmf.Step.{LmfTask, LmfState, LmfTuple}
use madlibport.Convex.Lmf.Factors.{Factors, Holds, tabulate-IsMatrix}
use madlibport.Convex.Lmf.Run.{
  IsIndexed, IsTrained, fit, squared_errors, begun-IsTrained, start_factors,
}

-- The storage of a state has a size that 32 bits hold.
abbrev pub Fitting : ℕ → ℕ → ℕ → Type 0
Fitting rows cols rank = 8 + 2 * ((rows + cols) * rank) < 2 ^ 32

-- What an iteration starts with: a configuration that is accepted, with the factors that are drawn, or
-- a state with the factors that its model holds; its storage fits.
pub data StartsWith {D : Type 0} ⦃d : Double D⦄ (rng : Generator D)
    : Start D → ℕ → ℕ → ℕ → D → Factors D → Type 0 where
  from_config :
      (rows cols rank : ℕ) (stepsize scale : D)
      → 0 < rows
      → 0 < cols
      → 0 < rank
      → Fitting rows cols rank
      → d.le stepsize d.nought ≡ false
      → d.le scale d.nought ≡ false
      → StartsWith rng
          (config rows cols rank stepsize scale)
          rows
          cols
          rank
          stepsize
          (start_factors rng scale rows cols rank)
  from_previous :
      (before : LmfState D) (f : Factors D)
      → Fitting before.task.row_dim before.task.col_dim before.task.max_rank
      → Holds before.task.row_dim before.task.col_dim before.task.max_rank f before.task.model
      → StartsWith rng
          (previous before)
          before.task.row_dim
          before.task.col_dim
          before.task.max_rank
          before.task.stepsize
          f

module _ {D : Type 0} ⦃d : Double D⦄ (dot : List D → List D → D) (sqrt : D → D) where
  open d use {nought, of_uint, div, le}

  -- What an iteration over the tuples leaves: the parameters, the trained factors as the model, and
  -- the root of the mean squared error of the factors that it began with.
  pub record IsFitted (rows cols rank : ℕ) (stepsize : D) (f : Factors D) (ts : List (LmfTuple D))
      (r : LmfState D) : Type 0 where
    pub row_dim : r.task.row_dim ≡ rows
    pub col_dim : r.task.col_dim ≡ cols
    pub max_rank : r.task.max_rank ≡ rank
    pub same_stepsize : r.task.stepsize ≡ stepsize
    pub model : Holds rows cols rank (fit dot stepsize f ts) r.task.model
    pub rmse : r.task.rmse ≡ sqrt (div (squared_errors dot f nought ts) (of_uint (length ts)))

  -- The result of an iteration.
  abbrev pub Fits :
      Generator D → Start D → LmfState D → ℕ → ℕ → ℕ → D → Factors D → List (LmfTuple D) → Type 0
  Fits rng start marker rows cols rank stepsize f ts =
      (s : LmfState D) × (r : LmfState D) × (lmf_run dot rng start marker ts ≡ ok s)
      × (lmf_igd_final sqrt s ≡ some r)
      × IsFitted rows cols rank stepsize f ts r

  final_lem :
      (s : LmfState D) (n : ℕ)
      → s.algo.num_rows ≡ suc n
      → lmf_igd_final sqrt s
        ≡ some (record s {
          task = record s.task {
            model = s.algo.incr_model;
            rmse = sqrt (div s.algo.loss (of_uint s.algo.num_rows));
          };
        })
  unfolding lmf_igd_final
  final_lem s n e = let going : (s.algo.num_rows == 0) ≡ false = ground arith in rw going

  finish :
      (rng : Generator D) (start : Start D) (marker s₀ : LmfState D) (t : LmfTuple D)
      (ts : List (LmfTuple D)) (f : Factors D)
      → marker.algo.num_rows ≡ 0
      → begin_iteration rng start ≡ ok s₀
      → Holds s₀.task.row_dim s₀.task.col_dim s₀.task.max_rank f s₀.task.model
      → IsTrained s₀.task.max_rank s₀.task f nought 0 s₀
      → All (IsIndexed s₀.task.row_dim s₀.task.col_dim) (t ∷ ts)
      → Fits rng start marker s₀.task.row_dim s₀.task.col_dim s₀.task.max_rank s₀.task.stepsize f
          (t ∷ ts)
  finish rng start marker s₀ t ts f fresh e holds trained indexed =
      let (s, run, p) =
        begun-IsTrained dot s₀.task.max_rank s₀.task f holds rng start t ts marker s₀ fresh e
          trained indexed in
      (
        s,
        _,
        run,
        final_lem s (length ts) (p.count ∙ omega arith),
        record {
          row_dim = ap (λ (k : LmfTask D). k.row_dim) p.same_task;
          col_dim = ap (λ (k : LmfTask D). k.col_dim) p.same_task;
          max_rank = ap (λ (k : LmfTask D). k.max_rank) p.same_task;
          same_stepsize = ap (λ (k : LmfTask D). k.stepsize) p.same_task;
          model = p.model;
          rmse = rw (p.total_loss, p.count);
        },
      )

  begin_by :
      (rng : Generator D) (rows cols rank : ℕ) (stepsize scale : D)
      → (rows == 0) ≡ false
      → (cols == 0) ≡ false
      → (rank == 0) ≡ false
      → le stepsize nought ≡ false
      → le scale nought ≡ false
      → Fitting rows cols rank
      → begin_iteration rng (config rows cols rank stepsize scale)
        ≡ ok (
            reset (record {
              task = record {
                row_dim = rows;
                col_dim = cols;
                max_rank = rank;
                stepsize = stepsize;
                scale_factor = scale;
                model = initialize_model rng scale rows cols rank;
                rmse = nought;
              };
              algo = record {
                num_rows = 0;
                loss = nought;
                incr_model = record { matrix_u = []; matrix_v = [] };
              };
            }))
  unfolding begin_iteration allocate
  begin_by rng rows cols rank stepsize scale e₁ e₂ e₃ e₄ e₅ fits =
      let whole : ltb (8 + 2 * ((rows + cols) * rank)) (2 ^ 32) ≡ true = ground arith in
      rw (e₁, e₂, e₃, e₄, e₅, whole)

  begin_next :
      (rng : Generator D) (s : LmfState D)
      → Fitting s.task.row_dim s.task.col_dim s.task.max_rank
      → begin_iteration rng (previous s) ≡ ok (reset s)
  unfolding begin_iteration allocate
  begin_next rng s fits =
      let whole : ltb (8 + 2 * ((s.task.row_dim + s.task.col_dim) * s.task.max_rank)) (2 ^ 32)
          ≡ true =
        ground arith in
      rw whole

  initial-Holds :
      (rng : Generator D) (scale : D) (rows cols rank : ℕ)
      → Holds rows cols rank
          (start_factors rng scale rows cols rank)
          (initialize_model rng scale rows cols rank)
  unfolding initialize_model
  initial-Holds rng scale rows cols rank = record {
    u = tabulate-IsMatrix rows rank _;
    v = tabulate-IsMatrix cols rank _;
  }

  -- One iteration over one or more tuples with indices from 1 to the dimensions, from a configuration
  -- that the code accepts or from a state whose model holds two factors, where the size of the storage,
  -- 8 + 2 * ((rows + cols) * rank), is below 2^32: nothing is thrown and nothing faults. The model of
  -- the final state holds the factors that were drawn, or those before, moved by the gradient step of
  -- each tuple in turn, both rows at once along the old row of the other; the RMSE is that of the
  -- factors that the iteration began with.
  pub iteration-IsFitted :
      (rng : Generator D) (start : Start D) (rows cols rank : ℕ) (stepsize : D) (f : Factors D)
      (marker : LmfState D) (t : LmfTuple D) (ts : List (LmfTuple D))
      → StartsWith rng start rows cols rank stepsize f
      → marker.algo.num_rows ≡ 0
      → All (IsIndexed rows cols) (t ∷ ts)
      → Fits rng start marker rows cols rank stepsize f (t ∷ ts)
  iteration-IsFitted rng _ _ _ _ _ _ marker t ts
        (from_config rows cols rank stepsize scale h₁ h₂ h₃ fits h₄ h₅) fresh indexed =
      let holds = initial-Holds rng scale rows cols rank in
      finish rng (config rows cols rank stepsize scale) marker _ t ts
        (start_factors rng scale rows cols rank) fresh
        (begin_by rng rows cols rank stepsize scale (ground arith) (ground arith) (ground arith) h₄
          h₅ fits)
        holds (record { same_task = refl; count = refl; total_loss = refl; model = holds }) indexed
  iteration-IsFitted rng _ _ _ _ _ _ marker t ts (from_previous before f fits holds) fresh indexed =
      finish rng (previous before) marker (reset before) t ts f fresh (begin_next rng before fits)
        holds (record { same_task = refl; count = refl; total_loss = refl; model = holds }) indexed
