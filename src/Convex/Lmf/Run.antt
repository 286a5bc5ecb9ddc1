-- ===== src/Convex/Lmf/Run.antt =====
-- An iteration of matrix factorization: all transitions, then the final function.
use madlibport.Base.{
  ℕ, suc, ◌+◌, ◌-◌, ◌*◌, ◌≤◌, ◌<◌, ◌≡◌, refl, ◌∙◌, ap, true, false, ◌||◌, some, List, [], ◌∷◌,
  arith, length, ◌==◌, if◌then◌else◌, All,
}
use madlibport.Base.Outcome.{ok}
use madlibport.Doubles.{Double}
use madlibport.Convex.Lmf.{
  Start, Generator, drawn_element, begin_iteration, lmf_igd_transition, lmf_run,
}
use madlibport.Convex.Lmf.Step.{
  LmfModel, LmfTask, LmfState, LmfTuple, tabulate, gradient_in_place, lmf_loss, lmf_step,
}
use madlibport.Convex.Lmf.Factors.{
  Factors, Holds, residual, descend, gradient_in_place-Holds, loss_lem,
}

-- The indices count from 1.
abbrev pub IsIndexed : {D : Type 0} → ℕ → ℕ → LmfTuple D → Type 0
IsIndexed rows cols t = (1 ≤ t.i) × (t.i ≤ rows) × (1 ≤ t.j) × (t.j ≤ cols)

abbrev pub from_zero : {D : Type 0} → LmfTuple D → LmfTuple D
from_zero t = record t { i = t.i - 1; j = t.j - 1 }

-- Behind `n` tuples: the task is as it was, the incremental model holds the factors.
pub record IsTrained {D : Type 0} (rank : ℕ) (task : LmfTask D) (f : Factors D) (total : D) (n : ℕ)
    (s : LmfState D) : Type 0 where
  pub same_task : s.task ≡ task
  pub count : s.algo.num_rows ≡ n
  pub total_loss : s.algo.loss ≡ total
  pub model : Holds task.row_dim task.col_dim rank f s.algo.incr_model

with_count :
    {D : Type 0} {rank : ℕ} {task : LmfTask D} {f : Factors D} {total : D} {m n : ℕ}
    {s : LmfState D}
    → IsTrained rank task f total m s
    → m ≡ n
    → IsTrained rank task f total n s
with_count p e = record {
  same_task = p.same_task;
  count = p.count ∙ e;
  total_loss = p.total_loss;
  model = p.model;
}

module _ {D : Type 0} ⦃d : Double D⦄ (dot : List D → List D → D) where
  open d use {nought, of_uint, add, mul, div, le}

  -- The gradient steps of the tuples, one after the other.
  unfoldable pub fit : D → Factors D → List (LmfTuple D) → Factors D
  fit stepsize f [] = f
  fit stepsize f (t ∷ ts) = fit stepsize (descend dot stepsize f (from_zero t)) ts

  -- The squared errors of the factors at the tuples, added to a sum.
  unfoldable pub squared_errors : Factors D → D → List (LmfTuple D) → D
  squared_errors f total [] = total
  squared_errors f total (t ∷ ts) =
      let e = residual dot f (from_zero t) in squared_errors f (add total (mul e e)) ts

  step_by :
      (s : LmfState D) (t : LmfTuple D) {m : LmfModel D} {e : D}
      → gradient_in_place dot s.algo.incr_model t s.task.stepsize ≡ some m
      → lmf_loss dot s.task.model t ≡ some e
      → lmf_step dot s t
        ≡ some (record s {
          algo = record {
            num_rows = s.algo.num_rows + 1;
            loss = add s.algo.loss e;
            incr_model = m;
          };
        })
  unfolding lmf_step
  step_by s t e₁ e₂ = rw (e₁, e₂)

  transition_by :
      (rng : Generator D) (start : Start D) (s : LmfState D) (t : LmfTuple D) {s₀ s' : LmfState D}
      → (if s.algo.num_rows == 0 then begin_iteration rng start else ok s) ≡ ok s₀
      → (t.i == 0 || t.j == 0) ≡ false
      → lmf_step dot s₀ (from_zero t) ≡ some s'
      → lmf_igd_transition dot rng start s t ≡ ok s'
  unfolding lmf_igd_transition
  transition_by rng start s t e₁ e₂ e₃ = rw (e₁, e₂, e₃)

  module _ (rank : ℕ) (task : LmfTask D) (initial : Factors D)
      (initial_holds : Holds task.row_dim task.col_dim rank initial task.model) where
    -- A transition from the state that it works on.
    transition-IsTrained :
        (rng : Generator D) (start : Start D) (s s₀ : LmfState D) (t : LmfTuple D) (f : Factors D)
        (total : D) (n : ℕ)
        → (if s.algo.num_rows == 0 then begin_iteration rng start else ok s) ≡ ok s₀
        → IsTrained rank task f total n s₀
        → IsIndexed task.row_dim task.col_dim t
        → (s' : LmfState D) × (lmf_igd_transition dot rng start s t ≡ ok s')
          × IsTrained rank task
              (descend dot task.stepsize f (from_zero t))
              (let e = residual dot initial (from_zero t) in add total (mul e e))
              (suc n)
              s'
    transition-IsTrained rng start s s₀ t f total n e p (i₁, i₂, j₁, j₂) =
        let t' = from_zero t in
        let hi : t'.i < task.row_dim = omega arith in
        let hj : t'.j < task.col_dim = omega arith in
        let inside : (t.i == 0 || t.j == 0) ≡ false = ground arith in
        let (m, em, q) =
          gradient_in_place-Holds dot task.row_dim task.col_dim rank f s₀.algo.incr_model t'
            task.stepsize p.model hi hj in
        let el =
          loss_lem dot task.row_dim task.col_dim rank initial task.model t' initial_holds hi hj in
        let step =
          step_by s₀ t'
            (ap (λ (k : LmfTask D). gradient_in_place dot s₀.algo.incr_model t' k.stepsize)
                p.same_task
              ∙ em)
            (ap (λ (k : LmfTask D). lmf_loss dot k.model t') p.same_task ∙ el) in
        (
          _,
          transition_by rng start s t e inside step,
          record {
            same_task = p.same_task;
            count = omega (arith, p.count);
            total_loss =
                ap (λ (l : D). add l (mul (residual dot initial t') (residual dot initial t')))
                  p.total_loss;
            model = q;
          },
        )

    run-IsTrained :
        (rng : Generator D) (start : Start D) (ts : List (LmfTuple D)) (s : LmfState D)
        (f : Factors D) (total : D) (n : ℕ)
        → IsTrained rank task f total (suc n) s
        → All (IsIndexed task.row_dim task.col_dim) ts
        → (s' : LmfState D) × (lmf_run dot rng start s ts ≡ ok s')
          × IsTrained rank task
              (fit task.stepsize f ts)
              (squared_errors initial total ts)
              (suc n + length ts)
              s'
    unfolding lmf_run fit squared_errors
    run-IsTrained rng start [] s f total n p h = (s, refl, with_count p (omega arith))
    run-IsTrained rng start (t ∷ ts) s f total n p (h, hs) =
        let going : (s.algo.num_rows == 0) ≡ false = ground (arith, p.count) in
        let (s', e, q) = transition-IsTrained rng start s s t f total (suc n) (rw going) p h in
        let (s'', e', r) = run-IsTrained rng start ts s' _ _ (suc n) q hs in
        (s'', rw e e', with_count r (omega arith))

    -- All tuples, the first of which begins the iteration.
    pub begun-IsTrained :
        (rng : Generator D) (start : Start D) (t : LmfTuple D) (ts : List (LmfTuple D))
        (s s₀ : LmfState D)
        → s.algo.num_rows ≡ 0
        → begin_iteration rng start ≡ ok s₀
        → IsTrained rank task initial nought 0 s₀
        → All (IsIndexed task.row_dim task.col_dim) (t ∷ ts)
        → (s' : LmfState D) × (lmf_run dot rng start s (t ∷ ts) ≡ ok s')
          × IsTrained rank task
              (fit task.stepsize initial (t ∷ ts))
              (squared_errors initial nought (t ∷ ts))
              (length (t ∷ ts))
              s'
    unfolding lmf_run fit squared_errors
    begun-IsTrained rng start t ts s s₀ marker e p (h, hs) =
        let fresh : (s.algo.num_rows == 0) ≡ true = ground arith in
        let (s', e', q) = transition-IsTrained rng start s s₀ t initial nought 0 (rw fresh e) p h in
        let (s'', e'', r) = run-IsTrained rng start ts s' _ _ 0 q hs in
        (s'', rw e' e'', with_count r (omega arith))

-- The factors that an iteration starts with.
abbrev pub start_factors : {D : Type 0} ⦃d : Double D⦄ → Generator D → D → ℕ → ℕ → ℕ → Factors D
start_factors rng scale rows cols rank = record {
  left = λ i. tabulate rank (λ rr. drawn_element rng scale (rr * rows + i));
  right = λ j. tabulate rank (λ rr. drawn_element rng scale (rank * rows + (rr * cols + j)));
}
