-- ===== src/Bismarck/Learners.antt =====
-- The aggregates of src/svm.cc and src/logreg.cc, each with the class that does its learning.
use madlibport.Base.{ℕ, ◌≡◌, none, List, ◌∷◌, All, Returns}
use madlibport.Doubles.{Double}
use madlibport.Bismarck.Svm.{svm}
use madlibport.Bismarck.Svm.Steps.{svm-IsLearner}
use madlibport.Bismarck.Logreg.{logr}
use madlibport.Bismarck.Logreg.Steps.{logr-IsLearner}
use madlibport.Bismarck.Uda.{StringVal, Row, init, run, Holds, HoldsModel}
use madlibport.Bismarck.Uda.Pass.{IsState, run-HoldsModel}

module _ {D : Type 0} ⦃d : Double D⦄ where
  -- For the SVM and for logistic regression: from `Init` on a state whose pointer is NULL, over one or
  -- more rows whose examples have n doubles, with no previous model or one of n doubles, `Update`
  -- never faults and leaves a model of n doubles that is not NULL.
  pub passes-HoldsModel :
      (n : ℕ) (prev : StringVal D) (step_size mu : D) (row : Row D) (rows : List (Row D))
      (model : StringVal D)
      → IsState n prev
      → All (λ (r : Row D). Holds n r.ex.ptr r.ex.len) (row ∷ rows)
      → model.ptr ≡ none
      → Returns (HoldsModel n) (run svm prev step_size mu (row ∷ rows) (init model))
        × Returns (HoldsModel n) (run logr prev step_size mu (row ∷ rows) (init model))
  passes-HoldsModel n prev step_size mu row rows model hp hr empty = (
    run-HoldsModel svm svm-IsLearner n prev step_size mu row rows model hp hr empty,
    run-HoldsModel logr logr-IsLearner n prev step_size mu row rows model hp hr empty,
  )
