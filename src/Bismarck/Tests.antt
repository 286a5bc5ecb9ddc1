-- ===== src/Bismarck/Tests.antt =====
-- Runs of the gradient-descent aggregates, and their theorems at concrete inputs.
use madlibport.Base.{
  ◌≡◌, refl, ◌↔◌, true, false, none, some, List, [], ◌∷◌, arith, get_elem?, Returns, for_loop,
  update_cells, inl,
}
use madlibport.Base.Int.{pos, negsuc}
use madlibport.Doubles.{Hundredths, hundredths_double}
use madlibport.Bismarck.Linalg.{simple_dot, simple_scale_add, simple_scale, Readable, Readable-list}
use madlibport.Bismarck.Uda.{Bytea, StringVal, Row, Holds, HoldsModel, run, init}
use madlibport.Bismarck.Models.{Combined, merge_models}
use madlibport.Bismarck.Svm.{
  svm, svm_step, svm_merge, svm_loss, svm_predict, svm_predict_model, svm_loss_of,
}
use madlibport.Bismarck.Learners.{passes-HoldsModel}
use madlibport.Bismarck.Logreg.{logr}
use madlibport.Bismarck.Svm.Steps.{SvmSteps, svm_step_lem, svm_merge_lem}
use madlibport.Bismarck.Logreg.{
  logr_step, logr_predict, logr_predict_model, logr_loss_of, logr_loss,
}
use madlibport.Bismarck.Logreg.Steps.{LogrSteps, logr_step_lem, logr_step-Readable_iff}

-- 2.00, -1.00 and the model 1.00, 0.50.
abbrev example_cells : List Hundredths
example_cells = pos 200 ∷ negsuc 99 ∷ []

abbrev model_cells : List Hundredths
model_cells = pos 100 ∷ pos 50 ∷ []

abbrev example : Bytea Hundredths
example = record { str = some example_cells; len = 16 }

abbrev model : Bytea Hundredths
model = record { str = some model_cells; len = 16 }

abbrev example_val : StringVal Hundredths
example_val = record { is_null = false; ptr = some example_cells; len = 16 }

abbrev model_val : StringVal Hundredths
model_val = record { is_null = false; ptr = some model_cells; len = 16 }

abbrev null_val : StringVal Hundredths
null_val = record { is_null = true; ptr = none; len = 0 }

abbrev row : Row Hundredths
row = record { ex = example_val; label = false }

abbrev example-Holds : Holds 2 example.str example.len
example-Holds = (example_cells, refl, refl, refl)

abbrev model-Holds : Holds 2 model.str model.len
model-Holds = (model_cells, refl, refl, refl)

-- 1 * 2 + 0.5 * -1 = 1.5, against the label: the hinge is active.
svm_step_run :
    svm_step example false model (pos 10) (pos 0)
    ≡ some (record { str = some (pos 80 ∷ pos 60 ∷ []); len = 16 })
unfolding svm_step simple_dot simple_scale_add simple_scale for_loop update_cells
svm_step_run = refl

-- A merge of a model with itself gives one and a half times the model.
svm_merge_run :
    svm_merge model model ≡ some (record { str = some (pos 150 ∷ pos 75 ∷ []); len = 16 })
unfolding svm_merge merge_models simple_scale_add simple_scale for_loop update_cells
svm_merge_run = refl

predict_run :
    (svm_predict model_val example_val ≡ some (some true))
    × (svm_predict null_val example_val ≡ some none)
    × (svm_loss_of model_val example_val (some false) ≡ some (some (pos 250)))
    × (logr_predict model_val example_val ≡ some (some false))
    × (logr_loss_of model_val example_val none ≡ some none)
unfolding svm_predict svm_predict_model svm_loss_of svm_loss logr_predict logr_predict_model
    logr_loss_of logr_loss simple_dot for_loop
predict_run = (refl, refl, refl, refl, refl)

svm_step_lem_example : SvmSteps 2 example false model (pos 10) (pos 0) model_cells
svm_step_lem_example =
    svm_step_lem 2 example false model (pos 10) (pos 0) model_cells 16 refl refl refl
      (Readable-list example_cells 2 (omega arith))

svm_merge_lem_example :
    Combined {D = Hundredths} 2
      (get_elem? model_cells)
      (get_elem? example_cells)
      (λ u x. hundredths_double.add u (hundredths_double.mul (pos 50) x))
      (record { str = some (pos 200 ∷ pos 0 ∷ []); len = 16 })
unfolding svm_merge merge_models simple_scale_add simple_scale for_loop update_cells
svm_merge_lem_example = svm_merge_lem 2 example model example-Holds model-Holds

logr_step_lem_example : LogrSteps 2 example true model (pos 10) (pos 0) model_cells
logr_step_lem_example =
    logr_step_lem 2 example true model (pos 10) (pos 0) model_cells 16 refl refl refl
      (Readable-list example_cells 2 (omega arith))

logr_step-Readable_iff_example :
    ((m : Bytea Hundredths) × (logr_step example true model (pos 10) (pos 0) ≡ some m))
    ↔ Readable (get_elem? example_cells) 2
logr_step-Readable_iff_example =
    logr_step-Readable_iff 2 example true model (pos 10) (pos 0) model-Holds

passes-HoldsModel_example :
    Returns
      (HoldsModel 2)
      (run {D = Hundredths} svm null_val (pos 10) (pos 0) (row ∷ row ∷ []) (init null_val))
    × Returns
        (HoldsModel 2)
        (run {D = Hundredths} logr null_val (pos 10) (pos 0) (row ∷ row ∷ []) (init null_val))
passes-HoldsModel_example =
    passes-HoldsModel 2 null_val (pos 10) (pos 0) row (row ∷ []) null_val (inl refl)
      (example-Holds, (example-Holds, tt)) refl
