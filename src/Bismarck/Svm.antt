-- ===== src/Bismarck/Svm.antt =====
-- src/svm-inl.h and the entry points of src/svm.cc that are its own.
pub mod Steps
use madlibport.Base.{
  ℕ, suc, ◌+◌, ◌*◌, ◌/◌, ◌≤◌, ◌<◌, ◌≡◌, refl, Bool, true, false, Option, none, some, List, [], ◌∷◌,
  arith, length, get_elem?, replicate, leb, ◌||◌, ◌==◌, if◌then◌else◌, ◌>>=◌, All,
}
use madlibport.Doubles.{Double}
use madlibport.Bismarck.Linalg.{simple_dot, simple_scale_add, simple_scale}
use madlibport.Bismarck.Models.{label_sign, ensure_model, merge_models}
use madlibport.Bismarck.Uda.{
  Bytea, StringVal, double_size, doubles_at, coerce_bytea, to_bytea, Learner,
}

module _ {D : Type 0} ⦃d : Double D⦄ where
  open d use {nought, one, sub, mul, lt}

  unfoldable pub svm_loss : Bytea D → Bool → Bytea D → Option D
  svm_loss v y model = do
    let (modelp, model_len) = coerce_bytea model
    let (vp, v_len) = coerce_bytea v
    pred ← simple_dot modelp vp model_len
    let margin = sub one (mul pred (label_sign y))
    some (if lt margin nought then nought else margin)

  unfoldable pub svm_step : Bytea D → Bool → Bytea D → D → D → Option (Bytea D)
  svm_step val y input step_size mu = do
    let (v, len_val) = coerce_bytea val
    let (model, len) = ensure_model input.str input.len len_val
    let model_len = len / double_size
    let lbl = label_sign y
    dot ← simple_dot (get_elem? model) v model_len
    let pred = mul dot lbl
    moved ←
        (if lt pred one then simple_scale_add model v (mul step_size lbl) model_len else some model)
    shrunk ← simple_scale moved (sub one (mul step_size mu)) model_len
    some (record { str = some shrunk; len = len })

  unfoldable pub svm_merge : Bytea D → Bytea D → Option (Bytea D)
  svm_merge src dst = do
    str ← merge_models dst.str (doubles_at src.str) (dst.len / double_size)
    some (record dst { str = str })

  abbrev pub svm : Learner D
  svm = record { step = svm_step; merge = svm_merge }

  unfoldable pub svm_predict_model : Bytea D → Bytea D → Option Bool
  svm_predict_model ex model = do
    let (modelp, model_len) = coerce_bytea model
    let (vp, v_len) = coerce_bytea ex
    pred ← simple_dot modelp vp model_len
    some (lt nought pred)

  -- The value of a nullable result; the outer `none` is a fault, the inner one is NULL.
  unfoldable pub svm_predict : StringVal D → StringVal D → Option (Option Bool)
  svm_predict model ex =
      if model.is_null || ex.is_null
      then some none
      else (svm_predict_model (to_bytea ex) (to_bytea model) >>= λ r. some (some r))

  unfoldable pub svm_loss_of : StringVal D → StringVal D → Option Bool → Option (Option D)
  svm_loss_of model ex none = some none
  svm_loss_of model ex (some lbl) =
      if model.is_null || ex.is_null
      then some none
      else (svm_loss (to_bytea ex) lbl (to_bytea model) >>= λ r. some (some r))
