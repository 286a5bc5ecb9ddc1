-- ===== src/Bismarck/Logreg.antt =====
-- src/logreg-inl.h and the entry points of src/logreg.cc that are its own.
pub mod Steps
use madlibport.Base.{ℕ, ◌/◌, Bool, Option, none, some, List, get_elem?, ◌||◌, if◌then◌else◌, ◌>>=◌}
use madlibport.Doubles.{Double}
use madlibport.Bismarck.Linalg.{simple_dot, simple_scale_add}
use madlibport.Bismarck.Models.{label_sign, ensure_model, merge_models}
use madlibport.Bismarck.Uda.{
  Bytea, StringVal, double_size, doubles_at, coerce_bytea, to_bytea, Learner,
}

module _ {D : Type 0} ⦃d : Double D⦄ where
  open d use {one, half, neg, add, mul, div, exp, log, lt}

  -- `1.0 / (1.0 + exp(-1.0 * pred))`
  abbrev pub sigmoid : D → D
  sigmoid pred = div one (add one (exp (mul (neg one) pred)))

  unfoldable pub logr_loss : Bytea D → Bool → Bytea D → Option D
  logr_loss v y model = do
    let (modelp, model_len) = coerce_bytea model
    let (vp, v_len) = coerce_bytea v
    pred ← simple_dot modelp vp model_len
    some (log (add one (exp (mul (mul (neg one) (label_sign y)) pred))))

  -- `mu` is not used.
  unfoldable pub logr_step : Bytea D → Bool → Bytea D → D → D → Option (Bytea D)
  logr_step val y input step mu = do
    let (v, len_val) = coerce_bytea val
    let (model, len) = ensure_model input.str input.len len_val
    let model_len = len / double_size
    let lbl = label_sign y
    pred ← simple_dot (get_elem? model) v model_len
    let ebx = exp (mul (neg one) pred)
    let scal = add (div (neg one) (add one ebx)) lbl
    moved ← simple_scale_add model v (mul step scal) model_len
    some (record { str = some moved; len = len })

  unfoldable pub logr_merge : Bytea D → Bytea D → Option (Bytea D)
  logr_merge src dst = do
    str ← merge_models dst.str (doubles_at src.str) (dst.len / double_size)
    some (record dst { str = str })

  abbrev pub logr : Learner D
  logr = record { step = logr_step; merge = logr_merge }

  unfoldable pub logr_predict_model : Bytea D → Bytea D → Option Bool
  logr_predict_model ex model = do
    let (modelp, model_len) = coerce_bytea model
    let (vp, v_len) = coerce_bytea ex
    pred ← simple_dot modelp vp model_len
    some (lt half (sigmoid pred))

  unfoldable pub logr_predict : StringVal D → StringVal D → Option (Option Bool)
  unfolding logr_predict_model
  logr_predict model ex =
      if model.is_null || ex.is_null
      then some none
      else (logr_predict_model (to_bytea ex) (to_bytea model) >>= λ r. some (some r))

  unfoldable pub logr_loss_of : StringVal D → StringVal D → Option Bool → Option (Option D)
  unfolding logr_loss
  logr_loss_of model ex none = some none
  logr_loss_of model ex (some lbl) =
      if model.is_null || ex.is_null
      then some none
      else (logr_loss (to_bytea ex) lbl (to_bytea model) >>= λ r. some (some r))
