-- ===== src/Bismarck/Models.antt =====
-- What src/svm-inl.h and src/logreg-inl.h have in common: the sign of a label, the zero model of a
-- first step, and the body of `Merge`.
pub mod Laws
use madlibport.Base.{
  ℕ, ◌*◌, ◌/◌, ◌≡◌, Bool, true, false, Option, none, some, List, get_elem?, replicate, ◌==◌, ltb,
  if◌then◌else◌, ◌>>=◌,
}
use madlibport.Doubles.{Double}
use madlibport.Bismarck.Linalg.{Pointer, simple_scale_add, simple_scale}
use madlibport.Bismarck.Uda.{Bytea, double_size, doubles_at, Holds}

module _ {D : Type 0} where
  -- `f` of the first `n` cells of `x` and of `v`, and nothing behind them.
  abbrev pub combine : (D → D → D) → ℕ → Pointer D → Pointer D → Pointer D
  combine f n x v i = if ltb i n then (x i >>= λ a. v i >>= λ b. some (f a b)) else none

  -- The model `m` has `n` doubles: `f` of the cells of `x` and of `v`.
  abbrev pub Combined : ℕ → Pointer D → Pointer D → (D → D → D) → Bytea D → Type 0
  Combined n x v f m = Holds n m.str m.len × ((i : ℕ) → doubles_at m.str i ≡ combine f n x v i)

module _ {D : Type 0} ⦃d : Double D⦄ where
  open d use {nought, one, half, of_uint, neg}

  abbrev pub label_sign : Bool → D
  label_sign y = if y then one else neg one

  -- `if (input->str == NULL)`: a zero model of the size of the example.
  abbrev pub ensure_model : Option (List D) → ℕ → ℕ → List D × ℕ
  ensure_model none len len_val = (replicate len_val nought, len_val * double_size)
  ensure_model (some model) len len_val = (model, len)

  -- The call `simple_scale(dst, dst.len / sizeof(double), 0.5)` has its last two arguments
  -- swapped: the factor is the length, and the length is 0.5 converted to `size_t`, that is 0.
  unfoldable pub merge_models : Option (List D) → Pointer D → ℕ → Option (Option (List D))
  merge_models none src n = if n == 0 then some none else none
  merge_models (some dst) src n = do
    scaled ← simple_scale dst (of_uint n) 0
    summed ← simple_scale_add scaled src half n
    some (some summed)
