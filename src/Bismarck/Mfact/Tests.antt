-- ===== src/Bismarck/Mfact/Tests.antt =====
-- Runs of matrix factorization, and its theorems at concrete inputs.
use madlibport.Base.{
  ℕ, zero, suc, ◌≤◌, ◌<◌, ◌≡◌, refl, none, some, List, [], ◌∷◌, arith, get_elem?, Returns, for_loop,
  update_cells,
}
use madlibport.Base.Int.{pos}
use madlibport.Doubles.{Hundredths, hundredths_double}
use madlibport.Bismarck.Linalg.{simple_dot}
use madlibport.Bismarck.Mfact.{
  Cell, word, real, Block, mf_step, mf_igd_step, scale_add_at, mf_loss, mf_merge,
}
use madlibport.Bismarck.Mfact.Layout.{IsModel}
use madlibport.Bismarck.Mfact.Model.{MfSteps, mf_step_lem}
use madlibport.Bismarck.Mfact.Init.{mf_step_first}

-- Two rows, one column, rank 1, mean 3.00; L is 1.00, 2.00 and R is 0.50.
abbrev cells : List (Cell Hundredths)
cells =
    word 2 ∷ word 1 ∷ word 1 ∷ real (pos 300) ∷ real (pos 100) ∷ real (pos 200) ∷ real (pos 50) ∷ []

abbrev block : Block Hundredths
block = record { str = some cells; len = 56 }

abbrev empty : Block Hundredths
empty = record { str = none; len = 0 }

cells-IsModel : IsModel 2 1 1 (pos 300) cells
cells-IsModel = record {
  size = refl;
  rows_cell = refl;
  cols_cell = refl;
  rank_cell = refl;
  mean_cell = refl;
  reals = reals;
}
  where
    reals : (i : ℕ) → 4 ≤ i → i < 7 → (u : Hundredths) × (get_elem? cells i ≡ some (real u))
    reals zero lo hi = absurd (omega arith)
    reals (suc zero) lo hi = absurd (omega arith)
    reals (suc (suc zero)) lo hi = absurd (omega arith)
    reals (suc (suc (suc zero))) lo hi = absurd (omega arith)
    reals (suc (suc (suc (suc zero)))) lo hi = (pos 100, refl)
    reals (suc (suc (suc (suc (suc zero))))) lo hi = (pos 200, refl)
    reals (suc (suc (suc (suc (suc (suc zero)))))) lo hi = (pos 50, refl)
    reals (suc (suc (suc (suc (suc (suc (suc i))))))) lo hi = absurd (omega arith)

-- The prediction for row 1 is 2 * 0.5 + 3 = 4, against 5: both rows move up.
mf_step_run :
    mf_step (word 0) 1 0 (pos 500) block (pos 10) (pos 0) (pos 300) 1 (1 ∷ 1 ∷ []) (2 ∷ [])
    ≡ some (record {
      str = some (
          word 2
          ∷ word 1
          ∷ word 1
          ∷ real (pos 300)
          ∷ real (pos 100)
          ∷ real (pos 205)
          ∷ real (pos 70)
          ∷ []);
      len = 56;
    })
unfolding mf_step mf_igd_step scale_add_at simple_dot for_loop update_cells
mf_step_run = refl

stubs_run : (mf_loss 1 0 (pos 500) block ≡ pos 0) × (mf_merge {D = Hundredths} block empty ≡ empty)
unfolding mf_loss mf_merge
stubs_run = (refl, refl)

mf_step_lem_example :
    MfSteps 2 1 1
      (pos 300)
      cells
      1
      0
      (word 0)
      (pos 500)
      block
      (pos 10)
      (pos 0)
      (pos 300)
      (1 ∷ 1 ∷ [])
      (2 ∷ [])
      1
      2
mf_step_lem_example =
    mf_step_lem 2 1 1 (pos 300) cells cells-IsModel 1 0 (omega arith) (omega arith) (word 0)
      (pos 500) block (pos 10) (pos 0) (pos 300) (1 ∷ 1 ∷ []) (2 ∷ []) 1 2 refl refl refl

mf_step_first_example :
    Returns
      (λ b. (b.len ≡ 0) × Returns (IsModel 2 1 2 (pos 300)) b.str)
      (mf_step (word 0) 1 0 (pos 500) empty (pos 10) (pos 0) (pos 300) 2 (1 ∷ 1 ∷ []) (2 ∷ []))
mf_step_first_example =
    mf_step_first (word 0) 1 0 2 (pos 500) (pos 10) (pos 0) (pos 300) empty (1 ∷ 1 ∷ []) (2 ∷ [])
      (omega arith) refl (omega arith) (omega arith)
