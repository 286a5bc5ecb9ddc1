-- ===== src/Lda/Totals.antt =====
-- Sums of doubles in the order in which a loop adds them up, and the elements of an array.
use madlibport.Base.{ℕ, zero, suc, ◌≡◌, refl, ap, none, some, List, get_elem?}
use madlibport.Base.Int.{ℤ, pos}
use madlibport.Doubles.{Double}

-- An element, 0 outside the array.
abbrev pub cell : List ℤ → ℕ → ℤ
cell xs i = elim (get_elem? xs i) [ none ↦ pos 0 | some a ↦ a ]

pub cell_lem : (xs : List ℤ) (i : ℕ) (a : ℤ) → get_elem? xs i ≡ some a → cell xs i ≡ a
cell_lem xs i a e = rw (cell, e)

module _ {D : Type 0} ⦃d : Double D⦄ where
  -- start + f(0) + ... + f(n - 1)
  abbrev pub sum_up : (ℕ → D) → D → ℕ → D
  sum_up f start zero = start
  sum_up f start (suc n) = d.add (sum_up f start n) (f n)

  -- The first term is added first.
  pub sum_up_shift :
      (f : ℕ → D) (start : D) (n : ℕ)
      → sum_up f start (suc n) ≡ sum_up (λ (i : ℕ). f (suc i)) (d.add start (f 0)) n
  sum_up_shift f start zero = refl
  sum_up_shift f start (suc n) = ap (λ (s : D). d.add s (f (suc n))) (sum_up_shift f start n)
