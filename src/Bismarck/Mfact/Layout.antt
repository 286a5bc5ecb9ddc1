-- ===== src/Bismarck/Mfact/Layout.antt =====
-- The layout of a model: what a block holds, and where its rows lie.
use madlibport.Base.{
  ℕ, ◌+◌, ◌-◌, ◌*◌, ◌≤◌, ◌<◌, ◌≡◌, true, false, some, List, arith, length, get_elem?, in_range,
}
use madlibport.Bismarck.Mfact.{Cell, word, real, real_at, rows_at, cols_at, rank_at, mean_at}

pub row_fits : (i rows rank : ℕ) → i < rows → i * rank + rank ≤ rows * rank
row_fits i rows rank h = grind arith

pub offset_of : (base n i : ℕ) → in_range base n i ≡ true → (base ≤ i) × (i - base < n)
offset_of base n i e = ground arith

pub disjoint_ranges :
    (li ri n i : ℕ) → li + n ≤ ri → in_range ri n i ≡ true → in_range li n i ≡ false
disjoint_ranges li ri n i h e = ground arith

pub in_range_of : (base n j : ℕ) → j < n → in_range base n (base + j) ≡ true
in_range_of base n j h = ground arith

module _ {D : Type 0} where
  pub real_at_of :
      (mem : List (Cell D)) (i : ℕ) {u : D}
      → get_elem? mem i ≡ some (real u)
      → real_at mem i ≡ some u
  real_at_of mem i e = rw e

  -- The block of a model: four header cells, then doubles to its end.
  pub record IsModel (rows cols rank : ℕ) (mean : D) (mem : List (Cell D)) : Type 0 where
    pub size : length mem ≡ 4 + (rows * rank + cols * rank)
    pub rows_cell : get_elem? mem rows_at ≡ some (word rows)
    pub cols_cell : get_elem? mem cols_at ≡ some (word cols)
    pub rank_cell : get_elem? mem rank_at ≡ some (word rank)
    pub mean_cell : get_elem? mem mean_at ≡ some (real mean)
    pub reals : (i : ℕ) → 4 ≤ i → i < length mem → (u : D) × (get_elem? mem i ≡ some (real u))
