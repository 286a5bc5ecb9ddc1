-- ===== src/Bismarck/Mfact/Rows.antt =====
-- `scale` and `scale_add` on one row of a block.
use madlibport.Base.{
  ℕ, ◌+◌, ◌≤◌, ◌<◌, ◌≡◌, refl, sym, ◌∙◌, false, some, List, arith, length, get_elem?,
  update_cells_lem, AppliedTo-in, AppliedTo-out, in_range,
}
use madlibport.Doubles.{Double}
use madlibport.Bismarck.Linalg.{Pointer}
use madlibport.Bismarck.Mfact.{Cell, real, scale_cell, add_cell, scale_add_at}

module _ {D : Type 0} where
  -- `n` cells from `base` on hold doubles.
  abbrev pub AreReal : List (Cell D) → ℕ → ℕ → Type 0
  AreReal mem base n = (j : ℕ) → j < n → (u : D) × (get_elem? mem (base + j) ≡ some (real u))

module _ {D : Type 0} ⦃d : Double D⦄ where
  open d use {add, mul}

  -- The block `mem'` is `mem` with row `x` at `base` replaced by `scal * x + a * y`.
  pub record RowMoved (base n : ℕ) (y : Pointer D) (scal a : D) (mem mem' : List (Cell D))
      : Type 0 where
    pub same_length : length mem' ≡ length mem
    pub outside : (i : ℕ) → in_range base n i ≡ false → get_elem? mem' i ≡ get_elem? mem i
    pub moved :
        (j : ℕ) (u v : D)
        → j < n
        → get_elem? mem (base + j) ≡ some (real u)
        → y j ≡ some v
        → get_elem? mem' (base + j) ≡ some (real (add (mul u scal) (mul a v)))

  -- `y` may read the block, but not the row that is written.
  pub scale_add_at_lem :
      (base n : ℕ) (y : List (Cell D) → Pointer D) (scal a : D) (mem : List (Cell D))
      → base + n ≤ length mem
      → AreReal mem base n
      → ((j : ℕ) → j < n → (v : D) × (y mem j ≡ some v))
      → ((m : List (Cell D)) (j : ℕ)
          → j < n
          → ((i : ℕ) → in_range base n i ≡ false → get_elem? m i ≡ get_elem? mem i)
          → y m j ≡ y mem j)
      → (mem' : List (Cell D)) × (scale_add_at base y scal a n mem ≡ some mem')
        × RowMoved base n (y mem) scal a mem mem'
  unfolding scale_add_at
  scale_add_at_lem base n y scal a mem fits reals hy local =
      let (m, em, pm) =
        update_cells_lem base n (scale_cell scal) mem (λ _ _ _ _ _. refl) fits
          (λ j c h e.
            let (u, eu) = reals j h in
            let same : c ≡ real u = cc in (real (mul u scal), rw same)) in
      let out = AppliedTo-out (scale_cell scal) base n mem m pm in
      let scaled : (j : ℕ) (u : D)
          → j < n
          → get_elem? mem (base + j) ≡ some (real u)
          → get_elem? m (base + j) ≡ some (real (mul u scal)) =
        λ j u h e. AppliedTo-in (scale_cell scal) base n mem m pm j (real u) h e in
      let read : (j : ℕ) → j < n → y m j ≡ y mem j = λ j h. local m j h out in
      let (m', em', pm') =
        update_cells_lem base n (add_cell y a) m
          (λ k j c h same. rw (local k j h (λ i o. same i o ∙ out i o) ∙ sym (read j h)) refl)
          (omega (arith, pm.same_length))
          (λ j c h e.
            let (u, eu) = reals j h in
            let (v, ev) = hy j h in
            let same : c ≡ real (mul u scal) = cc (scaled j u h eu) in
            (real (add (mul u scal) (mul a v)), rw (same, read j h, ev))) in
      (
        m',
        rw (em, em'),
        record {
          same_length = pm'.same_length ∙ pm.same_length;
          outside = λ i o. AppliedTo-out (add_cell y a) base n m m' pm' i o ∙ out i o;
          moved = λ j u v h eu ev.
              AppliedTo-in (add_cell y a) base n m m' pm' j (real (mul u scal)) h (scaled j u h eu)
              ∙ rw (read j h, ev);
        },
      )
