-- ===== src/Bismarck/Mfact/Init.antt =====
-- The model that the first step makes.
use madlibport.Base.{
  Returns, Returns-of, dec_lt, ltb, lt→ltb, ltb-false, get_elem?-none, if◌then◌else◌, ℕ, ◌+◌, ◌-◌,
  ◌*◌, ◌/◌, ◌^◌, ◌≤◌, ◌<◌, ◌≡◌, refl, ◌∙◌, subst, inl, inr, true, false, none, some, List, arith,
  length, get_elem?, set?, replicate, update_cells, update_cells_lem, AppliedTo-in, AppliedTo-out,
  in_range, Bool-cases, length-set?, get_elem?-set?, set?-some, length-replicate, get_elem?-some,
}
use madlibport.Bismarck.Uda.{double_size}
use madlibport.Doubles.{Double}
use madlibport.Bismarck.Mfact.{
  Cell, word, real, rows_at, cols_at, rank_at, mean_at, lr_pointers, Block, mf_step, fill_model,
  init_model, size_of_model,
}
use madlibport.Bismarck.Mfact.Layout.{IsModel, offset_of}
use madlibport.Bismarck.Mfact.Model.{mf_step_cells}

module _ {D : Type 0} where
  -- The four header writes on a block of `n` cells, in the order of the code.
  header_lem :
      (block : List (Cell D)) (rows cols rank : ℕ) (mean : D)
      → 4 ≤ length block
      → (m₀ m₁ m₂ m₃ : List (Cell D)) × (set? block rank_at (word rank) ≡ some m₀)
        × (set? m₀ rows_at (word rows) ≡ some m₁)
        × (set? m₁ cols_at (word cols) ≡ some m₂)
        × (set? m₂ mean_at (real mean) ≡ some m₃)
        × (length m₃ ≡ length block)
        × (get_elem? m₃ rows_at ≡ some (word rows))
        × (get_elem? m₃ cols_at ≡ some (word cols))
        × (get_elem? m₃ rank_at ≡ some (word rank))
        × (get_elem? m₃ mean_at ≡ some (real mean))
  header_lem block rows cols rank mean h =
      let (m₀, e₀) = set?-some block rank_at (word rank) (omega arith) in
      let l₀ = length-set? block rank_at (word rank) e₀ in
      let (m₁, e₁) = set?-some m₀ rows_at (word rows) (omega (arith, l₀)) in
      let l₁ = length-set? m₀ rows_at (word rows) e₁ in
      let (m₂, e₂) = set?-some m₁ cols_at (word cols) (omega (arith, l₀, l₁)) in
      let l₂ = length-set? m₁ cols_at (word cols) e₂ in
      let (m₃, e₃) = set?-some m₂ mean_at (real mean) (omega (arith, l₀, l₁, l₂)) in
      let l₃ = length-set? m₂ mean_at (real mean) e₃ in
      let g₀ = λ (i : ℕ). get_elem?-set? block rank_at i (word rank) e₀ in
      let g₁ = λ (i : ℕ). get_elem?-set? m₀ rows_at i (word rows) e₁ in
      let g₂ = λ (i : ℕ). get_elem?-set? m₁ cols_at i (word cols) e₂ in
      let g₃ = λ (i : ℕ). get_elem?-set? m₂ mean_at i (real mean) e₃ in
      (
        m₀,
        m₁,
        m₂,
        m₃,
        e₀,
        e₁,
        e₂,
        e₃,
        l₃ ∙ l₂ ∙ l₁ ∙ l₀,
        g₃ rows_at ∙ g₂ rows_at ∙ g₁ rows_at,
        g₃ cols_at ∙ g₂ cols_at,
        g₃ rank_at ∙ g₂ rank_at ∙ g₁ rank_at ∙ g₀ rank_at,
        g₃ mean_at,
      )

  -- A fill of `n` cells from `base` on with one value.
  fill_lem :
      (base n : ℕ) (c : Cell D) (mem : List (Cell D))
      → base + n ≤ length mem
      → (mem' : List (Cell D)) × (update_cells base n (λ _ _ _. some c) mem ≡ some mem')
        × (length mem' ≡ length mem)
        × ((i : ℕ) → in_range base n i ≡ false → get_elem? mem' i ≡ get_elem? mem i)
        × ((i : ℕ) → in_range base n i ≡ true → get_elem? mem' i ≡ some c)
  fill_lem base n c mem fits =
      let (mem', e, p) =
        update_cells_lem base n (λ _ _ _. some c) mem (λ _ _ _ _ _. refl) fits
          (λ j u h eu. (c, refl)) in
      (
        mem',
        e,
        p.same_length,
        AppliedTo-out _ base n mem mem' p,
        λ i inside.
            let (lo, lt) = offset_of base n i inside in
            let (u, eu) = get_elem?-some mem (base + (i - base)) (omega arith) in
            subst (λ (k : ℕ). get_elem? mem' k ≡ some c) (omega arith)
              (AppliedTo-in _ base n mem mem' p (i - base) u lt eu),
      )

module _ {D : Type 0} ⦃d : Double D⦄ where
  open d use {hundredth}

  fill_model_lem :
      (block : List (Cell D)) (rows cols rank : ℕ) (mean : D)
      → length block ≡ 4 + (rows * rank + cols * rank)
      → (mem : List (Cell D)) × (fill_model block rows cols rank mean ≡ some mem)
        × IsModel rows cols rank mean mem
        × ((i : ℕ) → 4 ≤ i → i < length mem → get_elem? mem i ≡ some (real hundredth))
  unfolding fill_model
  fill_model_lem block rows cols rank mean size =
      let (m₀, m₁, m₂, m₃, e₀, e₁, e₂, e₃, l₃, hr, hc, hk, hm) =
        header_lem block rows cols rank mean (omega (arith, size)) in
      let starts : lr_pointers m₃ ≡ some (4, 4 + rows * rank) = rw (hr, hk) in
      let (m₄, e₄, l₄, out₄, in₄) =
        fill_lem 4 (rows * rank) (real hundredth) m₃ (omega (arith, size, l₃)) in
      let (m₅, e₅, l₅, out₅, in₅) =
        fill_lem (4 + rows * rank) (cols * rank) (real hundredth) m₄
          (omega (arith, size, l₃, l₄)) in
      let header : (i : ℕ) → i < 4 → get_elem? m₅ i ≡ get_elem? m₃ i =
        λ i h. out₅ i (ground arith) ∙ out₄ i (ground arith) in
      let total : length m₅ ≡ 4 + (rows * rank + cols * rank) = l₅ ∙ l₄ ∙ l₃ ∙ size in
      let cell : (i : ℕ) → 4 ≤ i → i < length m₅ → get_elem? m₅ i ≡ some (real hundredth) =
        λ i lo hi. elim (Bool-cases (in_range (4 + rows * rank) (cols * rank) i)) [
          | inl inside ↦ in₅ i inside
          | inr outside ↦ out₅ i outside ∙ in₄ i (ground (arith, total))
        ] in
      (
        m₅,
        rw (e₀, e₁, e₂, e₃, starts, e₄, e₅),
        record {
          size = total;
          rows_cell = header 0 (omega arith) ∙ hr;
          cols_cell = header 1 (omega arith) ∙ hc;
          rank_cell = header 2 (omega arith) ∙ hk;
          mean_cell = header 3 (omega arith) ∙ hm;
          reals = λ i lo hi. (hundredth, cell i lo hi);
        },
        cell,
      )

  init_model_cells :
      (fill : Cell D) (rows cols rank : ℕ) (mean : D)
      → double_size * 4 + double_size * (rows * rank + cols * rank) < 2 ^ 64
      → (mem : List (Cell D)) × (init_model fill rows cols rank mean ≡ some mem)
        × IsModel rows cols rank mean mem
        × ((i : ℕ) → 4 ≤ i → i < length mem → get_elem? mem i ≡ some (real hundredth))
  unfolding init_model
  init_model_cells fill rows cols rank mean fits =
      fill_model_lem (replicate (size_of_model rows cols rank / double_size) fill) rows cols rank
        mean (length-replicate (size_of_model rows cols rank / double_size) fill ∙ omega arith)

  -- Where its size in bytes fits a `size_t`, the model that a first step makes is well formed,
  -- with 0.01 in every cell of L and R, whatever the allocator left in its block.
  pub init_model_lem :
      (fill : Cell D) (rows cols rank : ℕ) (mean : D)
      → double_size * 4 + double_size * (rows * rank + cols * rank) < 2 ^ 64
      → Returns
          (λ mem.
            IsModel rows cols rank mean mem
            × ((i : ℕ)
                → get_elem? mem (4 + i)
                  ≡ (if ltb (4 + i) (length mem) then some (real hundredth) else none)))
          (init_model fill rows cols rank mean)
  init_model_lem fill rows cols rank mean fits =
      let (mem, e, model, cell) = init_model_cells fill rows cols rank mean fits in
      Returns-of _ _ e (
        model,
        λ i. elim (dec_lt (4 + i) (length mem)) [
          | yes p ↦ rw (lt→ltb _ _ p) (cell (4 + i) (omega arith) p)
          | no p ↦
              rw (ltb-false (4 + i) (length mem) (omega arith))
                (get_elem?-none mem (4 + i) (omega arith))
        ],
      )

  -- The first step, on a NULL block, at a row and a column that have a degree, where the size in bytes
  -- of the model, 32 + 8 * (rows * rank + cols * rank) for as many rows and columns as there are
  -- degrees, is below 2^64, makes a well-formed model, but leaves `len` of the block as it was: `InitModel` does not set it.
  pub mf_step_first :
      (fill : Cell D) (row col rank : ℕ) (val step mu mean : D) (block : Block D)
      (rowdeg coldeg : List ℕ)
      → double_size * 4 + double_size * (length rowdeg * rank + length coldeg * rank) < 2 ^ 64
      → block.str ≡ none
      → row < length rowdeg
      → col < length coldeg
      → Returns
          (λ b.
            (b.len ≡ block.len) × Returns (IsModel (length rowdeg) (length coldeg) rank mean) b.str)
          (mf_step fill row col val block step mu mean rank rowdeg coldeg)
  mf_step_first fill row col rank val step mu mean block rowdeg coldeg fits null hr hc =
      let (rd, er) = get_elem?-some rowdeg row hr in
      let (cd, ec) = get_elem?-some coldeg col hc in
      let (mem, e, model, _) =
        init_model_cells fill (length rowdeg) (length coldeg) rank mean fits in
      let (_, mem', _, e', model', _) =
        mf_step_cells (length rowdeg) (length coldeg) rank mean mem model row col hr hc fill val
          block step mu mean rowdeg coldeg rd cd (rw null e) er ec in
      Returns-of _ _ e' (refl, model')
