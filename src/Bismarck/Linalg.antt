-- ===== src/Bismarck/Linalg.antt =====
-- src/linalg-inl.h. A `const T *` is its reads, `none` where it points outside its block; an
-- array that is written is a list.
use madlibport.Base.{
  ℕ, ◌≤◌, ◌<◌, ◌≡◌, refl, ◌↔◌, Option, some, List, arith, length, get_elem?, ltb, if◌then◌else◌,
  ◌>>=◌, >>=-eq-some, for_loop, for_loop-inv_zero, for_loop-ran_zero, update_cells,
  update_cells_lem, update_cells-ran, AppliedTo-cell_zero, dec_le, get_elem?-some, get_elem?-none,
}
use madlibport.Doubles.{Double}

abbrev pub Pointer : Type 0 → Type 0
Pointer D = ℕ → Option D

module _ {D : Type 0} where
  -- The first `n` cells that a pointer reads are all there.
  abbrev pub Readable : Pointer D → ℕ → Type 0
  Readable x n = (i : ℕ) → i < n → (a : D) × (x i ≡ some a)

  pub Readable-list : (xs : List D) (n : ℕ) → n ≤ length xs → Readable (get_elem? xs) n
  Readable-list xs n h i lt = get_elem?-some xs i (omega arith)

  pub le_of_Readable : (xs : List D) (n : ℕ) → Readable (get_elem? xs) n → n ≤ length xs
  le_of_Readable xs n h = elim (dec_le n (length xs)) [
    | yes p ↦ p
    | no p ↦
        let (a, e) = h (length xs) (omega arith) in
        absurd (ground (arith, get_elem?-none xs (length xs)))
  ]

module _ {D : Type 0} ⦃d : Double D⦄ where
  open d use {nought, add, mul}

  abbrev pub add_product : Pointer D → Pointer D → ℕ → D → Option D
  add_product x y i prod = do a ← x i; b ← y i; some (add prod (mul a b))

  unfoldable pub simple_dot : Pointer D → Pointer D → ℕ → Option D
  unfolding for_loop
  simple_dot x y len = for_loop 0 len (add_product x y) nought

  -- `x[i] += a * y[i]`
  unfoldable pub simple_scale_add : List D → Pointer D → D → ℕ → Option (List D)
  unfolding update_cells
  simple_scale_add x y a len = update_cells 0 len (λ _ i u. y i >>= λ v. some (add u (mul a v))) x

  -- `x[i] *= a`
  unfoldable pub simple_scale : List D → D → ℕ → Option (List D)
  unfolding update_cells
  simple_scale x a len = update_cells 0 len (λ _ i u. some (mul u a)) x

  -- `dot` returns exactly when both pointers have `len` cells to read.
  pub simple_dot-Readable_iff :
      (x y : Pointer D) (len : ℕ)
      → ((r : D) × (simple_dot x y len ≡ some r)) ↔ (Readable x len × Readable y len)
  unfolding simple_dot
  simple_dot-Readable_iff x y len = (
    λ (r, e). (
      λ i h.
          let (t, t', run) = for_loop-ran_zero (add_product x y) len nought e i h in
          let (a, ea, _) = >>=-eq-some (x i) _ run in (a, ea),
      λ i h.
          let (t, t', run) = for_loop-ran_zero (add_product x y) len nought e i h in
          let (a, _, rest) = >>=-eq-some (x i) _ run in
          let (b, eb, _) = >>=-eq-some (y i) _ rest in (b, eb),
    ),
    λ (hx, hy).
        let (r, e, _) =
          for_loop-inv_zero (λ _ _. Unit {0}) (add_product x y) len nought
            (λ j t h _.
              let (a, ea) = hx j h in let (b, eb) = hy j h in (add t (mul a b), rw (ea, eb), tt))
            tt in
        (r, e),
  )

  -- `x[i] += a * y[i]` reaches the first `len` cells of `x` and leaves the others.
  pub simple_scale_add_lem :
      (x : List D) (y : Pointer D) (a : D) (len : ℕ)
      → len ≤ length x
      → Readable y len
      → (x' : List D) × (simple_scale_add x y a len ≡ some x')
        × (length x' ≡ length x)
        × ((i : ℕ)
            → get_elem? x' i ≡ (
                if ltb i len
                then get_elem? x i >>= (λ u. y i >>= λ v. some (add u (mul a v)))
                else get_elem? x i))
  unfolding simple_scale_add
  simple_scale_add_lem x y a len h hy =
      let (x', e, p) =
        update_cells_lem 0 len _ x (λ _ _ _ _ _. refl) (omega arith)
          (λ j u lt _. let (v, ev) = hy j lt in (add u (mul a v), rw ev)) in
      (x', e, p.same_length, AppliedTo-cell_zero _ len x x' p)

  -- `x[i] *= a` likewise.
  pub simple_scale_lem :
      (x : List D) (a : D) (len : ℕ)
      → len ≤ length x
      → (x' : List D) × (simple_scale x a len ≡ some x')
        × (length x' ≡ length x)
        × ((i : ℕ)
            → get_elem? x' i
              ≡ (if ltb i len then get_elem? x i >>= (λ u. some (mul u a)) else get_elem? x i))
  unfolding simple_scale
  simple_scale_lem x a len h =
      let (x', e, p) =
        update_cells_lem 0 len (λ _ i u. some (mul u a)) x (λ _ _ _ _ _. refl) (omega arith)
          (λ j u lt _. (mul u a, refl)) in
      (x', e, p.same_length, AppliedTo-cell_zero _ len x x' p)

  -- An update that returns had every cell of `y` to read.
  pub simple_scale_add-Readable :
      (x : List D) (y : Pointer D) (a : D) (len : ℕ) {x' : List D}
      → simple_scale_add x y a len ≡ some x'
      → Readable y len
  unfolding simple_scale_add
  simple_scale_add-Readable x y a len e i h =
      let (m, u, w, _, run) = update_cells-ran 0 len _ x e i h in
      let (v, ev, _) = >>=-eq-some (y i) _ run in (v, ev)
