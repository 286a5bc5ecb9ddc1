-- ===== src/Base/Cells.antt =====
-- The loop `for (j = 0; j < len; j++) p[j] = g(p[j])`, with `p` a pointer `base` cells into a
-- memory; `g` may read the memory as it stands.
use Prim.Native.Nat.{ℕ, ◌+◌, ◌-◌, ◌≤◌, ◌<◌}
use mathlib.Core.Path.{◌≡◌, refl, sym, ◌∙◌, subst}
use mathlib.Core.Bool.{Bool, true, false, ◌&&◌}
use mathlib.Core.Option.{Option, some}
use mathlib.Core.List.{List}
use native.Mathlib.Omega.{arith}
use native.Mathlib.Decide.{ℕ_discrete}
use madlibport.Base.Compare.{ltb, leb, if◌then◌else◌}
use madlibport.Base.Lists.{
  length, get_elem?, set?, get_elem?-some, set?-some, length-set?, get_elem?-set?,
}
use madlibport.Base.Loops.{◌>>=◌, for_loop, for_loop-inv_zero, for_loop-ran_zero, >>=-eq-some}

abbrev pub in_range : ℕ → ℕ → ℕ → Bool
in_range base len i = leb base i && ltb i (base + len)

in_range_zero : (base i : ℕ) → in_range base 0 i ≡ false
in_range_zero base i = ground arith

module _ {ℓ} {A : Type ℓ} where
  abbrev update_cell : ℕ → (List A → ℕ → A → Option A) → ℕ → List A → Option (List A)
  update_cell base g j xs = do u ← get_elem? xs (base + j); w ← g xs j u; set? xs (base + j) w

  unfoldable pub update_cells : ℕ → ℕ → (List A → ℕ → A → Option A) → List A → Option (List A)
  unfolding for_loop
  update_cells base len g xs = for_loop 0 len (update_cell base g) xs

  -- The memory `ys` is `xs` with `g` applied to the first `k` cells from `base` on.
  pub record AppliedTo (g : List A → ℕ → A → Option A) (base k : ℕ) (xs ys : List A) : Type ℓ where
    pub same_length : length ys ≡ length xs
    pub cell :
        (i : ℕ)
        → get_elem? ys i
          ≡ (if in_range base k i then get_elem? xs i >>= g xs (i - base) else get_elem? xs i)

  -- `g` reads nothing in the `len` cells from `base` on but the cell that it is given.
  abbrev pub IsLocal : (List A → ℕ → A → Option A) → ℕ → ℕ → List A → Type ℓ
  IsLocal g base len xs =
      (ys : List A) (j : ℕ) (u : A)
      → j < len
      → ((i : ℕ) → in_range base len i ≡ false → get_elem? ys i ≡ get_elem? xs i)
      → g ys j u ≡ g xs j u

  module _ (base len : ℕ) (g : List A → ℕ → A → Option A) (xs : List A)
      (local : IsLocal g base len xs) where
    AppliedTo-outside :
        (k : ℕ) (ys : List A)
        → k ≤ len
        → AppliedTo g base k xs ys
        → (i : ℕ) → in_range base len i ≡ false
        → get_elem? ys i ≡ get_elem? xs i
    AppliedTo-outside k ys h p i out = ground (arith, p.cell i)

    AppliedTo-step :
        (k : ℕ) (ys : List A) {u w : A} {zs : List A}
        → k < len
        → AppliedTo g base k xs ys
        → get_elem? ys (base + k) ≡ some u
        → g ys k u ≡ some w
        → set? ys (base + k) w ≡ some zs
        → AppliedTo g base (k + 1) xs zs
    AppliedTo-step k ys {u} {w} {zs} h p eu ew ez = record {
      same_length = length-set? ys (base + k) w ez ∙ p.same_length;
      cell = cell;
    }
      where
        old : get_elem? xs (base + k) ≡ some u
        old = ground (arith, p.cell (base + k))

        new : g xs k u ≡ some w
        new = sym (local ys k u h (AppliedTo-outside k ys (omega arith) p)) ∙ ew

        here : (i : ℕ) → base + k ≡ i → (get_elem? xs i >>= g xs (i - base)) ≡ some w
        here i e =
            subst (λ (n : ℕ). (get_elem? xs n >>= g xs (n - base)) ≡ some w) e
              (rw old (subst (λ (m : ℕ). g xs m u ≡ some w) (omega arith) new))

        cell :
            (i : ℕ)
            → get_elem? zs i ≡ (
                if in_range base (k + 1) i
                then get_elem? xs i >>= g xs (i - base)
                else get_elem? xs i)
        cell i = elim (ℕ_discrete (base + k) i) [
          | yes q ↦ ground (arith, get_elem?-set? ys (base + k) i w ez, here i q)
          | no q ↦ ground (arith, get_elem?-set? ys (base + k) i w ez, p.cell i)
        ]

    -- If the cells are in the memory and `g` never faults on them, the loop ends normally.
    pub update_cells_lem :
        base + len ≤ length xs
        → ((j : ℕ) (u : A)
            → j < len
            → get_elem? xs (base + j) ≡ some u
            → (w : A) × (g xs j u ≡ some w))
        → (ys : List A) × (update_cells base len g xs ≡ some ys) × AppliedTo g base len xs ys
    unfolding update_cells
    update_cells_lem fits total =
        for_loop-inv_zero (λ k ys. AppliedTo g base k xs ys) (update_cell base g) len xs step
          (record { same_length = refl; cell = λ i. rw (in_range_zero base i) })
      where
        step :
            (k : ℕ) (ys : List A)
            → k < len
            → AppliedTo g base k xs ys
            → (zs : List A) × (update_cell base g k ys ≡ some zs) × AppliedTo g base (k + 1) xs zs
        step k ys h p =
            let (u, eu) = get_elem?-some ys (base + k) (omega (arith, p.same_length)) in
            let old : get_elem? xs (base + k) ≡ some u = ground (arith, p.cell (base + k)) in
            let (w, ew) = total k u h old in
            let new : g ys k u ≡ some w =
              local ys k u h (AppliedTo-outside k ys (omega arith) p) ∙ ew in
            let (zs, ez) = set?-some ys (base + k) w (omega (arith, p.same_length)) in
            (zs, rw (eu, new) ez, AppliedTo-step k ys h p eu new ez)

  -- If the loop ends normally, each cell was in the memory and `g` gave a value for it.
  pub update_cells-ran :
      (base len : ℕ) (g : List A → ℕ → A → Option A) (xs : List A) {ys : List A}
      → update_cells base len g xs ≡ some ys
      → (j : ℕ) → j < len
      → (m : List A) × (u : A) × (w : A) × (get_elem? m (base + j) ≡ some u) × (g m j u ≡ some w)
  unfolding update_cells
  update_cells-ran base len g xs e j h =
      let (t, t', run) = for_loop-ran_zero (update_cell base g) len xs e j h in
      let (u, eu, rest) = >>=-eq-some (get_elem? t (base + j)) _ run in
      let (w, ew, _) = >>=-eq-some (g t j u) _ rest in (t, u, w, eu, ew)

  pub AppliedTo-cell_zero :
      (g : List A → ℕ → A → Option A) (len : ℕ) (xs ys : List A)
      → AppliedTo g 0 len xs ys
      → (i : ℕ) → get_elem? ys i ≡ (if ltb i len then get_elem? xs i >>= g xs i else get_elem? xs i)
  AppliedTo-cell_zero g len xs ys p i =
      let minus : i - 0 ≡ i = omega arith in
      let test : in_range 0 len i ≡ ltb i len = ground arith in p.cell i ∙ (rw (minus, test))

  pub AppliedTo-in :
      (g : List A → ℕ → A → Option A) (base len : ℕ) (xs ys : List A)
      → AppliedTo g base len xs ys
      → (j : ℕ) (u : A) → j < len
      → get_elem? xs (base + j) ≡ some u
      → get_elem? ys (base + j) ≡ g xs j u
  AppliedTo-in g base len xs ys p j u h e =
      let minus : base + j - base ≡ j = omega arith in
      let test : in_range base len (base + j) ≡ true = ground arith in
      p.cell (base + j) ∙ rw (test, e, minus)

  pub AppliedTo-out :
      (g : List A → ℕ → A → Option A) (base len : ℕ) (xs ys : List A)
      → AppliedTo g base len xs ys
      → (i : ℕ) → in_range base len i ≡ false
      → get_elem? ys i ≡ get_elem? xs i
  AppliedTo-out g base len xs ys p i out = p.cell i ∙ rw out
