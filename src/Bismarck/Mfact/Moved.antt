-- ===== src/Bismarck/Mfact/Moved.antt =====
-- `mf_igd_step` on a block: which cells move, and how.
use madlibport.Base.{
  Option, some, ◌>>=◌, if◌then◌else◌, ℕ, ◌+◌, ◌-◌, ◌≤◌, ◌<◌, ◌≡◌, refl, ap, ◌∙◌, false, some, List,
  arith, length, get_elem?, ◌>>=◌, in_range,
}
use madlibport.Doubles.{Double}
use madlibport.Bismarck.Linalg.{simple_dot, simple_dot-Readable_iff, Readable}
use madlibport.Bismarck.Mfact.{Cell, real, as_real, real_at, mf_igd_step}
use madlibport.Bismarck.Mfact.Layout.{disjoint_ranges, in_range_of, real_at_of}
use madlibport.Bismarck.Mfact.Rows.{AreReal, scale_add_at_lem}

module _ {D : Type 0} ⦃d : Double D⦄ where
  open d use {nought, one, hundredth, of_uint, neg, add, sub, mul, div}

  -- Both rows move at once: each along the old value of the other.
  pub record BothMoved (li ri n : ℕ) (scal_l scal_r a : D) (mem mem' : List (Cell D)) : Type 0 where
    pub same_length : length mem' ≡ length mem
    pub outside :
        (i : ℕ)
        → in_range li n i ≡ false
        → in_range ri n i ≡ false
        → get_elem? mem' i ≡ get_elem? mem i
    pub l_moved :
        (j : ℕ) (u v : D)
        → j < n
        → get_elem? mem (li + j) ≡ some (real u)
        → get_elem? mem (ri + j) ≡ some (real v)
        → get_elem? mem' (li + j) ≡ some (real (add (mul u scal_l) (mul a v)))
    pub r_moved :
        (j : ℕ) (u v : D)
        → j < n
        → get_elem? mem (li + j) ≡ some (real u)
        → get_elem? mem (ri + j) ≡ some (real v)
        → get_elem? mem' (ri + j) ≡ some (real (add (mul v scal_r) (mul a u)))

  -- What a step writes into cell `i`, from the cells before it.
  abbrev pub stepped_cell : ℕ → ℕ → ℕ → D → D → D → List (Cell D) → ℕ → Option (Cell D)
  stepped_cell li ri n scal_l scal_r a mem i =
      if in_range li n i
      then (real_at mem i >>= λ u.
          real_at mem (ri + (i - li)) >>= λ v. some (real (add (mul u scal_l) (mul a v))))
      else (if in_range ri n i
          then (real_at mem i >>= λ v.
              real_at mem (li + (i - ri)) >>= λ u. some (real (add (mul v scal_r) (mul a u))))
          else get_elem? mem i)

  pub mf_igd_step_lem :
      (li ri n : ℕ) (val mean mu step : D) (row_deg col_deg : ℕ) (mem : List (Cell D))
      → li + n ≤ ri
      → ri + n ≤ length mem
      → AreReal mem li n
      → AreReal mem ri n
      → (dot : D) × (mem' : List (Cell D)) × (simple_dot
            (λ j. real_at mem (li + j))
            (λ j. real_at mem (ri + j))
            n
          ≡ some dot)
        × (mf_igd_step li ri val mean mu step n row_deg col_deg mem ≡ some mem')
        × BothMoved li ri n
            (sub one (div (mul mu step) (of_uint row_deg)))
            (sub one (div (mul mu step) (of_uint col_deg)))
            (mul (mul (neg one) step) (sub (add dot mean) val))
            mem
            mem'
  unfolding mf_igd_step
  mf_igd_step_lem li ri n val mean mu step row_deg col_deg mem apart fits hl hr =
      let x = λ (j : ℕ). real_at mem (li + j) in
      let y = λ (j : ℕ). real_at mem (ri + j) in
      let hx : Readable x n = λ j h. let (u, e) = hl j h in (u, real_at_of mem (li + j) e) in
      let hy : Readable y n = λ j h. let (u, e) = hr j h in (u, real_at_of mem (ri + j) e) in
      let (dot, edot) = (simple_dot-Readable_iff x y n).1 (hx, hy) in
      let scal_l = sub one (div (mul mu step) (of_uint row_deg)) in
      let scal_r = sub one (div (mul mu step) (of_uint col_deg)) in
      let a = mul (mul (neg one) step) (sub (add dot mean) val) in
      let far : (j : ℕ) → j < n → in_range li n (ri + j) ≡ false =
        λ j h. disjoint_ranges li ri n (ri + j) apart (in_range_of ri n j h) in
      let (m, em, pm) =
        scale_add_at_lem li n (λ (m : List (Cell D)) (j : ℕ). real_at m (ri + j)) scal_l a mem
          (omega arith) hl hy (λ m j h same. ap (λ o. o >>= as_real) (same (ri + j) (far j h))) in
      let hr' : AreReal m ri n =
        λ j h. let (v, ev) = hr j h in (v, pm.outside (ri + j) (far j h) ∙ ev) in
      let (m', em', pm') =
        scale_add_at_lem ri n (λ _. x) scal_r a m (omega (arith, pm.same_length)) hr' hx
          (λ _ _ _ _. refl) in
      let near : (j : ℕ) → j < n → in_range ri n (li + j) ≡ false = λ j h. ground arith in
      (
        dot,
        m',
        edot,
        rw (edot, em) em',
        record {
          same_length = pm'.same_length ∙ pm.same_length;
          outside = λ i ol or. pm'.outside i or ∙ pm.outside i ol;
          l_moved = λ j u v h eu ev.
              pm'.outside (li + j) (near j h) ∙ pm.moved j u v h eu (real_at_of mem (ri + j) ev);
          r_moved = λ j u v h eu ev.
              pm'.moved j v u h (pm.outside (ri + j) (far j h) ∙ ev) (real_at_of mem (li + j) eu);
        },
      )
