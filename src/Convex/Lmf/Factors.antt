-- ===== src/Convex/Lmf/Factors.antt =====
-- Two factors as functions from an index to a row, and what a gradient step does to them.
use madlibport.Base.{
  ℕ, zero, suc, ◌<◌, ◌≡◌, refl, sym, ◌∙◌, some, List, [], ◌∷◌, arith, length, get_elem?, set?,
  get_elem?-set?, set?-some, length-set?, ◌==◌, if◌then◌else◌, Bool-cases, inl, inr,
}
use madlibport.Doubles.{Double}
use madlibport.Convex.Lmf.Step.{
  LmfModel, LmfTuple, zip_with?, tabulate, sub_scaled, gradient_in_place, lmf_loss,
}

pub record Factors (D : Type 0) : Type 0 where
  pub left : ℕ → List D
  pub right : ℕ → List D

abbrev pub replaced : {A : Type 0} → (ℕ → A) → ℕ → A → ℕ → A
replaced f i x n = if n == i then x else f n

-- The matrix has the rows of the function, each of `rank` elements.
pub record IsMatrix {D : Type 0} (rows rank : ℕ) (f : ℕ → List D) (m : List (List D)) : Type 0 where
  pub size : length m ≡ rows
  pub row : (i : ℕ) → i < rows → get_elem? m i ≡ some (f i)
  pub width : (i : ℕ) → i < rows → length (f i) ≡ rank

pub record Holds {D : Type 0} (rows cols rank : ℕ) (f : Factors D) (m : LmfModel D) : Type 0 where
  pub u : IsMatrix rows rank f.left m.matrix_u
  pub v : IsMatrix cols rank f.right m.matrix_v

set-IsMatrix :
    {D : Type 0} (rows rank : ℕ) (f : ℕ → List D) (m : List (List D)) (i : ℕ) (x : List D)
    → IsMatrix rows rank f m
    → i < rows
    → length x ≡ rank
    → (m' : List (List D)) × (set? m i x ≡ some m') × IsMatrix rows rank (replaced f i x) m'
set-IsMatrix rows rank f m i x p below wide =
    let (m', e) = set?-some m i x (omega (arith, p.size)) in
    (
      m',
      e,
      record {
        size = length-set? m i x e ∙ p.size;
        row = λ n h. elim (Bool-cases (n == i)) [
          | inl same ↦ rw same (ground (arith, get_elem?-set? m i n x e, p.size))
          | inr other ↦ rw other (ground (arith, get_elem?-set? m i n x e, p.row n h))
        ];
        width = λ n h. elim (Bool-cases (n == i)) [
          | inl same ↦ rw same wide
          | inr other ↦ rw other (p.width n h)
        ];
      },
    )

length-tabulate : {A : Type 0} (n : ℕ) (f : ℕ → A) → length (tabulate n f) ≡ n
unfolding tabulate
length-tabulate zero f = refl
length-tabulate (suc n) f = let ih = length-tabulate n (λ k. f (suc k)) in omega arith

get_elem?-tabulate :
    {A : Type 0} (n : ℕ) (f : ℕ → A) (i : ℕ) → i < n → get_elem? (tabulate n f) i ≡ some (f i)
unfolding tabulate
get_elem?-tabulate zero f i h = absurd (omega arith)
get_elem?-tabulate (suc n) f zero h = refl
get_elem?-tabulate (suc n) f (suc i) h = get_elem?-tabulate n (λ k. f (suc k)) i (omega arith)

pub tabulate-IsMatrix :
    {D : Type 0} (rows rank : ℕ) (f : ℕ → ℕ → D)
    → IsMatrix rows rank (λ i. tabulate rank (f i)) (tabulate rows (λ i. tabulate rank (f i)))
tabulate-IsMatrix rows rank f = record {
  size = length-tabulate rows _;
  row = λ i h. get_elem?-tabulate rows _ i h;
  width = λ i h. length-tabulate rank (f i);
}

module _ {D : Type 0} ⦃d : Double D⦄ where
  open d use {sub, mul}

  -- `x - c * y`
  unfoldable pub moved : D → List D → List D → List D
  moved c [] ys = []
  moved c (x ∷ xs) [] = []
  moved c (x ∷ xs) (y ∷ ys) = sub x (mul c y) ∷ moved c xs ys

  sub_scaled_lem :
      (c : D) (xs ys : List D) → length xs ≡ length ys → sub_scaled c xs ys ≡ some (moved c xs ys)
  unfolding sub_scaled zip_with? moved
  sub_scaled_lem c [] [] h = refl
  sub_scaled_lem c [] (y ∷ ys) h = absurd (omega arith)
  sub_scaled_lem c (x ∷ xs) [] h = absurd (omega arith)
  sub_scaled_lem c (x ∷ xs) (y ∷ ys) h = rw (sub_scaled_lem c xs ys (omega arith))

  length-moved :
      (c : D) (xs ys : List D) → length xs ≡ length ys → length (moved c xs ys) ≡ length xs
  unfolding moved
  length-moved c [] ys h = refl
  length-moved c (x ∷ xs) [] h = absurd (omega arith)
  length-moved c (x ∷ xs) (y ∷ ys) h = let ih = length-moved c xs ys (omega arith) in omega arith

module _ {D : Type 0} ⦃d : Double D⦄ (dot : List D → List D → D) where
  open d use {sub, mul}

  -- The error of the prediction.
  abbrev pub residual : Factors D → LmfTuple D → D
  residual f t = sub (dot (f.left t.i) (f.right t.j)) t.dep_var

  -- Both rows move at once, each along the old row of the other.
  abbrev pub descend : D → Factors D → LmfTuple D → Factors D
  descend stepsize f t =
      let c = mul stepsize (residual f t) in
      record {
        left = replaced f.left t.i (moved c (f.left t.i) (f.right t.j));
        right = replaced f.right t.j (moved c (f.right t.j) (f.left t.i));
      }

  gradient_by :
      (m : LmfModel D) (t : LmfTuple D) (stepsize : D) {u v x y : List D} {us vs : List (List D)}
      → get_elem? m.matrix_u t.i ≡ some u
      → get_elem? m.matrix_v t.j ≡ some v
      → sub_scaled (mul stepsize (sub (dot u v) t.dep_var)) u v ≡ some x
      → sub_scaled (mul stepsize (sub (dot u v) t.dep_var)) v u ≡ some y
      → set? m.matrix_v t.j y ≡ some vs
      → set? m.matrix_u t.i x ≡ some us
      → gradient_in_place dot m t stepsize ≡ some (record { matrix_u = us; matrix_v = vs })
  unfolding gradient_in_place
  gradient_by m t stepsize e₁ e₂ e₃ e₄ e₅ e₆ = rw (e₁, e₂, e₃, e₄, e₅, e₆)

  pub gradient_in_place-Holds :
      (rows cols rank : ℕ) (f : Factors D) (m : LmfModel D) (t : LmfTuple D) (stepsize : D)
      → Holds rows cols rank f m
      → t.i < rows
      → t.j < cols
      → (m' : LmfModel D) × (gradient_in_place dot m t stepsize ≡ some m')
        × Holds rows cols rank (descend stepsize f t) m'
  gradient_in_place-Holds rows cols rank f m t stepsize p hi hj =
      let u = f.left t.i in
      let v = f.right t.j in
      let c = mul stepsize (residual f t) in
      let same : length u ≡ length v = p.u.width t.i hi ∙ sym (p.v.width t.j hj) in
      let (vs, ev, q) =
        set-IsMatrix cols rank f.right m.matrix_v t.j (moved c v u) p.v hj
          (length-moved c v u (sym same) ∙ p.v.width t.j hj) in
      let (us, eu, r) =
        set-IsMatrix rows rank f.left m.matrix_u t.i (moved c u v) p.u hi
          (length-moved c u v same ∙ p.u.width t.i hi) in
      (
        record { matrix_u = us; matrix_v = vs },
        gradient_by m t stepsize (p.u.row t.i hi) (p.v.row t.j hj) (sub_scaled_lem c u v same)
            (sub_scaled_lem c v u (sym same)) ev eu,
        record { u = r; v = q },
      )

  pub loss_lem :
      (rows cols rank : ℕ) (f : Factors D) (m : LmfModel D) (t : LmfTuple D)
      → Holds rows cols rank f m
      → t.i < rows
      → t.j < cols
      → lmf_loss dot m t ≡ some (mul (residual f t) (residual f t))
  unfolding lmf_loss
  loss_lem rows cols rank f m t p hi hj = rw (p.u.row t.i hi, p.v.row t.j hj)
