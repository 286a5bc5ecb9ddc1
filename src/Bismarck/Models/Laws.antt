-- ===== src/Bismarck/Models/Laws.antt =====
-- The shared steps, cell by cell.
use madlibport.Base.{
  dec_lt, ltb-false, get_elem?-none, ◌*◌, ℕ, ◌<◌, ◌≡◌, refl, ◌∙◌, Bool, true, false, Option, some,
  List, arith, length, get_elem?, if◌then◌else◌, lt→ltb, get_elem?-some, ltb-false,
}
use madlibport.Doubles.{Double}
use madlibport.Bismarck.Linalg.{
  Pointer, Readable, simple_scale_add, simple_scale_add_lem, simple_scale_lem,
}
use madlibport.Bismarck.Uda.{double_size, doubles_at, Holds}
use madlibport.Bismarck.Models.{combine, Combined, merge_models}

module _ {D : Type 0} where
  pub Holds-Readable :
      (n : ℕ) (p : Option (List D)) (len : ℕ)
      → Holds n p len
      → (i : ℕ) → i < n
      → (a : D) × (doubles_at p i ≡ some a)
  Holds-Readable n p len (xs, e, el, _) i h =
      let (a, ea) = get_elem?-some xs i (omega arith) in (a, rw e ea)

module _ {D : Type 0} where
  -- The cells of a result one by one, as one equation.
  pub Combined-of :
      (n : ℕ) (x v : Pointer D) (f : D → D → D) (ys : List D) (len : ℕ)
      → Readable x n
      → Readable v n
      → length ys ≡ n
      → len ≡ n * double_size
      → ((i : ℕ) (a b : D) → i < n → x i ≡ some a → v i ≡ some b → get_elem? ys i ≡ some (f a b))
      → Combined n x v f (record { str = some ys; len = len })
  Combined-of n x v f ys len hx hv el en cell = ((ys, refl, el, en), at)
    where
      at : (i : ℕ) → get_elem? ys i ≡ combine f n x v i
      at i = elim (dec_lt i n) [
        | yes p ↦
            let (a, ea) = hx i p in
            let (b, eb) = hv i p in rw (lt→ltb i n p, ea, eb) (cell i a b p ea eb)
        | no p ↦ rw (ltb-false i n (omega arith)) (get_elem?-none ys i (omega arith))
      ]

module _ {D : Type 0} ⦃d : Double D⦄ where
  open d use {nought, one, half, of_uint, neg, add, sub, mul, lt}

  pub scale_add_if :
      (active : Bool) (xs : List D) (v : Pointer D) (a : D) (n : ℕ)
      → length xs ≡ n
      → Readable v n
      → (ys : List D) × ((if active then simple_scale_add xs v a n else some xs) ≡ some ys)
        × (length ys ≡ n)
        × ((i : ℕ) (u x : D)
            → i < n
            → get_elem? xs i ≡ some u
            → v i ≡ some x
            → get_elem? ys i ≡ some (if active then add u (mul a x) else u))
  scale_add_if false xs v a n hl hv = (xs, refl, hl, λ i u x _ eu _. eu)
  scale_add_if true xs v a n hl hv =
      let (ys, e, el, cell) = simple_scale_add_lem xs v a n (omega arith) hv in
      (ys, e, el ∙ hl, λ i u x h eu ex. cell i ∙ rw (lt→ltb i n h, eu, ex))

  pub merge_models_lem :
      (n : ℕ) (xs : List D) (src : Pointer D)
      → length xs ≡ n
      → Readable src n
      → (ys : List D) × (merge_models (some xs) src n ≡ some (some ys))
        × (length ys ≡ n)
        × ((i : ℕ) (u x : D)
            → i < n
            → get_elem? xs i ≡ some u
            → src i ≡ some x
            → get_elem? ys i ≡ some (add u (mul half x)))
  unfolding merge_models
  merge_models_lem n xs src el hv =
      let (zs, ez, lz, cell) = simple_scale_lem xs (of_uint n) 0 (omega arith) in
      let (ys, ey, ly, cell') = simple_scale_add_lem zs src half n (omega arith) hv in
      (
        ys,
        rw (ez, ey),
        ly ∙ lz ∙ el,
        λ i u x h eu ex.
            let same : get_elem? zs i ≡ some u = cell i ∙ rw (ltb-false i 0 (omega arith)) eu in
            cell' i ∙ rw (lt→ltb i n h, same, ex),
      )
