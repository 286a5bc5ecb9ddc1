-- ===== src/Bismarck/Svm/Steps.antt =====
-- What a step and a merge of the SVM compute, cell by cell.
use madlibport.Base.{
  Returns, Returns-of, ℕ, ◌*◌, ◌/◌, ◌<◌, ◌≡◌, refl, ◌↔◌, ◌∙◌, Bool, none, some, List, arith, length,
  get_elem?, replicate, if◌then◌else◌, length-replicate, lt→ltb, >>=-eq-some,
}
use madlibport.Doubles.{Double}
use madlibport.Bismarck.Linalg.{
  Readable, Readable-list, simple_dot, simple_dot-Readable_iff, simple_scale_lem,
}
use madlibport.Bismarck.Uda.{Bytea, double_size, doubles_at, Holds, IsLearner}
use madlibport.Bismarck.Models.{Combined, label_sign, ensure_model}
use madlibport.Bismarck.Models.Laws.{Combined-of, Holds-Readable, scale_add_if, merge_models_lem}
use madlibport.Bismarck.Svm.{svm_step, svm_merge, svm}

module _ {D : Type 0} ⦃d : Double D⦄ where
  open d use {nought, one, half, add, sub, mul, lt}

  svm_step_cells :
      (n : ℕ) (val : Bytea D) (y : Bool) (input : Bytea D) (step_size mu : D) (xs : List D)
      (len : ℕ)
      → ensure_model input.str input.len (val.len / double_size) ≡ (xs, len)
      → length xs ≡ n
      → len ≡ n * double_size
      → Readable (doubles_at val.str) n
      → (dot : D) × (ys : List D) × (simple_dot (get_elem? xs) (doubles_at val.str) n ≡ some dot)
        × (svm_step val y input step_size mu ≡ some (record { str = some ys; len = len }))
        × (length ys ≡ n)
        × ((i : ℕ) (u x : D)
            → i < n
            → get_elem? xs i ≡ some u
            → doubles_at val.str i ≡ some x
            → get_elem? ys i
              ≡ some (
                  mul
                    (if lt (mul dot (label_sign y)) one
                      then add u (mul (mul step_size (label_sign y)) x)
                      else u)
                    (sub one (mul step_size mu))))
  unfolding svm_step
  svm_step_cells n val y input step_size mu xs len start hl hlen hv =
      let v = doubles_at val.str in
      let (dot, edot) =
        (simple_dot-Readable_iff (get_elem? xs) v n).1 (Readable-list xs n (omega arith), hv) in
      let (ms, em, hm, cell) =
        scale_add_if (lt (mul dot (label_sign y)) one) xs v (mul step_size (label_sign y)) n hl
          hv in
      let (ys, ey, hy, cell') = simple_scale_lem ms (sub one (mul step_size mu)) n (omega arith) in
      let size : len / double_size ≡ n = omega arith in
      (
        dot,
        ys,
        edot,
        rw (start, size, edot, em, ey),
        hy ∙ hm,
        λ i u x h eu ex. cell' i ∙ rw (lt→ltb i n h, cell i u x h eu ex),
      )

  -- A step on a model of `n` doubles returns exactly when the example has `n` doubles to read: there
  -- is no check of the example's own length.
  pub svm_step-Readable_iff :
      (n : ℕ) (val : Bytea D) (y : Bool) (input : Bytea D) (step_size mu : D)
      → Holds n input.str input.len
      → ((m : Bytea D) × (svm_step val y input step_size mu ≡ some m))
        ↔ Readable (doubles_at val.str) n
  unfolding svm_step
  svm_step-Readable_iff n val y input step_size mu (xs, ex, el, en) =
      let v = doubles_at val.str in
      let size : input.len / double_size ≡ n = omega arith in
      let start : ensure_model input.str input.len (val.len / double_size) ≡ (xs, input.len) =
        rw ex in
      (
        λ (m, e).
            let (dot, edot, _) =
              >>=-eq-some (simple_dot (get_elem? xs) v n) _ (rw (start, size) at e) in
            ((simple_dot-Readable_iff (get_elem? xs) v n).0 (dot, edot)).1,
        λ hv.
            let (dot, ys, _, e, _, _) =
              svm_step_cells n val y input step_size mu xs input.len start el en hv in
            (record { str = some ys; len = input.len }, e),
      )

  svm_merge_cells :
      (n : ℕ) (src dst : Bytea D)
      → Holds n src.str src.len
      → Holds n dst.str dst.len
      → (ys : List D) × (svm_merge src dst ≡ some (record { str = some ys; len = dst.len }))
        × (length ys ≡ n)
        × ((i : ℕ) (u x : D)
            → i < n
            → doubles_at dst.str i ≡ some u
            → doubles_at src.str i ≡ some x
            → get_elem? ys i ≡ some (add u (mul half x)))
  unfolding svm_merge
  svm_merge_cells n src dst hs (xs, ex, el, en) =
      let size : dst.len / double_size ≡ n = omega arith in
      let (ys, ey, ly, cell) =
        merge_models_lem n xs (doubles_at src.str) el (Holds-Readable n src.str src.len hs) in
      (ys, rw (size, ex, ey), ly, λ i u x h eu. cell i u x h (rw ex at eu))

  -- `Step` and `Merge` of the SVM keep the dimension and do not fault at matching dimensions.
  pub svm-IsLearner : IsLearner {D = D} svm
  svm-IsLearner = record {
    step_first = λ n ex y len step_size mu h.
        let (xs, ep, el, en) = h in
        let size : ex.len / double_size ≡ n = omega arith in
        let (dot, ys, _, e, ly, _) =
          svm_step_cells n ex y (record { str = none; len = len }) step_size mu (replicate n nought)
            (n * double_size) (rw size) (length-replicate n nought) refl
            (Holds-Readable n ex.str ex.len h) in
        (record { str = some ys; len = n * double_size }, e, (ys, refl, ly, refl));
    step_next = λ n ex y model step_size mu h (xs, ep, el, en).
        let (dot, ys, _, e, ly, _) =
          svm_step_cells n ex y model step_size mu xs model.len (rw ep) el en
            (Holds-Readable n ex.str ex.len h) in
        (record { str = some ys; len = model.len }, e, (ys, refl, ly, en));
    merge_models = λ n src dst hs hd.
        let (ys, e, ly, _) = svm_merge_cells n src dst hs hd in
        (record { str = some ys; len = dst.len }, e, (ys, refl, ly, hd.3));
  }

  -- The step from the model `xs` of `n` doubles, as an inner product and a combination of cells.
  abbrev pub SvmSteps : ℕ → Bytea D → Bool → Bytea D → D → D → List D → Type 0
  SvmSteps n val y input step_size mu xs =
      Returns
        (λ dot.
          Returns
            (Combined n (get_elem? xs) (doubles_at val.str) (λ u x.
              mul
                (if lt (mul dot (label_sign y)) one
                  then add u (mul (mul step_size (label_sign y)) x)
                  else u)
                (sub one (mul step_size mu))))
            (svm_step val y input step_size mu))
        (simple_dot (get_elem? xs) (doubles_at val.str) n)

  -- A step on a model of `n` doubles, or on the zero model that replaces NULL, with `n` doubles to
  -- read in the example: with `dot` their inner product, cell `i` becomes its old value, moved along
  -- the example where the hinge is active (`dot * label < 1`), times `1 - step_size * mu`.
  pub svm_step_lem :
      (n : ℕ) (val : Bytea D) (y : Bool) (input : Bytea D) (step_size mu : D) (xs : List D)
      (len : ℕ)
      → ensure_model input.str input.len (val.len / double_size) ≡ (xs, len)
      → length xs ≡ n
      → len ≡ n * double_size
      → Readable (doubles_at val.str) n
      → SvmSteps n val y input step_size mu xs
  svm_step_lem n val y input step_size mu xs len start hl hlen hv =
      let (dot, ys, edot, e, ly, cell) =
        svm_step_cells n val y input step_size mu xs len start hl hlen hv in
      Returns-of _ _ edot (
        Returns-of _ _ e (
          Combined-of n (get_elem? xs) (doubles_at val.str) _ ys len
            (Readable-list xs n (omega arith)) hv ly hlen cell))

  -- `Merge` of two models of `n` doubles adds half of the source to the whole of the destination:
  -- the destination is not halved.
  pub svm_merge_lem :
      (n : ℕ) (src dst : Bytea D)
      → Holds n src.str src.len
      → Holds n dst.str dst.len
      → Returns
          (Combined n (doubles_at dst.str) (doubles_at src.str) (λ u x. add u (mul half x)))
          (svm_merge src dst)
  svm_merge_lem n src dst hs hd =
      let (ys, e, ly, cell) = svm_merge_cells n src dst hs hd in
      Returns-of _ _ e (
        Combined-of n (doubles_at dst.str) (doubles_at src.str) _ ys dst.len
          (Holds-Readable n dst.str dst.len hd) (Holds-Readable n src.str src.len hs) ly hd.3 cell)
