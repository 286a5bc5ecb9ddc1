-- ===== src/Linalg/MatrixOp/Pieces.antt =====
-- The rows that `row_split` returns, one in each call.
use madlibport.Base.{
  ℕ, zero, suc, ◌+◌, ◌-◌, ◌*◌, ◌/◌, ◌%◌, ◌≤◌, ◌<◌, ◌≡◌, refl, sym, ◌∙◌, ap, subst, true, false,
  some, none, List, [], ◌∷◌, ◌++◌, arith, length, take, drop, replicate, ◌==◌, length-take,
  length-drop, length-replicate, take-append-drop, drop-drop, drop_all, take_all, memcpy_whole,
  ℕ_discrete,
}
use mathlib.Core.List.{append-nil}
use madlibport.Base.Int.{pos}
use madlibport.Doubles.{Double}
use madlibport.Linalg.MatrixOp.Split.{SplitCtx, split_init, split_size, split_rows, split_next}

split_rows-step :
    {D : Type 0} ⦃d : Double D⦄ (fuel : ℕ) (ctx ctx' : SplitCtx D) (row : List D)
    (rows : List (List D))
    → split_next ctx ≡ some (some (row, ctx'))
    → split_rows fuel ctx' ≡ some rows
    → split_rows (suc fuel) ctx ≡ some (row ∷ rows)
unfolding split_rows
split_rows-step fuel ctx ctx' row rows e k = rw e (rw k)

split_rows-done :
    {D : Type 0} ⦃d : Double D⦄ (fuel : ℕ) (ctx : SplitCtx D)
    → split_next ctx ≡ some none
    → split_rows (suc fuel) ctx ≡ some []
unfolding split_rows
split_rows-done fuel ctx e = rw e

abbrev pub join : {A : Type 0} → List (List A) → List A
join [] = []
join (row ∷ rows) = row ++ join rows

-- All rows have `size` elements, but the last one, which has one at least.
abbrev pub AreFull : {A : Type 0} → ℕ → List (List A) → Type 0
AreFull size [] = Unit {0}
AreFull size (row ∷ []) = (0 < length row) × (length row ≤ size)
AreFull size (row ∷ next ∷ rows) = (length row ≡ size) × AreFull size (next ∷ rows)

pub record ArePieces {A : Type 0} (size : ℕ) (xs : List A) (rows : List (List A)) : Type 0 where
  pub full : AreFull size rows
  pub joined : join rows ≡ xs

AreFull-cons :
    {A : Type 0} (size : ℕ) (row : List A) (rows : List (List A))
    → length row ≡ size
    → 0 < size
    → AreFull size rows
    → AreFull size (row ∷ rows)
AreFull-cons size row [] e h f = (omega arith, omega arith)
AreFull-cons size row (next ∷ rows) e h f = (e, f)

last_mod : (n s cur : ℕ) → 0 < s → cur * s < n → n < cur * s + s → n % s ≡ n - cur * s
last_mod n s cur h lo hi = grind arith

last_full : (n s cur : ℕ) → 0 < s → n ≡ cur * s + s → n % s ≡ 0
last_full n s cur h e = grind arith

module _ {D : Type 0} ⦃d : Double D⦄ (xs : List D) (m : ℕ) where
  abbrev ctx_at : ℕ → ℕ → SplitCtx D
  ctx_at left cur = record {
    inarray = xs;
    dim = length xs;
    maxcall = left;
    size = suc m;
    curcall = cur;
  }

  -- The size of the next piece, and that it is in the array.
  record Fits (left cur : ℕ) : Type 0 where
    fits : cur * suc m + split_size (ctx_at left cur) ≤ length xs
    last : left ≡ 1 → cur * suc m + split_size (ctx_at left cur) ≡ length xs
    some_left : 0 < split_size (ctx_at left cur)
    bounded : split_size (ctx_at left cur) ≤ suc m
    whole : 1 < left → split_size (ctx_at left cur) ≡ suc m

  split_size-Fits :
      (left cur : ℕ)
      → 0 < left
      → length xs ≤ left * suc m + cur * suc m
      → left * suc m + cur * suc m < length xs + suc m
      → Fits left cur
  unfolding split_size
  split_size-Fits zero cur h lo hi = elim h [ ]
  split_size-Fits (suc zero) cur h lo hi =
      let once : suc zero * suc m ≡ suc m = omega arith in
      let test : (suc zero == 1) ≡ true = ground arith in
      elim (ℕ_discrete (length xs) (cur * suc m + suc m)) [
        | yes e ↦
            let none_over : length xs % suc m ≡ 0 =
              last_full (length xs) (suc m) cur (omega arith) e in
            let size : split_size (ctx_at 1 cur) ≡ suc m = rw none_over refl in
            record {
              fits = rw size (omega arith);
              last = λ _. rw size (sym e);
              some_left = rw size (omega arith);
              bounded = rw size (omega arith);
              whole = λ h. absurd (omega arith);
            }
        | no ne ↦
            let over : length xs % suc m ≡ length xs - cur * suc m =
              last_mod (length xs) (suc m) cur (omega arith) (omega arith) (omega arith) in
            let size : split_size (ctx_at 1 cur) ≡ length xs - cur * suc m = ground arith in
            record {
              fits = rw size (omega arith);
              last = λ _. rw size (omega arith);
              some_left = rw size (omega arith);
              bounded = rw size (omega arith);
              whole = λ h. absurd (omega arith);
            }
      ]
  split_size-Fits (suc (suc left)) cur h lo hi =
      let twice : suc (suc left) * suc m ≡ left * suc m + suc m + suc m = grind arith in
      let test : (suc (suc left) == 1) ≡ false = ground arith in
      record {
        fits = rw test (omega arith);
        last = λ e. absurd (omega arith);
        some_left = rw test (omega arith);
        bounded = rw test (omega arith);
        whole = λ e. rw test refl;
      }

  split_next_done : (cur : ℕ) → split_next (ctx_at 0 cur) ≡ some none
  unfolding split_next
  split_next_done cur = refl

  -- The piece that a call copies.
  split_next_lem :
      (left cur : ℕ)
      → Fits (suc left) cur
      → split_next (ctx_at (suc left) cur)
        ≡ some (
            some (
              take (split_size (ctx_at (suc left) cur)) (drop (cur * suc m) xs),
              ctx_at left (cur + 1),
            ))
  unfolding split_next
  split_next_lem left cur f = rw (
      memcpy_whole (replicate (split_size (ctx_at (suc left) cur)) d.nought) xs (cur * suc m)
        (split_size (ctx_at (suc left) cur)) (length-replicate _ _) f.fits)

  length-piece :
      (left cur : ℕ)
      → Fits (suc left) cur
      → length (take (split_size (ctx_at (suc left) cur)) (drop (cur * suc m) xs))
        ≡ split_size (ctx_at (suc left) cur)
  length-piece left cur f =
      let fits = f.fits in
      length-take _ (drop (cur * suc m) xs) (omega (arith, length-drop (cur * suc m) xs))

  pieces_lem :
      (left cur : ℕ)
      → cur * suc m ≤ length xs
      → length xs ≤ left * suc m + cur * suc m
      → left * suc m + cur * suc m < length xs + suc m
      → (rows : List (List D)) × (split_rows (suc left) (ctx_at left cur) ≡ some rows)
        × (length rows ≡ left)
        × ArePieces (suc m) (drop (cur * suc m) xs) rows
  pieces_lem zero cur h lo hi = (
    [],
    split_rows-done 0 (ctx_at 0 cur) (split_next_done cur),
    refl,
    record { full = tt; joined = sym (drop_all (cur * suc m) xs (omega arith)) },
  )
  pieces_lem (suc zero) cur h lo hi =
      let f = split_size-Fits 1 cur (omega arith) lo hi in
      let row = take (split_size (ctx_at 1 cur)) (drop (cur * suc m) xs) in
      let sized = length-piece 0 cur f in
      let end = f.last refl in
      let some_left = f.some_left in
      let bounded = f.bounded in
      let all : row ≡ drop (cur * suc m) xs =
        take_all _ (drop (cur * suc m) xs) (omega (arith, length-drop (cur * suc m) xs)) in
      (
        row ∷ [],
        split_rows-step 1 _ _ row [] (split_next_lem 0 cur f)
            (split_rows-done 0 (ctx_at 0 (cur + 1)) (split_next_done (cur + 1))),
        refl,
        record { full = (omega arith, omega arith); joined = append-nil row ∙ all },
      )
  pieces_lem (suc (suc left)) cur h lo hi =
      let f = split_size-Fits (suc (suc left)) cur (omega arith) lo hi in
      let row = take (split_size (ctx_at (suc (suc left)) cur)) (drop (cur * suc m) xs) in
      let size = f.whole (omega arith) in
      let sized : length row ≡ suc m = length-piece (suc left) cur f ∙ size in
      let fits : cur * suc m + suc m ≤ length xs = let inside = f.fits in omega arith in
      let next : (cur + 1) * suc m ≡ cur * suc m + suc m = grind arith in
      let less : suc (suc left) * suc m ≡ suc left * suc m + suc m = grind arith in
      let (rows, e, number, p) =
        pieces_lem (suc left) (cur + 1) (omega arith) (omega arith) (omega arith) in
      (
        row ∷ rows,
        split_rows-step (suc (suc left)) _ _ row rows (split_next_lem (suc left) cur f) e,
        omega arith,
        record {
          full = AreFull-cons (suc m) row rows sized (omega arith) p.full;
          joined =
              ap (λ t. row ++ t)
                (p.joined
                  ∙ ap (λ (n : ℕ). drop n xs) next
                  ∙ sym (drop-drop (cur * suc m) (suc m) xs))
              ∙ ap
                  (λ (n : ℕ).
                    take n (drop (cur * suc m) xs) ++ drop (suc m) (drop (cur * suc m) xs))
                  size
              ∙ take-append-drop (suc m) (drop (cur * suc m) xs);
        },
      )

-- `row_split` of an array into rows of `size` elements, of which there is one at least, returns the
-- quotient, rounded up, of the length by `size` as many rows, one in each call, and ends with the
-- next call; all rows but the last have `size` elements, the last has one at least and `size` at
-- most, and joined they are the array.
pub split_rows-ArePieces :
    {D : Type 0} ⦃d : Double D⦄ (xs : List D) (m : ℕ)
    → (ctx : SplitCtx D) × (split_init xs (pos (suc m)) ≡ some ctx)
      × (rows : List (List D)) × (split_rows (suc ((length xs + m) / suc m)) ctx ≡ some rows)
      × (length rows ≡ (length xs + m) / suc m)
      × ArePieces (suc m) xs rows
unfolding split_init
split_rows-ArePieces {D} ⦃d⦄ xs m =
    let k = (length xs + m) / suc m in
    let start : 0 * suc m ≡ 0 = omega arith in
    let lo : length xs ≤ k * suc m = grind arith in
    let hi : k * suc m < length xs + suc m = grind arith in
    let (rows, e, number, p) = pieces_lem xs m k 0 (omega arith) (omega arith) (omega arith) in
    (
      ctx_at xs m k 0,
      refl,
      rows,
      e,
      number,
      subst (λ (n : ℕ). ArePieces (suc m) (drop n xs) rows) start p,
    )
