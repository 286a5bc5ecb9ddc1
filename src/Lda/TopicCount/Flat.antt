-- ===== src/Lda/TopicCount/Flat.antt =====
-- The two nested loops over the unique words and their counts, as one loop over all words.
use madlibport.Base.{
  ℕ, zero, suc, ◌+◌, ◌≡◌, refl, sym, ◌∙◌, ap, Option, some, List, [], ◌∷◌, ◌++◌, arith, length,
  replicate, All, All-append, length-append, length-replicate, ◌>>=◌, >>=_assoc, >>=_cong,
}
use madlibport.Base.Int.{ℤ, pos_part}
use madlibport.Lda.Arrays.{scan_word, scan}
use madlibport.Lda.Arrays.Checks.{span}

-- Each word as often as it occurs.
abbrev pub expand : List ℤ → List ℤ → List ℤ
expand (w ∷ words) (c ∷ counts) = replicate (pos_part c) w ++ expand words counts
expand words counts = []

module _ {S : Type 0} where
  abbrev pub scan_over : (ℤ → ℕ → S → Option S) → ℕ → List ℤ → S → Option S
  scan_over body k [] s = some s
  scan_over body k (w ∷ ws) s = body w k s >>= scan_over body (k + 1) ws

  scan_over-append :
      (body : ℤ → ℕ → S → Option S) (k : ℕ) (xs ys : List ℤ) (s : S)
      → scan_over body k (xs ++ ys) s
        ≡ (scan_over body k xs s >>= scan_over body (k + length xs) ys)
  scan_over-append body k [] ys s = ap (λ (n : ℕ). scan_over body n ys s) (omega arith)
  scan_over-append body k (x ∷ xs) ys s =
      let shift : k + 1 + length xs ≡ k + suc (length xs) = omega arith in
      >>=_cong (body x k s) _ _ (λ t.
        scan_over-append body (k + 1) xs ys t
        ∙ ap (λ (n : ℕ). scan_over body (k + 1) xs t >>= scan_over body n ys) shift)
      ∙ sym (>>=_assoc (body x k s) _ _)

  scan_word-over :
      (body : ℤ → ℕ → S → Option S) (w : ℤ) (k n : ℕ) (s : S)
      → scan_word (body w) k n s ≡ scan_over body k (replicate n w) s
  unfolding scan_word
  scan_word-over body w k zero s = refl
  scan_word-over body w k (suc n) s =
      >>=_cong (body w k s) _ _ (λ t. scan_word-over body w (k + 1) n t)

  pub scan-over :
      (body : ℤ → ℕ → S → Option S) (words counts : List ℤ) (k : ℕ) (s : S)
      → scan body words counts k s ≡ scan_over body k (expand words counts) s
  unfolding scan
  scan-over body [] counts k s = refl
  scan-over body (w ∷ words) [] k s = refl
  scan-over body (w ∷ words) (c ∷ counts) k s =
      ap (λ m. m >>= scan body words counts (k + pos_part c))
        (scan_word-over body w k (pos_part c) s)
      ∙ >>=_cong (scan_over body k (replicate (pos_part c) w) s) _ _ (λ t.
        scan-over body words counts (k + pos_part c) t
        ∙ ap (λ (n : ℕ). scan_over body (k + n) (expand words counts) t)
            (sym (length-replicate (pos_part c) w)))
      ∙ sym (scan_over-append body k (replicate (pos_part c) w) (expand words counts) s)

pub length-expand :
    (words counts : List ℤ)
    → length words ≡ length counts
    → length (expand words counts) ≡ span counts
length-expand [] [] h = refl
length-expand [] (c ∷ counts) h = absurd (omega arith)
length-expand (w ∷ words) [] h = absurd (omega arith)
length-expand (w ∷ words) (c ∷ counts) h = omega (
  arith,
  length-append (replicate (pos_part c) w) (expand words counts),
  length-replicate (pos_part c) w,
  length-expand words counts (omega arith),
)

All-replicate : (Q : ℤ → Type 0) (w : ℤ) (n : ℕ) → Q w → All Q (replicate n w)
All-replicate Q w zero q = tt
All-replicate Q w (suc n) q = (q, All-replicate Q w n q)

pub All-expand :
    (Q : ℤ → Type 0) (words counts : List ℤ) → All Q words → All Q (expand words counts)
All-expand Q [] counts h = tt
All-expand Q (w ∷ words) [] h = tt
All-expand Q (w ∷ words) (c ∷ counts) (q, qs) =
    All-append Q (replicate (pos_part c) w) (expand words counts) (All-replicate Q w (pos_part c) q)
      (All-expand Q words counts qs)
