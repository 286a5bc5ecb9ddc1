-- ===== src/Lda/Arrays/Checks.antt =====
-- What the parameter checks say of the elements of an array, and the loop over a document.
use madlibport.Base.{
  ℕ, zero, suc, ◌+◌, ◌*◌, ◌^◌, ◌≤◌, ◌<◌, ◌≡◌, ◌∙◌, ap, refl, true, false, Option, some, List, [],
  ◌∷◌, arith, length, All, if◌then◌else◌, >>=-eq-some,
}
use madlibport.Base.Int.{
  ℤ, pos, negsuc, pos_part, lt_ℤ, inc, int32, int32-small, to_size, ◌+ℤ◌, ◌*ℤ◌,
}
use madlibport.Lda.Arrays.{min_of, max_of, sum_of, sum_from, doc_size, model_cells, scan, scan_word}

pub min_of-some : (xs : List ℤ) → 0 < length xs → (m : ℤ) × (min_of xs ≡ some m)
unfolding min_of
min_of-some [] h = absurd (omega arith)
min_of-some (x ∷ []) h = (x, refl)
min_of-some (x ∷ y ∷ xs) h =
    let (m, e) = min_of-some (y ∷ xs) (omega arith) in (if lt_ℤ m x then m else x, rw e)

pub max_of-some : (xs : List ℤ) → 0 < length xs → (m : ℤ) × (max_of xs ≡ some m)
unfolding max_of
max_of-some [] h = absurd (omega arith)
max_of-some (x ∷ []) h = (x, refl)
max_of-some (x ∷ y ∷ xs) h =
    let (m, e) = max_of-some (y ∷ xs) (omega arith) in (if lt_ℤ x m then m else x, rw e)

-- A bound on the least element bounds them all from below.
pub min_of_bound :
    (b : ℤ) (xs : List ℤ) (m : ℤ)
    → min_of xs ≡ some m
    → lt_ℤ m b ≡ false
    → All (λ x. lt_ℤ x b ≡ false) xs
unfolding min_of
min_of_bound b [] m e h = tt
min_of_bound b (x ∷ []) m e h = (ground arith, tt)
min_of_bound b (x ∷ y ∷ xs) m e h =
    let (m', e', k) = >>=-eq-some (min_of (y ∷ xs)) _ e in
    (ground arith, min_of_bound b (y ∷ xs) m' e' (ground arith))

-- A bound on the greatest element bounds them all from above.
pub max_of_bound :
    (b : ℤ) (xs : List ℤ) (m : ℤ)
    → max_of xs ≡ some m
    → lt_ℤ m b ≡ true
    → All (λ x. lt_ℤ x b ≡ true) xs
unfolding max_of
max_of_bound b [] m e h = tt
max_of_bound b (x ∷ []) m e h = (ground arith, tt)
max_of_bound b (x ∷ y ∷ xs) m e h =
    let (m', e', k) = >>=-eq-some (max_of (y ∷ xs)) _ e in
    (ground arith, max_of_bound b (y ∷ xs) m' e' (ground arith))

-- The number of positions that the counts of a document span.
abbrev pub span : List ℤ → ℕ
span [] = 0
span (c ∷ cs) = pos_part c + span cs

sum_from-span :
    (acc : ℕ) (cs : List ℤ)
    → All (λ c. lt_ℤ (pos 0) c ≡ true) cs
    → acc + span cs < 2 ^ 31
    → sum_from (pos acc) cs ≡ pos (acc + span cs)
unfolding sum_from
sum_from-span acc [] h few = ap pos (omega arith)
sum_from-span acc (pos c ∷ cs) (h, hs) few =
    let plain : pos acc +ℤ pos c ≡ pos (acc + c) = ground arith in
    let next : int32 (pos acc +ℤ pos c) ≡ pos (acc + c) =
      ap int32 plain ∙ int32-small (acc + c) (omega arith) in
    ap (λ (a : ℤ). sum_from a cs) next
    ∙ sum_from-span (acc + c) cs hs (omega arith)
    ∙ ap pos (omega arith)
sum_from-span acc (negsuc c ∷ cs) (h, hs) few = absurd (ground arith)

-- Where the sum fits an `int32_t`, it is the number of positions.
pub sum_of-span :
    (cs : List ℤ)
    → All (λ c. lt_ℤ (pos 0) c ≡ true) cs
    → span cs < 2 ^ 31
    → sum_of cs ≡ pos (span cs)
unfolding sum_of
sum_of-span cs h few = sum_from-span 0 cs h (omega arith) ∙ ap pos (omega arith)

pub doc_size_lem : (words t : ℕ) → words + t < 2 ^ 31 → doc_size (pos words) (pos t) ≡ words + t
unfolding doc_size
doc_size_lem words t few =
    let plain : pos words +ℤ pos t ≡ pos (words + t) = ground arith in
    ap (λ (a : ℤ). to_size (int32 a)) plain ∙ ap to_size (int32-small (words + t) few)

pub model_cells_lem :
    (v t : ℕ) → 0 < t → (v + 1) * t < 2 ^ 31 → model_cells (pos v) (pos t) ≡ (v + 1) * t
unfolding model_cells
model_cells_lem v t some_topic few =
    let less : v + 1 ≤ (v + 1) * t = grind arith in
    let first : int32 (inc (pos v)) ≡ pos (v + 1) = int32-small (v + 1) (omega arith) in
    let plain : pos (v + 1) *ℤ pos t ≡ pos ((v + 1) * t) = ground arith in
    ap (λ (a : ℤ). to_size (int32 (a *ℤ pos t))) first
    ∙ ap (λ (a : ℤ). to_size (int32 a)) plain
    ∙ ap to_size (int32-small ((v + 1) * t) few)

pub span-pos : (cs : List ℤ) → 0 < length cs → All (λ c. lt_ℤ (pos 0) c ≡ true) cs → 0 < span cs
span-pos [] h a = absurd (omega arith)
span-pos (pos c ∷ cs) h (p, ps) = ground arith
span-pos (negsuc c ∷ cs) h (p, ps) = absurd (ground arith)

-- A body that keeps an invariant at each position and word makes a loop that does.
module _ {S : Type 0} (P : S → Type 0) (Q : ℤ → Type 0) (body : ℤ → ℕ → S → Option S) (lo hi : ℕ)
    (keep : (w : ℤ) (k : ℕ) (s : S)
      → Q w
      → lo ≤ k
      → k < hi
      → P s
      → (s' : S) × (body w k s ≡ some s') × P s') where
  scan_word-inv :
      (w : ℤ) (n k : ℕ) (s : S)
      → Q w
      → lo ≤ k
      → k + n ≤ hi
      → P s
      → (s' : S) × (scan_word (body w) k n s ≡ some s') × P s'
  unfolding scan_word
  scan_word-inv w zero k s q h h' p = (s, refl, p)
  scan_word-inv w (suc n) k s q h h' p =
      let (s₁, e₁, p₁) = keep w k s q h (omega arith) p in
      let (s', e', p') = scan_word-inv w n (k + 1) s₁ q (omega arith) (omega arith) p₁ in
      (s', rw e₁ e', p')

  pub scan-inv :
      (ws cs : List ℤ) (k : ℕ) (s : S)
      → All Q ws
      → lo ≤ k
      → k + span cs ≤ hi
      → P s
      → (s' : S) × (scan body ws cs k s ≡ some s') × P s'
  unfolding scan
  scan-inv [] cs k s q h h' p = (s, refl, p)
  scan-inv (w ∷ ws) [] k s q h h' p = (s, refl, p)
  scan-inv (w ∷ ws) (c ∷ cs) k s (q, qs) h h' p =
      let (s₁, e₁, p₁) = scan_word-inv w (pos_part c) k s q h (omega arith) p in
      let (s', e', p') = scan-inv ws cs (k + pos_part c) s₁ qs (omega arith) (omega arith) p₁ in
      (s', rw e₁ e', p')
