-- ===== src/Lda/Arrays.antt =====
-- What lda.cpp does with arrays and with the words of a document.
pub mod Checks
use madlibport.Base.{
  ℕ, zero, suc, ◌+◌, Bool, true, false, Option, none, some, List, [], ◌∷◌, get_elem?, set?, take,
  drop, ◌>>=◌, if◌then◌else◌,
}
use madlibport.Base.Int.{ℤ, pos, negsuc, pos_part, lt_ℤ, inc, int32, to_size, ◌+ℤ◌, ◌*ℤ◌}

-- `__min` and `__max`: an empty array has no element to read.
unfoldable pub min_of : List ℤ → Option ℤ
min_of [] = none
min_of (x ∷ []) = some x
min_of (x ∷ y ∷ xs) = min_of (y ∷ xs) >>= λ m. some (if lt_ℤ m x then m else x)

unfoldable pub max_of : List ℤ → Option ℤ
max_of [] = none
max_of (x ∷ []) = some x
max_of (x ∷ y ∷ xs) = max_of (y ∷ xs) >>= λ m. some (if lt_ℤ x m then m else x)

-- `std::accumulate` in an `int32_t`; where a sum does not fit, it wraps around.
unfoldable pub sum_from : ℤ → List ℤ → ℤ
sum_from acc [] = acc
sum_from acc (x ∷ xs) = sum_from (int32 (acc +ℤ x)) xs

-- `__sum`
unfoldable pub sum_of : List ℤ → ℤ
unfolding sum_from
sum_of xs = sum_from (pos 0) xs

-- `(size_t)(word_count + topic_num)`, with the sum in an `int32_t`.
unfoldable pub doc_size : ℤ → ℤ → ℕ
doc_size word_count topic_num = to_size (int32 (word_count +ℤ topic_num))

-- `(size_t)((voc_size + 1) * topic_num)`, with sum and product in an `int32_t`.
unfoldable pub model_cells : ℤ → ℤ → ℕ
model_cells voc_size topic_num = to_size (int32 (int32 (inc voc_size) *ℤ topic_num))

-- `array + start` for `len` elements.
abbrev pub slice : List ℤ → ℕ → ℕ → List ℤ
slice xs start len = take len (drop start xs)

-- `xs[i]` is read, changed and written.
abbrev pub modify : List ℤ → ℕ → (ℤ → ℤ) → Option (List ℤ)
modify xs i f = get_elem? xs i >>= λ a. set? xs i (f a)

-- The two nested loops over the unique words and the occurrences of each, with `word_index` running
-- through the positions of the document.
module _ {S : Type 0} where
  unfoldable pub scan_word : (ℕ → S → Option S) → ℕ → ℕ → S → Option S
  scan_word body word_index zero s = some s
  scan_word body word_index (suc n) s = body word_index s >>= scan_word body (word_index + 1) n

  unfoldable pub scan : (ℤ → ℕ → S → Option S) → List ℤ → List ℤ → ℕ → S → Option S
  scan body (w ∷ words) (c ∷ counts) word_index s =
      scan_word (body w) word_index (pos_part c) s
      >>= scan body words counts (word_index + pos_part c)
  scan body words counts word_index s = some s
