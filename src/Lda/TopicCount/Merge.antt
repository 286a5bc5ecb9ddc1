-- ===== src/Lda/TopicCount/Merge.antt =====
-- The merge of two states of the aggregate.
use madlibport.Base.{ℕ, ◌≡◌, some, List, length, get_elem?}
use madlibport.Base.Int.{ℤ, ◌+ℤ◌}

-- Each cell of `sum` is the sum of the cells of `xs` and `ys`.
pub record IsSum (xs ys sum : List ℤ) : Type 0 where
  pub same_length : length sum ≡ length xs
  pub other_length : length xs ≡ length ys
  pub cell :
      (i : ℕ) (a b : ℤ)
      → get_elem? xs i ≡ some a
      → get_elem? ys i ≡ some b
      → get_elem? sum i ≡ some (a +ℤ b)
