-- ===== src/Lda/Assign/Step.antt =====
-- The loop body of `lda_random_assign::run`.
use madlibport.Base.{ℕ, ◌+◌, ◌%◌, Option, List, set?, ◌>>=◌}
use madlibport.Base.Int.{ℤ, pos, inc}
use madlibport.Lda.Arrays.{modify}

-- `random i` is the value of the call of `random()` for word `i`.
unfoldable pub assign_word : ℕ → (ℕ → ℕ) → ℕ → List ℤ → Option (List ℤ)
assign_word topic_num random i doc_topic = do
  d ← modify doc_topic (random i % topic_num) inc
  set? d (topic_num + i) (pos (random i % topic_num))
