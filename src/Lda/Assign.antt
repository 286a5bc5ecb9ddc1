-- ===== src/Lda/Assign.antt =====
-- `lda_random_assign::run`: a topic for each word of a document, at random.
pub mod Step
pub mod Consistent
use madlibport.Base.{
  ℕ, zero, suc, ◌+◌, ◌≤◌, ◌<◌, ◌≡◌, refl, ◌∙◌, ◌%◌, Bool, Option, some, List, arith, length,
  get_elem?, set?, replicate,
}
use madlibport.Base.Int.{ℤ, pos, pos_part, inc, lt_ℤ}
use madlibport.Base.Outcome.{Outcome, ok, ◌>>=◌, ◌>>◌, reject, unless_fault}
use madlibport.Base.{for_loop}
use madlibport.Lda.Assign.Step.{assign_word}
use madlibport.Lda.Errors.{LdaError, bad_topic_num, bad_word_count}

unfoldable pub lda_random_assign : ℤ → ℤ → (ℕ → ℕ) → Outcome LdaError (List ℤ)
lda_random_assign word_count topic_num random = do
  reject (lt_ℤ word_count (pos 1)) bad_word_count
  reject (lt_ℤ topic_num (pos 1)) bad_topic_num
  unless_fault (
      for_loop 0 (pos_part word_count) (assign_word (pos_part topic_num) random)
        (replicate (pos_part topic_num + pos_part word_count) (pos 0)))
