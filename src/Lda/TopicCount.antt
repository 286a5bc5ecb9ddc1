-- ===== src/Lda/TopicCount.antt =====
-- `lda_count_topic_sfunc::run` and `lda_count_topic_prefunc::run`: the model is counted from the
-- assignments of all documents.
pub mod Step
pub mod Flat
pub mod Cell
pub mod Counts
pub mod Call
pub mod Merge
use madlibport.Base.{
  ℕ, zero, suc, ◌+◌, ◌*◌, Bool, true, false, not, ◌||◌, Option, none, some, List, length, get_elem?,
  replicate, ◌==◌,
}
use madlibport.Base.Int.{ℤ, pos, pos_part, to_size, inc, index?, lt_ℤ, le_ℤ, ◌+ℤ◌}
use madlibport.Base.Outcome.{Outcome, ok, throws, ◌>>=◌, ◌>>◌, reject, unless_fault}
use madlibport.Lda.Arrays.{min_of, max_of, sum_of, model_cells, modify, scan}
use madlibport.Lda.Errors.{
  LdaError, null_parameter, bad_voc_size, bad_topic_num, bad_topics, bad_assignment_size,
  bad_dimension,
}
use madlibport.Lda.Gibbs.{check_words}
use madlibport.Lda.TopicCount.Step.{count_word, add_states}

unfoldable pub check_topics : List ℤ → List ℤ → ℤ → Outcome LdaError (Unit {0})
check_topics topic_assignment counts topic_num = do
  lowest ← unless_fault (min_of topic_assignment)
  highest ← unless_fault (max_of topic_assignment)
  reject (lt_ℤ lowest (pos 0) || le_ℤ topic_num highest) bad_topics
  reject (not (to_size (sum_of counts) == length topic_assignment)) bad_assignment_size

-- A first call makes an array of zeros.
abbrev pub start_state : Option (List ℤ) → ℤ → ℤ → List ℤ
start_state none voc_size topic_num = replicate (model_cells voc_size topic_num) (pos 0)
start_state (some state) voc_size topic_num = state

-- The part behind the checks for null.
unfoldable pub count_topics :
    Option (List ℤ) → List ℤ → List ℤ → List ℤ → ℤ → ℤ → Outcome LdaError (List ℤ)
count_topics state words counts topic_assignment voc_size topic_num = do
  reject (le_ℤ voc_size (pos 0)) bad_voc_size
  reject (le_ℤ topic_num (pos 0)) bad_topic_num
  check_words words counts voc_size
  check_topics topic_assignment counts topic_num
  unless_fault (
      scan (count_word (pos_part voc_size) (pos_part topic_num) topic_assignment) words counts 0
        (start_state state voc_size topic_num))

abbrev pub non_null : Outcome LdaError (List ℤ) → Outcome LdaError (Option (List ℤ))
non_null m = m >>= λ state. ok (some state)

unfoldable pub lda_count_topic_sfunc :
    Option (List ℤ)
    → Option (List ℤ)
    → Option (List ℤ)
    → Option (List ℤ)
    → Option ℤ
    → Option ℤ
    → Outcome LdaError (Option (List ℤ))
lda_count_topic_sfunc state words counts topics none topic_num = throws null_parameter
lda_count_topic_sfunc state words counts topics (some voc_size) none = throws null_parameter
lda_count_topic_sfunc state none counts topics (some voc_size) (some topic_num) = ok state
lda_count_topic_sfunc state (some words) none topics (some voc_size) (some topic_num) = ok state
lda_count_topic_sfunc state (some words) (some counts) none (some voc_size) (some topic_num) =
    ok state
lda_count_topic_sfunc state (some words) (some counts) (some topics) (some voc_size)
      (some topic_num) =
    non_null (count_topics state words counts topics voc_size topic_num)

unfoldable pub lda_count_topic_prefunc : List ℤ → List ℤ → Outcome LdaError (List ℤ)
lda_count_topic_prefunc state1 state2 = do
  reject (not (length state1 == length state2)) bad_dimension
  unless_fault (add_states state1 state2)
