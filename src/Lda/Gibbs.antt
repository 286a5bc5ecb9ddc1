-- ===== src/Lda/Gibbs.antt =====
-- `lda_gibbs_sample::run`: one document is sampled over again, in place.
pub mod Word
pub mod Counting
pub mod Pass
pub mod Checked
pub mod Call
use madlibport.Base.{
  ℕ, zero, suc, ◌+◌, ◌*◌, Bool, true, false, not, ◌||◌, Option, none, some, List, length, get_elem?,
  set?, ◌==◌, if◌then◌else◌,
}
use madlibport.Base.Int.{ℤ, pos, pos_part, inc, dec, index?, lt_ℤ, le_ℤ, ◌+ℤ◌}
use madlibport.Base.Outcome.{Outcome, ok, throws, ◌>>=◌, ◌>>◌, reject, unless_fault}
use madlibport.Doubles.{Double}
use madlibport.Lda.Arrays.{min_of, max_of, sum_of, doc_size, model_cells, slice, modify, scan}
use madlibport.Lda.Gibbs.Word.{GibbsState, gibbs_loop}
use madlibport.Lda.Errors.{
  LdaError, bad_alpha, bad_beta, bad_voc_size, bad_topic_num, bad_iter_num, size_mismatch,
  bad_words, bad_counts, bad_doc_topic_size, bad_topic_count, bad_topic_assignment, null_model,
  bad_model_size, bad_model_counts,
}

-- The model that a first call copies into the user context, or the one that is there already.
unfoldable pub context_of : Option (List ℤ) → Option (List ℤ) → ℤ → ℤ → Outcome LdaError (List ℤ)
context_of (some state) model voc_size topic_num = ok state
context_of none none voc_size topic_num = throws null_model
context_of none (some model) voc_size topic_num = do
  reject (not (length model == model_cells voc_size topic_num)) bad_model_size
  least ← unless_fault (min_of model)
  reject (lt_ℤ least (pos 0)) bad_model_counts
  ok model

-- The checks on the words of a document, up to their number.
unfoldable pub check_words : List ℤ → List ℤ → ℤ → Outcome LdaError (Unit {0})
check_words words counts voc_size = do
  reject (not (length words == length counts)) size_mismatch
  least ← unless_fault (min_of words)
  most ← unless_fault (max_of words)
  reject (lt_ℤ least (pos 0) || le_ℤ voc_size most) bad_words
  fewest ← unless_fault (min_of counts)
  reject (le_ℤ fewest (pos 0)) bad_counts

unfoldable pub check_doc_topic : List ℤ → ℤ → ℤ → Outcome LdaError (Unit {0})
check_doc_topic doc_topic word_count topic_num = do
  reject (not (length doc_topic == doc_size word_count topic_num)) bad_doc_topic_size
  least ← unless_fault (min_of (slice doc_topic 0 (pos_part topic_num)))
  reject (lt_ℤ least (pos 0)) bad_topic_count
  let assigned = slice doc_topic (pos_part topic_num) (pos_part word_count)
  lowest ← unless_fault (min_of assigned)
  highest ← unless_fault (max_of assigned)
  reject (lt_ℤ lowest (pos 0) || le_ℤ topic_num highest) bad_topic_assignment

module _ {D : Type 0} ⦃d : Double D⦄ where
  open d use {nought, le}

  -- The part behind the checks on single numbers.
  unfoldable pub resample :
      List ℤ
      → List ℤ
      → List ℤ
      → Option (List ℤ)
      → D
      → D
      → ℤ
      → ℤ
      → ℤ
      → Option (List ℤ)
      → (ℕ → D)
      → ℕ
      → Outcome LdaError GibbsState
  resample words counts doc_topic model alpha beta voc_size topic_num iter_num context drand drawn =
      do
        check_words words counts voc_size
        let word_count = sum_of counts
        check_doc_topic doc_topic word_count topic_num
        state ← context_of context model voc_size topic_num
        unless_fault (
            gibbs_loop (pos_part voc_size) (pos_part topic_num) (pos_part iter_num == 1) alpha beta
              drand words counts (pos_part iter_num)
              (record { doc_topic = doc_topic; state = state; drawn = drawn }))

  unfoldable pub lda_gibbs_sample :
      List ℤ
      → List ℤ
      → List ℤ
      → Option (List ℤ)
      → D
      → D
      → ℤ
      → ℤ
      → ℤ
      → Option (List ℤ)
      → (ℕ → D)
      → ℕ
      → Outcome LdaError GibbsState
  lda_gibbs_sample words counts doc_topic model alpha beta voc_size topic_num iter_num context drand
        drawn =
      do
        reject (le alpha nought) bad_alpha
        reject (le beta nought) bad_beta
        reject (le_ℤ voc_size (pos 0)) bad_voc_size
        reject (le_ℤ topic_num (pos 0)) bad_topic_num
        reject (le_ℤ iter_num (pos 0)) bad_iter_num
        resample words counts doc_topic model alpha beta voc_size topic_num iter_num context drand
            drawn
