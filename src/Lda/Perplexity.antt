-- ===== src/Lda/Perplexity.antt =====
-- `lda_perplexity_sfunc`, `_prefunc` and `_ffunc`: the model, and behind it the bits of a double.
pub mod State
pub mod Sums
use madlibport.Base.{
  ℕ, zero, suc, ◌+◌, ◌-◌, ◌*◌, Bool, true, false, not, ◌||◌, Option, none, some, List, [], ◌∷◌,
  ◌++◌, length, get_elem?, set?, ◌==◌,
}
use madlibport.Base.Int.{ℤ, pos, pos_part, index?, lt_ℤ, le_ℤ}
use madlibport.Base.Outcome.{Outcome, ok, throws, ◌>>=◌, ◌>>◌, reject, unless_fault}
use madlibport.Doubles.{Double, of_int}
use madlibport.Lda.Arrays.{min_of, sum_of, slice}
use madlibport.Lda.Errors.{
  LdaError, bad_alpha, bad_beta, bad_voc_size, bad_topic_num, bad_topic_count, bad_dimension,
}
use madlibport.Lda.Gibbs.{check_words, context_of}
use madlibport.Lda.Perplexity.State.{Bits, add_words}

-- A first call makes room for the double behind a copy of the model.
unfoldable pub perplexity_state :
    Option (List ℤ) → Option (List ℤ) → ℤ → ℤ → Outcome LdaError (List ℤ)
perplexity_state (some state) model voc_size topic_num = ok state
perplexity_state none model voc_size topic_num = do
  m ← context_of none model voc_size topic_num
  ok (m ++ (pos 0 ∷ pos 0 ∷ []))

module _ {D : Type 0} ⦃d : Double D⦄ ⦃b : Bits D⦄ where
  open d use {nought, le}

  unfoldable pub lda_perplexity_sfunc :
      Option (List ℤ)
      → List ℤ
      → List ℤ
      → List ℤ
      → Option (List ℤ)
      → D
      → D
      → ℤ
      → ℤ
      → Outcome LdaError (List ℤ)
  lda_perplexity_sfunc state words counts topic_counts model alpha beta voc_size topic_num = do
    reject (le alpha nought) bad_alpha
    reject (le beta nought) bad_beta
    reject (le_ℤ voc_size (pos 0)) bad_voc_size
    reject (le_ℤ topic_num (pos 0)) bad_topic_num
    check_words words counts voc_size
    reject (not (length topic_counts == pos_part topic_num)) bad_dimension
    least ← unless_fault (min_of (slice topic_counts 0 (pos_part topic_num)))
    reject (lt_ℤ least (pos 0)) bad_topic_count
    s ← perplexity_state state model voc_size topic_num
    unless_fault (
        add_words (pos_part voc_size) (pos_part topic_num) alpha beta topic_counts (sum_of counts)
          words counts s)
