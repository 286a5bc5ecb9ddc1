-- ===== src/Lda/Tests.antt =====
-- Small runs of the code of lda.cpp.
use madlibport.Base.{
  ℕ, zero, suc, ◌+◌, ◌<◌, ◌≡◌, refl, ◌⊎◌, true, false, ◌==◌, if◌then◌else◌, Option, none, some,
  List, [], ◌∷◌, arith, length, get_elem?, Returns,
}
use madlibport.Base.Int.{ℤ, pos}
use madlibport.Base.Outcome.{Outcome, ok, ReturnsOrThrows}
use madlibport.Doubles.{Hundredths, hundredths_double}
use madlibport.Lda.Sample.{Counts, cumulate, draw, gibbs_topic}
use madlibport.Lda.Sample.Draw.{Holds, share_to, gibbs_topic-IsDrawn}
use madlibport.Lda.Errors.{LdaError}
use madlibport.Lda.Arrays.{min_of, max_of, sum_of, sum_from, doc_size, model_cells, scan, scan_word}
use madlibport.Lda.Gibbs.{lda_gibbs_sample, resample, check_words, check_doc_topic, context_of}
use madlibport.Lda.Gibbs.Word.{GibbsState, gibbs_loop, gibbs_word, move_in_model, move_in_doc}
use madlibport.Lda.Gibbs.Counting.{count_topic}
use madlibport.Lda.Gibbs.Call.{Resampled, lda_gibbs_sample-Resampled}
use madlibport.Lda.Assign.{lda_random_assign}
use madlibport.Lda.Assign.Consistent.{RandomDoc, lda_random_assign-RandomDoc}
use madlibport.Lda.TopicCount.{start_state, count_topics}
use madlibport.Lda.TopicCount.Flat.{expand}
use madlibport.Lda.TopicCount.Counts.{Counted}
use madlibport.Lda.TopicCount.Call.{count_topics-Counted}
use madlibport.Lda.Matrix.{lda_transpose}
use madlibport.Lda.Matrix.Transpose.{IsTransposed, lda_transpose-IsTransposed}
use madlibport.Lda.Matrix.Rows.{AllRows, unnest-AllRows}
use madlibport.Lda.Perplexity.State.{
  Bits, read_perp, add_words, lda_perplexity_prefunc, lda_perplexity_ffunc,
}
use madlibport.Lda.Perplexity.Sums.{Perp, log_term, add_words-Perp}
use madlibport.Lda.Totals.{sum_up}
open hundredths_double use {add, lt}

-- Two words, the first of which occurs twice, and two topics.
abbrev two_words : List ℤ
two_words = pos 0 ∷ pos 1 ∷ []

abbrev two_counts : List ℤ
two_counts = pos 2 ∷ pos 1 ∷ []

abbrev three_topics : List ℤ
three_topics = pos 0 ∷ pos 0 ∷ pos 1 ∷ []

abbrev small_doc : List ℤ
small_doc = pos 2 ∷ pos 1 ∷ three_topics

abbrev small_model : List ℤ
small_model = pos 2 ∷ pos 0 ∷ pos 0 ∷ pos 1 ∷ pos 2 ∷ pos 1 ∷ []

abbrev one_half : ℕ → Hundredths
one_half n = pos 50

abbrev no_excess : ℕ → ℤ
no_excess z = pos 0

abbrev drawn_counts : Counts
drawn_counts = get_elem? (pos 2 ∷ pos 1 ∷ [])

abbrev drawn : ℕ → ℤ
drawn i = if i == 0 then pos 2 else pos 1

drawn-Holds : Holds 2 drawn_counts drawn
drawn-Holds zero h = refl
drawn-Holds (suc zero) h = refl
drawn-Holds (suc (suc i)) h = absurd (omega arith)

abbrev share_drawn : ℕ → Hundredths
share_drawn = share_to 2 0 drawn drawn drawn (pos 50) (pos 10)

gibbs_topic-IsDrawn_example :
    Returns
      (λ t.
        (t < 2)
        × ((j : ℕ) → j < t → lt (pos 50) (share_drawn j) ≡ false)
        × ((t ≡ 1) ⊎ (lt (pos 50) (share_drawn t) ≡ true)))
      (gibbs_topic 2 0 drawn_counts drawn_counts drawn_counts (pos 50) (pos 10) (pos 50))
gibbs_topic-IsDrawn_example =
    gibbs_topic-IsDrawn 2 0 drawn drawn drawn (pos 50) (pos 10) drawn_counts drawn_counts
      drawn_counts (pos 50) (omega arith) drawn-Holds drawn-Holds drawn-Holds

small_doc_counted :
    (z : ℕ) → z < 2 → get_elem? small_doc z ≡ some (pos (0 + count_topic z three_topics))
small_doc_counted zero h = refl
small_doc_counted (suc zero) h = refl
small_doc_counted (suc (suc z)) h = absurd (omega arith)

lda_gibbs_sample-Resampled_example : ReturnsOrThrows (Resampled (pos 2) no_excess small_doc) (
    lda_gibbs_sample two_words two_counts small_doc
      (some small_model)
      (pos 50)
      (pos 10)
      (pos 2)
      (pos 2)
      (pos 1)
      none
      one_half
      0)
lda_gibbs_sample-Resampled_example =
    lda_gibbs_sample-Resampled two_words two_counts small_doc (some small_model) (pos 50) (pos 10)
      (pos 2) (pos 2) (pos 1) none one_half 0 no_excess (omega arith) tt small_doc_counted
      (omega arith) (omega arith)

-- The call does return.
abbrev returned_length : Outcome LdaError GibbsState → Option ℕ
returned_length (ok s) = some (length s.doc_topic)
returned_length m = none

lda_gibbs_sample_run :
    returned_length (
      lda_gibbs_sample two_words two_counts small_doc
        (some small_model)
        (pos 50)
        (pos 10)
        (pos 2)
        (pos 2)
        (pos 1)
        none
        one_half
        0)
    ≡ some 5
unfolding lda_gibbs_sample resample check_words check_doc_topic context_of gibbs_loop gibbs_word
    move_in_model move_in_doc gibbs_topic cumulate draw min_of max_of sum_of sum_from doc_size
    model_cells scan scan_word
lda_gibbs_sample_run = refl

lda_random_assign-RandomDoc_example :
    ReturnsOrThrows (RandomDoc (pos 3) (pos 2)) (lda_random_assign (pos 3) (pos 2) (λ i. i))
lda_random_assign-RandomDoc_example = lda_random_assign-RandomDoc (pos 3) (pos 2) (λ i. i)

abbrev SmallCounted : Type 0
SmallCounted =
    ReturnsOrThrows
      (Counted 2 2 (expand two_words two_counts) three_topics (start_state none (pos 2) (pos 2)))
      (count_topics none two_words two_counts three_topics (pos 2) (pos 2))

count_topics-Counted_example : SmallCounted
count_topics-Counted_example =
    count_topics-Counted none two_words two_counts three_topics (pos 2) (pos 2) (omega arith)
      (omega arith) tt (omega arith) (omega arith)

abbrev SmallTransposed : Type 0
SmallTransposed =
    (t : List ℤ) × (lda_transpose (3 ∷ 2 ∷ []) small_model ≡ ok (2 ∷ 3 ∷ [], t))
    × IsTransposed 3 2 small_model t

lda_transpose-IsTransposed_example : SmallTransposed
lda_transpose-IsTransposed_example = lda_transpose-IsTransposed 3 2 small_model refl

unnest-AllRows_example : AllRows 3 2 small_model
unnest-AllRows_example = unnest-AllRows 3 2 small_model refl

-- The double at the end of a state, in the first of two elements.
instance abbrev first_of_two : Bits Hundredths
first_of_two = record { join = λ l h. l; low = λ x. x; high = λ x. pos 0 }

abbrev perp_state : List ℤ
perp_state = pos 2 ∷ pos 0 ∷ pos 0 ∷ pos 1 ∷ pos 2 ∷ pos 1 ∷ pos 0 ∷ pos 0 ∷ []

abbrev SmallPerp : Type 0
SmallPerp =
    Returns
      (λ (sum : Hundredths).
        Returns
          (λ s.
            Perp (λ x. refl) perp_state s
              (sum_up
                (log_term (λ x. refl) 2 2 (pos 50) (pos 10) two_counts (pos 3) perp_state two_words
                  two_counts)
                sum 2))
          (add_words 2 2 (pos 50) (pos 10) two_counts (pos 3) two_words two_counts perp_state))
      (read_perp perp_state)

add_words-Perp_example : SmallPerp
add_words-Perp_example =
    add_words-Perp (λ x. refl) 2 2 (pos 50) (pos 10) two_counts (pos 3) two_words two_counts
      perp_state (omega arith) (omega arith) ((0, refl, omega arith), ((1, refl, omega arith), tt))
      refl

abbrev SmallMerge : Type 0
SmallMerge =
    Returns
      (λ (a : Hundredths).
        Returns
          (λ (c : Hundredths).
            Returns (λ s. Perp (λ x. refl) perp_state s (add a c))
              (lda_perplexity_prefunc Hundredths perp_state perp_state))
          (lda_perplexity_ffunc perp_state))
      (lda_perplexity_ffunc perp_state)
