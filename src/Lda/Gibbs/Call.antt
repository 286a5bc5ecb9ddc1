-- ===== src/Lda/Gibbs/Call.antt =====
-- What a call of `lda_gibbs_sample::run` ends with.
use madlibport.Base.{
  ℕ, ◌+◌, ◌*◌, ◌≤◌, ◌<◌, ◌^◌, ◌∙◌, ◌≡◌, refl, false, not, Option, none, some, List, arith, length,
  get_elem?, drop, ◌==◌, ==→eq,
}
use madlibport.Base.Int.{ℤ, pos, negsuc, pos_part, lt_ℤ, le_ℤ, plus}
use madlibport.Base.Outcome.{ReturnsOrThrows, reject_rule, unless_fault_rule, bind_rule}
use madlibport.Doubles.{Double}
use madlibport.Lda.Arrays.{min_of, sum_of, model_cells}
use madlibport.Lda.Arrays.Checks.{min_of-some, span, sum_of-span, span-pos, model_cells_lem}
use madlibport.Lda.Gibbs.{context_of, check_words, check_doc_topic, resample, lda_gibbs_sample}
use madlibport.Lda.Gibbs.Word.{GibbsState}
use madlibport.Lda.Gibbs.Counting.{IsDoc, count_topic}
use madlibport.Lda.Gibbs.Pass.{Sampled, gibbs_loop-Sampled}
use madlibport.Lda.Gibbs.Checked.{
  not-false, GoodWords, check_words-GoodWords, GoodDoc, check_doc_topic-GoodDoc,
}

-- A state that an earlier call left behind has a row for each word, and one for the totals.
abbrev pub HasRoom : ℤ → ℤ → Option (List ℤ) → Type 0
HasRoom voc_size topic_num none = Unit
HasRoom voc_size topic_num (some state) =
    (pos_part voc_size + 1) * pos_part topic_num ≤ length state

-- `excess` is what the counts of the document are off by.
abbrev pub ExcessOf : ℤ → (ℕ → ℤ) → List ℤ → Type 0
ExcessOf topic_num excess doc =
    (z : ℕ)
    → z < pos_part topic_num
    → get_elem? doc z ≡ some (plus (excess z) (count_topic z (drop (pos_part topic_num) doc)))

row-pos : (v t : ℕ) → 0 < t → 0 < (v + 1) * t
row-pos v t h = grind arith

context_of-HasRoom :
    (context model : Option (List ℤ)) (v t : ℕ)
    → HasRoom (pos v) (pos t) context
    → (v + 1) * t < 2 ^ 31
    → 0 < t
    → ReturnsOrThrows
        (λ state. (v + 1) * t ≤ length state)
        (context_of context model (pos v) (pos t))
unfolding context_of
context_of-HasRoom (some state) model v t h few p = h
context_of-HasRoom none none v t h few p = tt
context_of-HasRoom none (some model) v t h few p =
    let P = λ (state : List ℤ). (v + 1) * t ≤ length state in
    reject_rule P (not (length model == model_cells (pos v) (pos t))) _ _ (λ sized.
      let same : length model ≡ (v + 1) * t =
        ==→eq (length model) _ (not-false _ sized) ∙ model_cells_lem v t p few in
      unless_fault_rule P (min_of model) _ (min_of-some model (omega (arith, row-pos v t p)))
        (λ least _. reject_rule P (lt_ℤ least (pos 0)) _ _ (λ _. omega arith)))

-- What `lda_gibbs_sample` returns: the document has its length, the model too, and the topic
-- counts of the document are off from its assignments by what they were before.
pub record Resampled (topic_num : ℤ) (excess : ℕ → ℤ) (doc : List ℤ) (s : GibbsState) : Type 0 where
  pub consistent : IsDoc (pos_part topic_num) excess s.doc_topic
  pub same_length : length s.doc_topic ≡ length doc

module _ {D : Type 0} ⦃d : Double D⦄ where
  open d use {nought, le}

  resample-Resampled :
      (words counts doc_topic : List ℤ) (model : Option (List ℤ)) (alpha beta : D)
      (voc_size topic_num iter_num : ℤ) (context : Option (List ℤ)) (drand : ℕ → D) (drawn : ℕ)
      (excess : ℕ → ℤ)
      → le_ℤ voc_size (pos 0) ≡ false
      → le_ℤ topic_num (pos 0) ≡ false
      → 0 < length words
      → HasRoom voc_size topic_num context
      → ExcessOf topic_num excess doc_topic
      → span counts + pos_part topic_num < 2 ^ 31
      → (pos_part voc_size + 1) * pos_part topic_num < 2 ^ 31
      → ReturnsOrThrows (Resampled topic_num excess doc_topic) (
          resample words counts doc_topic model alpha beta voc_size topic_num iter_num context drand
            drawn)
  unfolding resample
  resample-Resampled words counts doc_topic model alpha beta (negsuc v) topic_num iter_num context
        drand drawn excess hv ht some_word room off few cells =
      absurd (ground arith)
  resample-Resampled words counts doc_topic model alpha beta (pos v) (negsuc t) iter_num context
        drand drawn excess hv ht some_word room off few cells =
      absurd (ground arith)
  resample-Resampled words counts doc_topic model alpha beta (pos v) (pos t) iter_num context drand
        drawn excess hv ht some_word room off few cells =
      let P = Resampled (pos t) excess doc_topic in
      let some_topic : 0 < t = ground arith in
      bind_rule P (λ _. GoodWords v words counts) (check_words words counts (pos v)) _
        (check_words-GoodWords words counts v some_word)
        (λ _ w.
          let total = sum_of-span counts w.occur (omega arith) in
          let occurs = span-pos counts (omega (arith, w.same_length)) w.occur in
          bind_rule P (λ _. GoodDoc t (span counts) doc_topic)
            (check_doc_topic doc_topic (sum_of counts) (pos t)) _
            (rw total (check_doc_topic-GoodDoc doc_topic (span counts) t occurs some_topic few))
            (λ _ c.
              bind_rule P (λ state. (v + 1) * t ≤ length state)
                (context_of context model (pos v) (pos t)) _
                (context_of-HasRoom context model v t room cells some_topic)
                (λ state fits.
                  let start : Sampled v t (length doc_topic) (length state) excess
                      (record { doc_topic = doc_topic; state = state; drawn = drawn }) =
                    record {
                      consistent = record {
                        has_counts = omega (arith, c.sized);
                        assigned = c.topics;
                        counted = off;
                      };
                      same_length = refl;
                      same_places = refl;
                    } in
                  let (s', e, p) =
                    gibbs_loop-Sampled v t (length doc_topic) (length state) excess fits
                      (pos_part iter_num == 1) alpha beta drand words counts (pos_part iter_num) _
                      w.are_words (omega (arith, c.sized)) start in
                  rw e (record { consistent = p.consistent; same_length = p.same_length }))))

  -- Given a document with a word and, where an earlier call left a state, one of the model's size, and
  -- where the sum of the counts plus `topic_num`, and (voc_size + 1) * topic_num, are below 2^31, a
  -- call of `lda_gibbs_sample` never accesses memory outside its arrays: it throws, or it returns a
  -- document of the same length with an assignment to one of the topics for each word, where each topic
  -- count is off from the number of assignments by exactly what it was off before.
  pub lda_gibbs_sample-Resampled :
      (words counts doc_topic : List ℤ) (model : Option (List ℤ)) (alpha beta : D)
      (voc_size topic_num iter_num : ℤ) (context : Option (List ℤ)) (drand : ℕ → D) (drawn : ℕ)
      (excess : ℕ → ℤ)
      → 0 < length words
      → HasRoom voc_size topic_num context
      → ExcessOf topic_num excess doc_topic
      → span counts + pos_part topic_num < 2 ^ 31
      → (pos_part voc_size + 1) * pos_part topic_num < 2 ^ 31
      → ReturnsOrThrows (Resampled topic_num excess doc_topic) (
          lda_gibbs_sample words counts doc_topic model alpha beta voc_size topic_num iter_num
            context drand drawn)
  unfolding lda_gibbs_sample
  lda_gibbs_sample-Resampled words counts doc_topic model alpha beta voc_size topic_num iter_num
        context drand drawn excess some_word room off few cells =
      let P = Resampled topic_num excess doc_topic in
      reject_rule P (le alpha nought) _ _ (λ _. reject_rule P (le beta nought) _ _ (λ _.
        reject_rule P (le_ℤ voc_size (pos 0)) _ _ (λ hv.
          reject_rule P (le_ℤ topic_num (pos 0)) _ _ (λ ht.
            reject_rule P (le_ℤ iter_num (pos 0)) _ _ (λ _.
              resample-Resampled words counts doc_topic model alpha beta voc_size topic_num iter_num
                context drand drawn excess hv ht some_word room off few cells)))))
