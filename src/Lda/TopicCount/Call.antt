-- ===== src/Lda/TopicCount/Call.antt =====
-- What a call of the transition function, and of the function that merges two states, ends with.
use madlibport.Base.{
  ℕ, ◌+◌, ◌*◌, ◌^◌, ◌≤◌, ◌<◌, ◌≡◌, refl, sym, ◌∙◌, ap, false, not, ◌||◌, Option, none, some, List,
  arith, length, All, ◌==◌, ==→eq, length-replicate,
}
use madlibport.Base.Int.{ℤ, pos, negsuc, pos_part, to_size, lt_ℤ, le_ℤ}
use madlibport.Base.Outcome.{
  ReturnsOrThrows, reject_rule, reject_rule_last, unless_fault_rule, bind_rule,
}
use madlibport.Lda.Arrays.{min_of, max_of, sum_of, model_cells}
use madlibport.Lda.Arrays.Checks.{min_of-some, max_of-some, span, sum_of-span, model_cells_lem}
use madlibport.Lda.Gibbs.{check_words}
use madlibport.Lda.Gibbs.Checked.{not-false, All-checked, GoodWords, check_words-GoodWords}
use madlibport.Lda.Gibbs.Pass.{IsWord}
use madlibport.Lda.TopicCount.{check_topics, start_state, count_topics}
use madlibport.Lda.TopicCount.Step.{count_word}
use madlibport.Lda.TopicCount.Flat.{expand, scan-over, length-expand, All-expand}
use madlibport.Lda.TopicCount.Counts.{Counted, count_words-Counted}

pub record GoodTopics (topic_num : ℕ) (topics : List ℤ) (words : ℕ) : Type 0 where
  pub are_topics : All (IsWord topic_num) topics
  pub sized : words ≡ length topics

check_topics-GoodTopics :
    (topics counts : List ℤ) (topic_num words : ℕ)
    → 0 < length topics
    → sum_of counts ≡ pos words
    → ReturnsOrThrows
        (λ _. GoodTopics topic_num topics words)
        (check_topics topics counts (pos topic_num))
unfolding check_topics
check_topics-GoodTopics topics counts topic_num words some_topic total =
    let P = λ (u : Unit {0}). GoodTopics topic_num topics words in
    unless_fault_rule P (min_of topics) _ (min_of-some topics some_topic) (λ lowest el.
      unless_fault_rule P (max_of topics) _ (max_of-some topics some_topic) (λ highest eh.
        reject_rule P (lt_ℤ lowest (pos 0) || le_ℤ (pos topic_num) highest) _ _ (λ inside.
          reject_rule_last P (not (to_size (sum_of counts) == length topics)) _ (λ same. record {
            are_topics = All-checked topic_num topics lowest highest el eh inside;
            sized = sym (ap to_size total) ∙ ==→eq (to_size (sum_of counts)) _ (not-false _ same);
          }))))

-- A state of an earlier call has the cells of a model.
abbrev pub FitsModel : ℤ → ℤ → Option (List ℤ) → Type 0
FitsModel voc_size topic_num none = Unit
FitsModel voc_size topic_num (some state) =
    (pos_part voc_size + 1) * pos_part topic_num ≤ length state

-- Where the cells of a model are below 2^31, they are what a first call allocates.
start_state_fits :
    (v t : ℕ) (state : Option (List ℤ))
    → 0 < t
    → (v + 1) * t < 2 ^ 31
    → FitsModel (pos v) (pos t) state
    → (v + 1) * t ≤ length (start_state state (pos v) (pos t))
start_state_fits v t none some_topic cells h = omega (
  arith,
  length-replicate (model_cells (pos v) (pos t)) (pos 0),
  model_cells_lem v t some_topic cells,
)
start_state_fits v t (some state) some_topic cells h = h

-- On a document with a word and an assignment, and on a state that is null or has the cells of a
-- model, where the sum of the counts and (voc_size + 1) * topic_num are below 2^31, the transition of
-- the aggregate that counts topics does not access memory outside its arrays: it throws, or it adds to the cell of each word and topic the number of positions of the
-- document with that word and topic, and to the total of each topic the number of its positions.
pub count_topics-Counted :
    (state : Option (List ℤ)) (words counts topics : List ℤ) (voc_size topic_num : ℤ)
    → 0 < length words
    → 0 < length topics
    → FitsModel voc_size topic_num state
    → span counts < 2 ^ 31
    → (pos_part voc_size + 1) * pos_part topic_num < 2 ^ 31
    → ReturnsOrThrows
        (Counted
          (pos_part voc_size)
          (pos_part topic_num)
          (expand words counts)
          topics
          (start_state state voc_size topic_num))
        (count_topics state words counts topics voc_size topic_num)
unfolding count_topics
count_topics-Counted state words counts topics voc_size topic_num some_word some_topic room few
      cells =
    let P =
      Counted (pos_part voc_size) (pos_part topic_num) (expand words counts) topics
        (start_state state voc_size topic_num) in
    reject_rule P (le_ℤ voc_size (pos 0)) _ _ (λ hv.
      reject_rule P (le_ℤ topic_num (pos 0)) _ _ (λ ht.
        bind_rule P (λ _. GoodWords (pos_part voc_size) words counts)
          (check_words words counts voc_size) _ (words_rule voc_size hv)
          (λ _ w.
            let total = sum_of-span counts w.occur few in
            bind_rule P (λ _. GoodTopics (pos_part topic_num) topics (span counts))
              (check_topics topics counts topic_num) _ (topics_rule topic_num ht total)
              (λ _ g.
                let (s', e, c) =
                  count_words-Counted (pos_part voc_size) (pos_part topic_num) topics
                    (expand words counts) topics 0 (start_state state voc_size topic_num) refl
                    (length-expand words counts w.same_length ∙ g.sized)
                    (All-expand (IsWord (pos_part voc_size)) words counts w.are_words) g.are_topics
                    (state_rule voc_size topic_num hv ht room cells) in
                let run =
                  scan-over (count_word (pos_part voc_size) (pos_part topic_num) topics) words
                    counts 0 (start_state state voc_size topic_num)
                  ∙ e in
                rw run c))))
  where
    words_rule :
        (v : ℤ)
        → le_ℤ v (pos 0) ≡ false
        → ReturnsOrThrows (λ _. GoodWords (pos_part v) words counts) (check_words words counts v)
    words_rule (pos v) h = check_words-GoodWords words counts v some_word
    words_rule (negsuc v) h = absurd (ground arith)

    topics_rule :
        (t : ℤ)
        → le_ℤ t (pos 0) ≡ false
        → sum_of counts ≡ pos (span counts)
        → ReturnsOrThrows
            (λ _. GoodTopics (pos_part t) topics (span counts))
            (check_topics topics counts t)
    topics_rule (pos t) h e = check_topics-GoodTopics topics counts t (span counts) some_topic e
    topics_rule (negsuc t) h e = absurd (ground arith)

    state_rule :
        (v t : ℤ)
        → le_ℤ v (pos 0) ≡ false
        → le_ℤ t (pos 0) ≡ false
        → FitsModel v t state
        → (pos_part v + 1) * pos_part t < 2 ^ 31
        → (pos_part v + 1) * pos_part t ≤ length (start_state state v t)
    state_rule (pos v) (pos t) hv ht h c = start_state_fits v t state (ground arith) c h
    state_rule (pos v) (negsuc t) hv ht h c = absurd (ground arith)
    state_rule (negsuc v) t hv ht h c = absurd (ground arith)
