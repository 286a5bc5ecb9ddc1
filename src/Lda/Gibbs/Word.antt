-- ===== src/Lda/Gibbs/Word.antt =====
-- The loops of `lda_gibbs_sample::run`, and their body for one occurrence of a word.
use madlibport.Base.{
  ℕ, zero, suc, ◌+◌, ◌*◌, Bool, Option, some, List, get_elem?, set?, if◌then◌else◌, ◌>>=◌,
}
use madlibport.Base.Int.{ℤ, pos, inc, dec, index?}
use madlibport.Doubles.{Double}
use madlibport.Lda.Arrays.{modify, scan}
use madlibport.Lda.Sample.{gibbs_topic}

-- `doc_topic` is changed in place, `state` lives in the user context between calls, and `drawn` is
-- how often `drand48()` was called.
pub record GibbsState : Type 0 where
  pub doc_topic : List ℤ
  pub state : List ℤ
  pub drawn : ℕ

-- The four writes to the model, while training.
unfoldable pub move_in_model : ℕ → ℕ → ℕ → ℕ → ℕ → List ℤ → Option (List ℤ)
move_in_model voc_size topic_num wordid topic retopic state = do
  s₁ ← modify state (voc_size * topic_num + topic) dec
  s₂ ← modify s₁ (voc_size * topic_num + retopic) inc
  s₃ ← modify s₂ (wordid * topic_num + topic) dec
  modify s₃ (wordid * topic_num + retopic) inc

-- The three writes to the document.
unfoldable pub move_in_doc : ℕ → ℕ → ℕ → List ℤ → Option (List ℤ)
move_in_doc word_index topic retopic doc_topic = do
  d₁ ← set? doc_topic word_index (pos retopic)
  d₂ ← modify d₁ topic dec
  modify d₂ retopic inc

module _ {D : Type 0} ⦃d : Double D⦄ where
  unfoldable pub gibbs_word :
      ℕ → ℕ → Bool → D → D → (ℕ → D) → ℤ → ℕ → GibbsState → Option GibbsState
  gibbs_word voc_size topic_num train alpha beta drand w word_index s = do
    wordid ← index? w
    assigned ← get_elem? s.doc_topic word_index
    topic ← index? assigned
    retopic ←
        gibbs_topic topic_num topic (get_elem? s.doc_topic)
          (λ i. get_elem? s.state (wordid * topic_num + i))
          (λ i. get_elem? s.state (voc_size * topic_num + i)) alpha beta (drand s.drawn)
    doc ← move_in_doc word_index topic retopic s.doc_topic
    state ←
        (if train
          then move_in_model voc_size topic_num wordid topic retopic s.state
          else some s.state)
    some (record { doc_topic = doc; state = state; drawn = s.drawn + 1 })

  -- The loops over the iterations, the words and their occurrences.
  unfoldable pub gibbs_loop :
      ℕ → ℕ → Bool → D → D → (ℕ → D) → List ℤ → List ℤ → ℕ → GibbsState → Option GibbsState
  gibbs_loop voc_size topic_num train alpha beta drand words counts zero s = some s
  gibbs_loop voc_size topic_num train alpha beta drand words counts (suc it) s =
      scan (gibbs_word voc_size topic_num train alpha beta drand) words counts topic_num s
      >>= gibbs_loop voc_size topic_num train alpha beta drand words counts it
