-- ===== src/Lda/TopicCount/Step.antt =====
-- The loops of `lda_count_topic_sfunc::run` and `lda_count_topic_prefunc::run`.
use madlibport.Base.{ℕ, ◌+◌, ◌*◌, Option, some, List, length, get_elem?, ◌>>=◌}
use madlibport.Base.Int.{ℤ, inc, index?, ◌+ℤ◌}
use madlibport.Base.{update_cells}
use madlibport.Lda.Arrays.{modify}

-- A word of the document at a position: both rows of the model count its topic.
unfoldable pub count_word : ℕ → ℕ → List ℤ → ℤ → ℕ → List ℤ → Option (List ℤ)
count_word voc_size topic_num topic_assignment w word_index state = do
  wordid ← index? w
  assigned ← get_elem? topic_assignment word_index
  topic ← index? assigned
  s ← modify state (wordid * topic_num + topic) inc
  modify s (voc_size * topic_num + topic) inc

-- `state1[i] += state2[i]`
abbrev pub add_cell : List ℤ → List ℤ → ℕ → ℤ → Option ℤ
add_cell state2 state1 i u = get_elem? state2 i >>= λ v. some (u +ℤ v)

unfoldable pub add_states : List ℤ → List ℤ → Option (List ℤ)
add_states state1 state2 = update_cells 0 (length state1) (add_cell state2) state1
