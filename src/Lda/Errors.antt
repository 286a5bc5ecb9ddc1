-- ===== src/Lda/Errors.antt =====
-- The exceptions of lda.cpp, by what they complain of.
pub data LdaError : Type 0 where
  bad_alpha bad_beta bad_voc_size bad_topic_num bad_iter_num : LdaError
  size_mismatch bad_words bad_counts : LdaError
  bad_doc_topic_size bad_topic_count bad_topic_assignment : LdaError
  null_model bad_model_size bad_model_counts : LdaError
  null_parameter bad_topics bad_assignment_size bad_dimension bad_word_count : LdaError
