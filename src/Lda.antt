-- ===== src/Lda.antt =====
-- modules/lda/lda.cpp: Latent Dirichlet Allocation by Gibbs sampling.
pub mod Totals
pub mod Arrays
pub mod Errors
pub mod Sample
pub mod Gibbs
pub mod Assign
pub mod TopicCount
pub mod Matrix
pub mod Perplexity
pub mod Tests
