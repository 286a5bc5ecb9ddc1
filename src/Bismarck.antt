-- ===== src/Bismarck.antt =====
-- The gradient-descent aggregates under src/: vector loops, array codec, SVM, logistic regression,
-- matrix factorization and degree counts.
pub mod Codec
pub mod Linalg
pub mod Uda
pub mod Models
pub mod Svm
pub mod Logreg
pub mod Mfact
pub mod Degree
pub mod Learners
mod Tests
