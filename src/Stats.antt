-- ===== src/Stats.antt =====
-- modules/stats: the tests of hypotheses.
pub mod Floats
pub mod Ranks
pub mod MannWhitney
pub mod Wilcoxon
pub mod Distributions
pub mod Samples
pub mod TTest
pub mod ChiSquared
pub mod Kolmogorov
pub mod Anova
pub mod Tests
pub mod GroupTests
