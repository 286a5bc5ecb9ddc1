-- ===== src/Lib.antt =====
-- A model of the core of the in-database analytics library.
--
-- The repository has two layers. The files under src/ are aggregates for Impala: a learner is a
-- function that changes a model in place by one row, and an aggregate calls it for each row, merges
-- the models of several nodes and returns the bytes. Below madlib/src/ is a port of MADlib: dbal
-- gives typed access to the byte strings that the database passes, and each module implements the
-- functions of one method.
--
-- Base: helpers. Lists are arrays with checked reads and writes (`none` is an access out of bounds),
-- `for_loop` is the counted loop, `update_cells` a loop that rewrites the cells of a block, and
-- `Outcome` the result of code that may throw. Int has the integers. Doubles: arithmetic on doubles is
-- a parameter, a record of operations; the theorems hold for every such record, or name the law that
-- they need. Its instance in hundredths is for examples.
--
-- Bismarck (src/): Codec is bismarckarray.cc, arrays of doubles as byte strings and their encoding
-- in letters. Linalg is linalg-inl.h. Models and Uda are the entry points of svm.cc and logreg.cc,
-- with Svm and Logreg for the learners of svm-inl.h and logreg-inl.h, and Learners for the aggregates
-- with each of the two. Mfact is mfact-inl.h, matrix
-- factorization with a model of two matrices in one block. Degree is degree.h, counts by index in
-- an array that grows.
--
-- Lda (madlib/src/modules/lda/lda.cpp): Arrays has the helpers on arrays, Sample draws a topic for
-- a word, Gibbs is lda_gibbs_sample, Assign is lda_random_assign, TopicCount the aggregate that
-- counts topics, Totals the sums that Sample and Perplexity are compared with, Matrix the functions lda_transpose and lda_unnest, Perplexity the aggregate of that
-- name.
--
-- Dbal (madlib/src/dbal): HandleBuf is ByteStreamHandleBuf_impl.hpp, ByteStream is
-- ByteStream_impl.hpp and DynamicStruct is DynamicStruct_impl.hpp; a struct reads its members from
-- a stream, which reads from a buffer.
--
-- AssocRules (madlib/src/modules/assoc_rules/assoc_rules.cpp): the rules of a frequent pattern.
--
-- Stats (madlib/src/modules/stats): Ranks has what the transitions of the two rank tests share, and
-- the groups of ties that they are compared with; MannWhitney is mann_whitney_test.cpp and Wilcoxon is
-- wilcoxon_signed_rank_test.cpp. Samples has the corrected sum of squares that t_test.cpp and
-- one_way_anova.cpp update; TTest, ChiSquared (chi_squared_test.cpp), Kolmogorov
-- (kolmogorov_smirnov_test.cpp) and Anova (one_way_anova.cpp) are the tests. Distributions is what
-- they ask of Boost.
--
-- Linalg (madlib/src/modules/linalg): MatrixOp is matrix_op.cpp, functions on matrices in row-major
-- order; MatrixAgg is matrix_agg.cpp, an aggregate whose storage grows; Closest is metric.cpp, the
-- columns that are closest to a vector.
--
-- Convex (madlib/src/modules/convex): Lmf is lmf_igd.cpp, matrix factorization in iterations over the
-- tuples, with the classes of type, task and algo that it is made of; Factors has the two factors as
-- functions, which the iterations are compared with. Scales is utils_regularization.cpp, means and
-- deviations of columns; Layouts has the arrays behind the states.
--
-- Utils (madlib/src/utils/Math.hpp): PowerOfTwo is nextPowerOfTwo, by which the storage of MatrixAgg
-- and of Anova grows.
--
-- Numbers. A size_t and the positions in a stream are natural numbers with their wrap-around at 2^64
-- written out where the code can reach it. In lda.cpp the sums and products that a check compares with
-- the size of an array wrap around in 32 bits; the single counts, which go up and down by one, and the
-- numbers in lda_random_assign are integers without a bound. In assoc_rules.cpp the number of calls is
-- undefined from 31 items on, where `1 << num_elems` does not fit an int32_t. Sizes of storage that
-- one_way_anova.cpp, lmf_igd.cpp and degree.h compute are taken to fault where they are cut, since the
-- arrays then reach beyond their storage.
-- Counts and ranks that the rank tests keep in doubles are natural numbers, rank sums in halves and the
-- reduction of the variance in sixteenths, which a double holds exactly below 2^48.
-- The random numbers of drand48 and random are sequences that are passed in, with the number of calls
-- in the state.
--
-- Sizes of samples and the numbers in a storage are natural numbers too, exact in doubles below 2^53.
--
-- Loops are structural recursion on their counters or on lists. The functions with fuel are
-- `unnest_rows`, `all_rules`, `split_rows` and `block_rows`, which repeat the calls that the database
-- makes until there is no row any more; their fuel is one more than the number of rows, for the call
-- that ends. `set_lower` has the number of digits as fuel, which its counter reaches by doubling.
--
-- Not modelled: the connectors to the database, memory contexts and type information; the numerical
-- methods that consist of matrix formulas; wrappers of Boost. A struct of the byte streams is one
-- that reads its members one by one, with sizes that do not depend on what is read.
pub mod Base
pub mod Doubles
pub mod Bismarck
pub mod Lda
pub mod Dbal
pub mod AssocRules
pub mod Stats
pub mod Linalg
pub mod Utils
pub mod Convex
