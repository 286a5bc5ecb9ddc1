-- ===== src/Stats/Distributions.antt =====
-- What the tests ask of <cmath> and of Boost: the functions of a parameter with its name, and the
-- probabilities that a random variable exceeds a value.
pub record Distributions (D : Type 0) : Type 0 where
  pub sqrt : D → D
  pub pow : D → D → D
  -- The literals 0.12 and 0.11.
  pub twelve_hundredths : D
  pub eleven_hundredths : D
  pub normal : D → D
  pub students_t : D → D → D
  pub fisher_f : D → D → D → D
  pub chi_squared : D → D → D
  pub kolmogorov : D → D
