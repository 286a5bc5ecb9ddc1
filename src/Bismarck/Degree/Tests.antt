-- ===== src/Bismarck/Degree/Tests.antt =====
-- Runs of the degree counts, and their theorems at concrete inputs.
use madlibport.Base.{ℕ, ◌+◌, ◌%◌, ◌^◌, ◌≡◌, refl, some, List, [], ◌∷◌, arith, Returns}
use madlibport.Bismarck.Degree.{deg_run, deg_update, deg_realloc}
use madlibport.Bismarck.Degree.Counts.{degree, count, deg_run_lem, AreWords}

abbrev counts : List ℕ
counts = 5 ∷ 0 ∷ 2 ∷ []

counts-AreWords : AreWords counts
counts-AreWords i = ground arith

deg_run_run : deg_run (1 ∷ 4 ∷ 1 ∷ []) counts ≡ some (5 ∷ 2 ∷ 2 ∷ 0 ∷ 1 ∷ [])
unfolding deg_run deg_update deg_realloc
deg_run_run = refl

deg_run_lem_example :
    Returns
      (λ m'. (i : ℕ) → degree m' i ≡ (degree counts i + count i (1 ∷ 4 ∷ 1 ∷ [])) % 2 ^ 64)
      (deg_run (1 ∷ 4 ∷ 1 ∷ []) counts)
deg_run_lem_example =
    deg_run_lem (1 ∷ 4 ∷ 1 ∷ []) counts (omega arith) counts-AreWords
      (omega arith, (omega arith, (omega arith, tt)))
