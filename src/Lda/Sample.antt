-- ===== src/Lda/Sample.antt =====
-- `__lda_gibbs_sample`: a topic for one word, drawn by the counts of all the other words.
pub mod Draw
use madlibport.Base.{
  ℕ, zero, suc, ◌+◌, ◌-◌, ◌≤◌, ◌<◌, ◌≡◌, refl, Bool, true, false, Option, none, some, List, [], ◌∷◌,
  arith, length, get_elem?, ◌==◌, map, ◌>>=◌, if◌then◌else◌, Bool-cases, inl, inr, get_elem?-some,
  Returns, Returns-of,
}
use madlibport.Base.Int.{ℤ, dec}
use madlibport.Doubles.{Double, of_int}

abbrev pub Counts : Type 0
Counts = ℕ → Option ℤ

-- The count without the word itself.
abbrev pub other_count : ℕ → ℕ → ℤ → ℤ
other_count topic i n = if i == topic then dec n else n

module _ {D : Type 0} ⦃d : Double D⦄ where
  open d use {nought, add, mul, div, lt, of_uint}

  abbrev pub unnormalised : ℕ → D → D → ℤ → ℤ → ℤ → D
  unnormalised topic_num alpha beta ndz nwz nz =
      div (mul (add (of_int ndz) alpha) (add (of_int nwz) beta))
        (add (of_int nz) (mul (of_uint topic_num) beta))

  -- The running totals from topic `i` on, and the last of them.
  unfoldable pub cumulate :
      ℕ → ℕ → Counts → Counts → Counts → D → D → ℕ → ℕ → D → Option (List D × D)
  cumulate topic_num topic count_d_z count_w_z count_z alpha beta i zero total = some ([], total)
  cumulate topic_num topic count_d_z count_w_z count_z alpha beta i (suc left) total = do
    nwz ← count_w_z i
    ndz ← count_d_z i
    nz ← count_z i
    let unpr =
        unnormalised topic_num alpha beta (other_count topic i ndz) (other_count topic i nwz)
          (other_count topic i nz)
    let total' = add total unpr
    (prs, total_unpr) ←
        cumulate topic_num topic count_d_z count_w_z count_z alpha beta (i + 1) left total'
    some (total' ∷ prs, total_unpr)

  -- The `while (true)` loop, with `left` topics behind `retopic`.
  unfoldable pub draw : D → List D → ℕ → ℕ → Option ℕ
  draw r topic_prs retopic zero = some retopic
  draw r topic_prs retopic (suc left) = do
    p ← get_elem? topic_prs retopic
    elim (lt r p) [ true ↦ some retopic | false ↦ draw r topic_prs (retopic + 1) left ]

  -- `r` is the value of `drand48()`.
  unfoldable pub gibbs_topic : ℕ → ℕ → Counts → Counts → Counts → D → D → D → Option ℕ
  gibbs_topic topic_num topic count_d_z count_w_z count_z alpha beta r = do
    (prs, total_unpr) ←
        cumulate topic_num topic count_d_z count_w_z count_z alpha beta 0 topic_num nought
    draw r (map (λ p. div p total_unpr) prs) 0 (topic_num - 1)
