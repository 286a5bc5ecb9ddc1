-- ===== src/Stats/MannWhitney/Final.antt =====
-- mw_test_final::run, and the two U statistics of a run.
use madlibport.Base.{
  ℕ, ◌+◌, ◌*◌, ◌≡◌, refl, ap, Bool, true, false, Option, none, some, List, [], ◌∷◌, arith,
  if◌then◌else◌,
}
use madlibport.Base.Int.{ℤ, pos, sub_ℕ, lt_ℤ, ◌-ℤ◌}
use madlibport.Base.Outcome.{ok}
use madlibport.Doubles.{Double, of_int}
use madlibport.Stats.Floats.{Floating, fabs}
use madlibport.Stats.Ranks.{Ranks, num_sum}
use madlibport.Stats.Ranks.Midranks.{Groups, no_groups, close, join, Matches}
use madlibport.Stats.MannWhitney.{MwState, tied, mw_start, mw_run}
use madlibport.Stats.MannWhitney.Run.{Ascending, groups_of, mw_run-Ranked}

-- U(0) and U(1), in halves.
unfoldable pub u_statistics : Ranks → ℤ × ℤ
u_statistics r =
    let u = sub_ℕ r.sum1 (r.num1 * (r.num1 + 1)) in (u, pos (2 * (r.num0 * r.num1)) -ℤ u)

abbrev min_of_two : ℤ × ℤ → ℤ
min_of_two u = if lt_ℤ u.1 u.0 then u.1 else u.0

-- The square root, and the probability that a normal variable exceeds a value.
pub record Normal (D : Type 0) : Type 0 where
  pub sqrt : D → D
  pub upper : D → D

module _ {D : Type 0} ⦃d : Double D⦄ ⦃f : Floating D⦄ ⦃n : Normal D⦄ where
  open d use {half, of_uint, sub, mul, div}
  open n use {sqrt, upper}

  -- z, U, and the one-sided and the two-sided probability; `none` where they are NaN.
  unfoldable pub mw_final : MwState D → Option (D × D × D × D)
  mw_final s =
      let u_statistic = mul (of_int (min_of_two (u_statistics s.ranks))) half in
      let num_prod = of_uint (s.ranks.num0 * s.ranks.num1) in
      let z_statistic =
        div (sub u_statistic (mul num_prod half))
          (sqrt (div (mul num_prod (of_uint (num_sum s.ranks + 1))) (of_uint 12))) in
      if s.nan
      then none
      else some
          (z_statistic, u_statistic, upper z_statistic, mul (of_uint 2) (upper (fabs z_statistic)))

-- The closed groups have all ranks up to their number.
pub record Whole (g : Groups) : Type 0 where
  pub all_ranks : g.base0 + g.base1 ≡ (g.done0 + g.done1) * (g.done0 + g.done1 + 1)

close-Whole : (g : Groups) → Whole g → Whole (close g)
close-Whole g p = record { all_ranks = grind (arith, p.all_ranks) }

join-Whole : (s : Bool) (g : Groups) → Whole g → Whole (join s g)
join-Whole true g p = record { all_ranks = p.all_ranks }
join-Whole false g p = record { all_ranks = p.all_ranks }

either-Whole : (b : Bool) (g : Groups) → Whole g → Whole (if b then g else close g)
either-Whole true g p = p
either-Whole false g p = close-Whole g p

rank_total :
    (g : Groups) (r : Ranks) → Whole g → Matches g r → r.sum0 + r.sum1 ≡ num_sum r * (num_sum r + 1)
rank_total g r p q =
    let size : num_sum r ≡ g.done0 + g.open0 + (g.done1 + g.open1) =
      omega (arith, q.count0, q.count1) in
    let closed = (close-Whole g p).all_ranks in
    let square = ap (λ (k : ℕ). k * (k + 1)) size in omega (arith, q.ranks0, q.ranks1)

complement :
    (r : Ranks)
    → r.sum0 + r.sum1 ≡ num_sum r * (num_sum r + 1)
    → (u_statistics r).1 ≡ sub_ℕ r.sum0 (r.num0 * (r.num0 + 1))
unfolding u_statistics
complement r h =
    let parts : num_sum r * (num_sum r + 1)
        ≡ r.num0 * (r.num0 + 1) + r.num1 * (r.num1 + 1) + 2 * (r.num0 * r.num1) =
      grind arith in
    ground arith

module _ {D : Type 0} ⦃d : Double D⦄ ⦃f : Floating D⦄ where
  open f use {is_nan}

  groups_of-Whole :
      (rows : List (Bool × D)) (g : Groups) (last : D) → Whole g → Whole (groups_of g last rows)
  groups_of-Whole [] g last p = p
  groups_of-Whole (row ∷ rows) g last p =
      groups_of-Whole rows _ row.1 (join-Whole row.0 _ (either-Whole (tied last row.1) g p))

  -- After one or more rows whose values are each tied with the one before or greater, the first of
  -- them not NaN, the second U statistic, which the final function computes as the product of the two
  -- numbers of values less the first one, is the rank sum of the first sample less n(n + 1)/2, with n
  -- its number of values.
  pub mw_run-u_statistics :
      (row : Bool × D) (rows : List (Bool × D))
      → is_nan row.1 ≡ false
      → Ascending row.1 rows
      → (s' : MwState D) × (mw_run (row ∷ rows) mw_start ≡ ok s')
        × ((u_statistics s'.ranks).1 ≡ sub_ℕ s'.ranks.sum0 (s'.ranks.num0 * (s'.ranks.num0 + 1)))
  mw_run-u_statistics row rows h hs =
      let (s', e, p) = mw_run-Ranked row rows h hs in
      let whole =
        groups_of-Whole rows (join row.0 no_groups) row.1
          (join-Whole row.0 no_groups (record { all_ranks = refl })) in
      (s', e, complement s'.ranks (rank_total _ s'.ranks whole p.matches))
