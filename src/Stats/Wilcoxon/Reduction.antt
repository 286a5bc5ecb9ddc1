-- ===== src/Stats/Wilcoxon/Reduction.antt =====
-- The signed-rank transition by groups of ties.
use madlibport.Base.{
  ℕ, zero, suc, ◌+◌, ◌-◌, ◌*◌, ◌≤◌, ◌≡◌, refl, ap, Bool, true, false, ◌&&◌, Option, arith, ltb,
  if◌then◌else◌, Bool-cases, inl, inr,
}
use madlibport.Base.Outcome.{ok}
use madlibport.Doubles.{Double}
use madlibport.Stats.Floats.{Floating, fabs}
use madlibport.Stats.Ranks.{Ranks, num_sum, add_ties, clear_ties, count_value}
use madlibport.Stats.Ranks.Midranks.{Groups, close, join, Matches, tie_value, new_value}
use madlibport.Stats.Wilcoxon.{
  WsrState, given_precision, used_precision, tie_sum, wsr_compare, wsr_count, wsr_transition,
}

-- t^3 - t
abbrev pub tie_term : ℕ → ℕ
tie_term t = t * t * t - t

cube_bound : (t : ℕ) → t ≤ t * t * t
cube_bound zero = omega arith
cube_bound (suc t) = grind arith

tie_term-suc : (t : ℕ) → tie_term (t + 1) ≡ tie_term t + 3 * (t * (t + 1))
tie_term-suc t =
    let low = cube_bound t in
    let low' = cube_bound (t + 1) in
    let expand : (t + 1) * (t + 1) * (t + 1) ≡ t * t * t + 3 * (t * (t + 1)) + 1 = grind arith in
    omega arith

-- The groups, and the sum of t^3 - t over the sizes t of the closed ones.
pub record Tied : Type 0 where
  pub groups : Groups
  pub cubes : ℕ

abbrev pub open_size : Groups → ℕ
open_size g = g.open0 + g.open1

abbrev pub close_tied : Tied → Tied
close_tied w = record { groups = close w.groups; cubes = w.cubes + tie_term (open_size w.groups) }

abbrev pub join_tied : Bool → Tied → Tied
join_tied s w = record { groups = join s w.groups; cubes = w.cubes }

-- The ranks are those of the groups, and the variance is reduced by (t^3 - t)/48 for each group.
pub record Reduces {D : Type 0} (w : Tied) (s : WsrState D) : Type 0 where
  pub matches : Matches w.groups s.ranks
  pub reduced : 3 * s.variance ≡ w.cubes + tie_term (open_size w.groups)

first_value :
    (s : Bool) (g : Groups) (r : Ranks)
    → Matches g r
    → num_sum r ≡ 0
    → Matches (join s g) (count_value s r)
unfolding count_value
first_value true g r p h =
    let empty0 : g.open0 ≡ 0 = omega (arith, p.count0) in
    let empty1 : g.open1 ≡ 0 = omega (arith, p.count1) in
    record {
      count0 = omega (arith, p.count0);
      count1 = p.count1;
      tied0 = omega (arith, p.tied0);
      tied1 = p.tied1;
      ranks0 = grind (arith, p.count0, p.count1, p.tied0, p.tied1, p.ranks0, empty0, empty1);
      ranks1 = grind (arith, p.ranks1, empty1);
    }
first_value false g r p h =
    let empty0 : g.open0 ≡ 0 = omega (arith, p.count0) in
    let empty1 : g.open1 ≡ 0 = omega (arith, p.count1) in
    record {
      count0 = p.count0;
      count1 = omega (arith, p.count1);
      tied0 = p.tied0;
      tied1 = omega (arith, p.tied1);
      ranks0 = grind (arith, p.ranks0, empty0);
      ranks1 = grind (arith, p.count0, p.count1, p.tied0, p.tied1, p.ranks1, empty0, empty1);
    }

open_size-join : (s : Bool) (g : Groups) → open_size (join s g) ≡ open_size g + 1
open_size-join true g = omega arith
open_size-join false g = omega arith

tie_term-join :
    (s : Bool) (g : Groups) → tie_term (open_size (join s g)) ≡ tie_term (open_size g + 1)
tie_term-join s g = ap tie_term (open_size-join s g)

-- How the reduction of the variance grows.
tie_reduced :
    (s : Bool) (g : Groups) (r : Ranks) (cubes variance : ℕ)
    → Matches g r
    → 3 * variance ≡ cubes + tie_term (open_size g)
    → 3 * (variance + tie_sum r * (tie_sum r + 1)) ≡ cubes + tie_term (open_size (join s g))
tie_reduced s g r cubes variance p h =
    let size : tie_sum r ≡ open_size g = omega (arith, p.tied0, p.tied1) in
    let grown = ap (λ (t : ℕ). t * (t + 1)) size in
    omega (arith, tie_term-join s g, tie_term-suc (open_size g))

first_reduced :
    (s : Bool) (g : Groups) (cubes variance : ℕ)
    → open_size g ≡ 0
    → 3 * variance ≡ cubes + tie_term (open_size g)
    → 3 * variance ≡ cubes + tie_term (open_size (join s g))
first_reduced s g cubes variance e h =
    let none_open : open_size g * (open_size g + 1) ≡ 0 = ap (λ (t : ℕ). t * (t + 1)) e in
    omega (arith, tie_term-join s g, tie_term-suc (open_size g))

new_reduced : (s : Bool) (g : Groups) → tie_term (open_size (join s (close g))) ≡ 0
new_reduced true g = refl
new_reduced false g = refl

module _ {D : Type 0} ⦃d : Double D⦄ ⦃f : Floating D⦄ where
  open d use {nought, add, sub, lt, le}
  open f use {is_finite}

  -- The groups behind a value: zero is in none; a value within its precision of the greatest bound so
  -- far joins the open group, another closes it.
  abbrev pub next_tied : WsrState D → D → Option D → Tied → Tied
  next_tied s value precision w =
      if le value nought && le nought value
      then w
      else if ltb 0 (num_sum s.ranks)
      then (if le (sub (fabs value) (used_precision precision value)) s.last_abs_upper_bound
          then join_tied (lt nought value) w
          else join_tied (lt nought value) (close_tied w))
      else join_tied (lt nought value) w

  -- The state behind a value.
  abbrev counted : WsrState D → D → D → Ranks → ℕ → WsrState D
  counted s value precision ranks variance = record {
    ranks = count_value (lt nought value) ranks;
    last_abs = fabs value;
    last_abs_upper_bound =
        if lt s.last_abs_upper_bound (add (fabs value) precision)
        then add (fabs value) precision
        else s.last_abs_upper_bound;
    variance = variance;
  }

  -- A value whose absolute value is not less than the last one, with a finite precision, is counted
  -- without an error: counts and rank sums stay those of the groups of ties, where each value has the
  -- middle of the ranks of its group, and the reduction of the variance stays the sum of (t^3 - t)/48
  -- over the sizes t of the groups.
  pub wsr_transition-Reduces :
      (w : Tied) (s : WsrState D) (value : D) (precision : Option D)
      → Reduces w s
      → is_finite (given_precision precision) ≡ true
      → lt (fabs value) s.last_abs ≡ false
      → (s' : WsrState D) × (wsr_transition s value precision ≡ ok s')
        × Reduces (next_tied s value precision w) s'
  unfolding wsr_transition wsr_count wsr_compare
  wsr_transition-Reduces w s value precision p finite ordered =
      elim (Bool-cases (le value nought && le nought value)) [
        | inl zero_value ↦ (s, rw (finite, zero_value), rw zero_value p)
        | inr other ↦ elim (Bool-cases (ltb 0 (num_sum s.ranks))) [
          | inr none_before ↦
              let empty : num_sum s.ranks ≡ 0 = ground arith in
              let closed : open_size w.groups ≡ 0 =
                omega (arith, p.matches.count0, p.matches.count1) in
              let next = counted s value (used_precision precision value) s.ranks s.variance in
              (
                next,
                rw (finite, other, none_before),
                rw (other, none_before)
                    (record {
                      matches = first_value (lt nought value) w.groups s.ranks p.matches empty;
                      reduced =
                          first_reduced (lt nought value) w.groups w.cubes s.variance closed
                            p.reduced;
                    }),
              )
          | inl before ↦
              elim (Bool-cases
                (le (sub (fabs value) (used_precision precision value)) s.last_abs_upper_bound)) [
                  | inl tied ↦
                      let next =
                        counted s value (used_precision precision value) (add_ties s.ranks)
                          (s.variance + tie_sum s.ranks * (tie_sum s.ranks + 1)) in
                      (
                        next,
                        rw (finite, other, before, ordered, tied),
                        rw (other, before, tied)
                            (record {
                              matches = tie_value (lt nought value) w.groups s.ranks p.matches;
                              reduced =
                                  tie_reduced (lt nought value) w.groups s.ranks w.cubes s.variance
                                    p.matches p.reduced;
                            }),
                      )
                  | inr apart ↦
                      let next =
                        counted s value (used_precision precision value) (clear_ties s.ranks)
                          s.variance in
                      (
                        next,
                        rw (finite, other, before, ordered, apart),
                        rw (other, before, apart)
                            (record {
                              matches = new_value (lt nought value) w.groups s.ranks p.matches;
                              reduced =
                                  omega (arith, p.reduced, new_reduced (lt nought value) w.groups);
                            }),
                      )
                ]
        ]
      ]
