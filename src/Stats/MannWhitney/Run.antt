-- ===== src/Stats/MannWhitney/Run.antt =====
-- The transitions of a group of rows in ascending order, and its groups of ties.
use madlibport.Base.{
  ◌≡◌, refl, sym, ◌∙◌, subst, ◌⊎◌, inl, inr, Bool, true, false, List, [], ◌∷◌, if◌then◌else◌,
  Bool-cases,
}
use madlibport.Base.Outcome.{ok}
use madlibport.Doubles.{Double}
use madlibport.Stats.Floats.{Floating}
use madlibport.Stats.Ranks.{Ranks, no_ranks, add_ties, clear_ties, count_value}
use madlibport.Stats.Ranks.Midranks.{Groups, no_groups, close, join, Matches, tie_value, new_value}
use madlibport.Stats.MannWhitney.{MwState, tied, mw_start, mw_compare, mw_transition, mw_run}

start_value : (s : Bool) → Matches (join s no_groups) (count_value s no_ranks)
unfolding count_value
start_value true = record {
  count0 = refl;
  count1 = refl;
  tied0 = refl;
  tied1 = refl;
  ranks0 = refl;
  ranks1 = refl;
}
start_value false = record {
  count0 = refl;
  count1 = refl;
  tied0 = refl;
  tied1 = refl;
  ranks0 = refl;
  ranks1 = refl;
}

module _ {D : Type 0} ⦃d : Double D⦄ ⦃f : Floating D⦄ where
  open d use {nought, lt}
  open f use {is_nan}

  -- Each value is tied with the one before it, or greater.
  abbrev pub Ascending : D → List (Bool × D) → Type 0
  Ascending last [] = Unit
  Ascending last (row ∷ rows) =
      ((tied last row.1 ≡ true) ⊎ (lt last row.1 ≡ true)) × Ascending row.1 rows

  -- A value that is tied with the one before it joins its group, another closes the group.
  abbrev pub groups_of : Groups → D → List (Bool × D) → Groups
  groups_of g last [] = g
  groups_of g last (row ∷ rows) =
      groups_of (join row.0 (if tied last row.1 then g else close g)) row.1 rows

  -- The ranks are those of the groups, and no rank sum is NaN.
  pub record Ranked (g : Groups) (s : MwState D) : Type 0 where
    pub matches : Matches g s.ranks
    pub no_nan : s.nan ≡ false

  -- The state behind a value.
  abbrev counted : Bool → D → Ranks → MwState D → MwState D
  counted first value ranks s = record {
    ranks = count_value first ranks;
    nan = s.nan;
    last = value;
  }

  transition-Ranked :
      (g : Groups) (s : MwState D) (first : Bool) (value : D)
      → Ranked g s
      → (tied s.last value ≡ true) ⊎ (lt s.last value ≡ true)
      → (s' : MwState D) × (mw_transition s first value ≡ ok s')
        × (s'.last ≡ value)
        × Ranked (join first (if tied s.last value then g else close g)) s'
  unfolding mw_transition mw_compare
  transition-Ranked g s first value p h = elim (Bool-cases (tied s.last value)) [
    | inl near ↦
        let next = counted first value (add_ties s.ranks) s in
        (
          next,
          rw near,
          refl,
          rw near (record { matches = tie_value first g s.ranks p.matches; no_nan = p.no_nan }),
        )
    | inr apart ↦
        let above : lt s.last value ≡ true = elim h [
          | inl near ↦ let clash : true ≡ false = sym near ∙ apart in cc
          | inr up ↦ up
        ] in
        let next = counted first value (clear_ties s.ranks) s in
        (
          next,
          rw (apart, above),
          refl,
          rw apart (record { matches = new_value first g s.ranks p.matches; no_nan = p.no_nan }),
        )
  ]

  steps-Ranked :
      (rows : List (Bool × D)) (g : Groups) (s : MwState D)
      → Ranked g s
      → Ascending s.last rows
      → (s' : MwState D) × (mw_run rows s ≡ ok s') × Ranked (groups_of g s.last rows) s'
  unfolding mw_run
  steps-Ranked [] g s p h = (s, refl, p)
  steps-Ranked (row ∷ rows) g s p (h, hs) =
      let g₁ = join row.0 (if tied s.last row.1 then g else close g) in
      let (s₁, e₁, l₁, p₁) = transition-Ranked g s row.0 row.1 p h in
      let (s', e', p') = steps-Ranked rows g₁ s₁ p₁ (subst (λ x. Ascending x rows) (sym l₁) hs) in
      (s', rw e₁ e', subst (λ x. Ranked (groups_of g₁ x rows) s') l₁ p')

  -- The first value, which may also be less than the zero in the initial state.
  start_compare :
      (value : D) → is_nan value ≡ false → mw_compare mw_start value ≡ ok (no_ranks, false)
  unfolding mw_compare add_ties clear_ties
  start_compare value h = elim (Bool-cases (tied nought value)) [
    | inl a ↦ rw a
    | inr a ↦ elim (Bool-cases (lt nought value)) [ inl b ↦ rw (a, b) | inr b ↦ rw (a, b, h) ]
  ]

  start-Ranked :
      (first : Bool) (value : D)
      → is_nan value ≡ false
      → (s' : MwState D) × (mw_transition mw_start first value ≡ ok s')
        × (s'.last ≡ value)
        × Ranked (join first no_groups) s'
  unfolding mw_transition
  start-Ranked first value h =
      let next = counted first value no_ranks mw_start in
      (
        next,
        rw (start_compare value h),
        refl,
        record { matches = start_value first; no_nan = refl },
      )

  -- From the state of zeros, over one or more rows whose values are each tied with the one before or
  -- greater, the first of them not NaN, the transitions throw nothing and end with the counts and the
  -- rank sums of the two samples where each value has the middle of the ranks that its group of ties
  -- takes.
  pub mw_run-Ranked :
      (row : Bool × D) (rows : List (Bool × D))
      → is_nan row.1 ≡ false
      → Ascending row.1 rows
      → (s' : MwState D) × (mw_run (row ∷ rows) mw_start ≡ ok s')
        × Ranked (groups_of (join row.0 no_groups) row.1 rows) s'
  unfolding mw_run
  mw_run-Ranked row rows h hs =
      let (s₁, e₁, l₁, p₁) = start-Ranked row.0 row.1 h in
      let (s', e', p') =
        steps-Ranked rows (join row.0 no_groups) s₁ p₁
          (subst (λ x. Ascending x rows) (sym l₁) hs) in
      (s', rw e₁ e', subst (λ x. Ranked (groups_of (join row.0 no_groups) x rows) s') l₁ p')
