-- ===== src/Stats/Anova/Refines.antt =====
-- The transition as a change of the sample of one group.
use madlibport.Base.{
  ℕ, ◌+◌, ◌^◌, ◌≤◌, ◌<◌, ◌≡◌, refl, sym, ◌∙◌, ap, subst, inl, inr, ◌*◌, true, false, some, List, [],
  ◌∷◌, arith, length, ltb, ◌==◌, if◌then◌else◌, ℕ_discrete,
}
use madlibport.Base.Int.{ℤ}
use madlibport.Base.Outcome.{Outcome, ok, ◌>>=◌}
use madlibport.Doubles.{Double}
use madlibport.Utils.PowerOfTwo.{next_power_of_two, HasRoom-bounded}
use madlibport.Stats.Samples.{
  Sample, no_values, one_value, update_corrected_sum_of_squares, add_values,
}
use madlibport.Stats.Anova.{
  OwaError, bind_state, idx_of_group, one_way_anova_transition, group_value,
}
use madlibport.Stats.Anova.Step.{OwaState, update_group}
use madlibport.Stats.Anova.Represents.{Represents}
use madlibport.Stats.Anova.Update.{with_group, update_group-Represents}
use mathlib.Core.Path.{fun_ext}
use madlibport.Stats.Anova.Update.{with_group, update_group-Represents}
use madlibport.Stats.Anova.Found.{next_power-room, idx_of_group-IsFound}

module _ {D : Type 0} ⦃d : Double D⦄ where
  room-bounded :
      (m : ℕ → Sample D) (s : OwaState D) (p : Represents m s)
      → s.num_groups ≤ 2 ^ 29
      → p.room ≤ 2 ^ 29
  room-bounded m s p few = elim p.room_for [
    | inl (none_yet, empty) ↦ omega arith
    | inr (pos, h) ↦ HasRoom-bounded 29 s.num_groups p.room h few
  ]

  -- The constructor accepts a state that has its room.
  bind_state-Represents :
      (m : ℕ → Sample D) (s : OwaState D)
      → Represents m s
      → s.num_groups ≤ 2 ^ 29
      → bind_state s ≡ ok s
  unfolding bind_state
  bind_state-Represents m s p few =
      let power = next_power-room m s p 0 (omega arith) in
      let sized = p.sizes.values_sized in
      let room = room-bounded m s p few in
      let whole : ltb (1 + 5 * next_power_of_two 32 s.num_groups) (2 ^ 32) ≡ true = ground arith in
      let test : ltb (1 + 5 * length s.group_values) (1 + 5 * next_power_of_two 32 s.num_groups)
          ≡ false =
        ground arith in
      rw (whole, test)

  transition_lem :
      (s t u : OwaState D) (group : ℤ) (x : D) (idx : ℕ)
      → bind_state s ≡ ok s
      → idx_of_group (group_value group) s ≡ ok (t, idx)
      → update_group idx (one_value x) t ≡ some u
      → one_way_anova_transition s group x ≡ ok u
  unfolding one_way_anova_transition
  transition_lem s t u group x idx e₁ e₂ e₃ = rw (e₁, e₂, e₃)

  -- A value for one group.
  transition-Represents :
      (m : ℕ → Sample D) (s : OwaState D) (group : ℤ) (x : D)
      → Represents m s
      → s.num_groups < 2 ^ 29
      → (t : OwaState D) × (one_way_anova_transition s group x ≡ ok t)
        × (t.num_groups ≤ s.num_groups + 1)
        × Represents
            (with_group
              (group_value group)
              (update_corrected_sum_of_squares (m (group_value group)) (one_value x))
              m)
            t
  transition-Represents m s group x p few =
      let v = group_value group in
      let (t, idx, e, more, f) = idx_of_group-IsFound m s p v few in
      let (u, e', en, q) = update_group-Represents m t f.represents f.at (one_value x) f.within in
      let same : update_group idx (one_value x) t ≡ some u =
        ap (λ (i : ℕ). update_group i (one_value x) t) (sym f.index) ∙ e' in
      (
        u,
        transition_lem s t u group x idx (bind_state-Represents m s p (omega arith)) e same,
        omega arith,
        subst
            (λ (w : ℕ).
              Represents (with_group w (update_corrected_sum_of_squares (m w) (one_value x)) m) u)
            f.value q,
      )

  -- The aggregate over rows of a group and a value.
  unfoldable pub anova_run : OwaState D → List (ℤ × D) → Outcome OwaError (OwaState D)
  anova_run s [] = ok s
  anova_run s (row ∷ rows) = one_way_anova_transition s row.0 row.1 >>= λ t. anova_run t rows

  abbrev pub no_groups : OwaState D
  no_groups = record {
    num_groups = 0;
    group_values = [];
    pos_to_indices = [];
    num = [];
    sum = [];
    corrected_square_sum = [];
  }

  no_groups-Represents : Represents (λ _. no_values) no_groups
  no_groups-Represents = record {
    values = λ i. i;
    indices = λ i. i;
    room = 0;
    sizes = record {
      values_sized = refl;
      indices_sized = refl;
      num_sized = refl;
      sum_sized = refl;
      squares_sized = refl;
    };
    room_for = inl (refl, refl);
    holds = record {
      cell = λ i b. absurd (omega arith);
      sorted = λ i j lt b. absurd (omega arith);
    };
    indexed = λ i b. absurd (omega arith);
    bounded = λ i b. absurd (omega arith);
    distinct = λ i j b c e. absurd (omega arith);
    samples = λ i b. absurd (omega arith);
    fresh = λ i lo hi. absurd (omega arith);
    absent = λ v h. refl;
  }

  -- The values of a group, in the order of the rows.
  abbrev pub values_of : ℕ → List (ℤ × D) → List D
  values_of v [] = []
  values_of v (row ∷ rows) =
      if v == group_value row.0 then row.1 ∷ values_of v rows else values_of v rows

  -- The samples after the rows.
  abbrev pub grouped : (ℕ → Sample D) → List (ℤ × D) → ℕ → Sample D
  grouped m rows v = add_values (m v) (values_of v rows)

  grouped-next :
      (m : ℕ → Sample D) (row : ℤ × D) (rows : List (ℤ × D)) (v : ℕ)
      → grouped
          (with_group
            (group_value row.0)
            (update_corrected_sum_of_squares (m (group_value row.0)) (one_value row.1))
            m)
          rows
          v
        ≡ grouped m (row ∷ rows) v
  unfolding add_values
  grouped-next m row rows v = elim (ℕ_discrete v (group_value row.0)) [
    | yes same ↦
        let test : (v == group_value row.0) ≡ true = ground arith in
        rw test (
          ap
            (λ (w : ℕ).
              add_values (update_corrected_sum_of_squares (m w) (one_value row.1))
                (values_of v rows))
            (sym same))
    | no ne ↦ let test : (v == group_value row.0) ≡ false = ground arith in rw test
  ]

  run-Represents :
      (rows : List (ℤ × D)) (m : ℕ → Sample D) (s : OwaState D)
      → Represents m s
      → s.num_groups + length rows ≤ 2 ^ 29
      → (t : OwaState D) × (anova_run s rows ≡ ok t) × Represents (grouped m rows) t
  unfolding anova_run add_values
  run-Represents [] m s p few = (s, refl, p)
  run-Represents (row ∷ rows) m s p few =
      let (t, e, more, q) = transition-Represents m s row.0 row.1 p (omega arith) in
      let (u, e', r) = run-Represents rows _ t q (omega arith) in
      (u, rw e e', subst (λ g. Represents g u) (fun_ext (grouped-next m row rows)) r)

  -- Over at most 2^29 rows the transitions, from the state without groups, throw nothing and do not
  -- fault; the state that they end with keeps the group values in ascending order, each with the
  -- index of its sample, which is what adding the values of the group to an empty sample one after the
  -- other makes, in the order of the rows.
  pub anova_run-Represents :
      (rows : List (ℤ × D))
      → length rows ≤ 2 ^ 29
      → (t : OwaState D) × (anova_run no_groups rows ≡ ok t)
        × Represents (λ v. add_values no_values (values_of v rows)) t
  anova_run-Represents rows few =
      run-Represents rows (λ _. no_values) no_groups no_groups-Represents (omega arith)
