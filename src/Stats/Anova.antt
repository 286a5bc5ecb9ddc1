-- ===== src/Stats/Anova.antt =====
-- one_way_anova.cpp.
pub mod Step
pub mod Insert
pub mod Bound
pub mod Represents
pub mod Groups
pub mod Update
pub mod Found
pub mod Refines
use madlibport.Base.{
  ℕ, zero, suc, ◌+◌, ◌-◌, ◌*◌, ◌^◌, Bool, true, false, not, ◌&&◌, ◌||◌, Option, none, some, List,
  [], ◌∷◌, length, get_elem?, replicate, ltb, leb, ◌==◌, if◌then◌else◌,
}
use madlibport.Base.Int.{ℤ, pos, negsuc}
use madlibport.Base.Outcome.{Outcome, ok, throws, ◌>>=◌, ◌>>◌, reject, unless_fault}
use madlibport.Doubles.{Double}
use madlibport.Utils.PowerOfTwo.{next_power_of_two}
use madlibport.Stats.Distributions.{Distributions}
use madlibport.Stats.Samples.{Sample, one_value}
use madlibport.Stats.Anova.Step.{
  OwaState, lower_bound, found_at, insert_in_place, insert_grown, index_at, update_group,
  read_sample, array_size,
}

pub data OwaError : Type 0 where
  out_of_bounds too_many_groups no_such_group : OwaError

-- An `int32_t` that is read as a `uint32_t`.
abbrev pub group_value : ℤ → ℕ
group_value (pos n) = n
group_value (negsuc n) = 2 ^ 32 - 1 - n

-- The number of groups that the storage is allocated for, when the reserved ones are used up.
unfoldable pub doubled : ℕ → Outcome OwaError ℕ
doubled zero = ok 1
doubled (suc r) = reject (ltb (2 ^ 32 - 1) (2 * suc r)) too_many_groups >> ok (2 * suc r)

module _ {D : Type 0} ⦃d : Double D⦄ where
  -- The constructor, which binds to the room for the least power of two of groups.
  unfoldable pub bind_state : OwaState D → Outcome OwaError (OwaState D)
  unfolding array_size
  bind_state s = do
    size ← unless_fault (array_size (next_power_of_two 32 s.num_groups))
    reject (ltb (1 + 5 * length s.group_values) size) out_of_bounds
    ok s

  -- A group that is new.
  unfoldable pub add_group : ℕ → ℕ → OwaState D → Outcome OwaError (OwaState D)
  unfolding doubled
  add_group at value s =
      if ltb s.num_groups (next_power_of_two 32 s.num_groups)
      then unless_fault (insert_in_place at value s)
      else (doubled (next_power_of_two 32 s.num_groups) >>= λ reserved.
          unless_fault (insert_grown reserved at value s))

  -- `idxOfGroup` of a state that may change.
  unfoldable pub idx_of_group : ℕ → OwaState D → Outcome OwaError (OwaState D × ℕ)
  unfolding add_group
  idx_of_group value s = do
    let at = lower_bound value s.num_groups s.group_values
    t ← if found_at at value s then ok s else add_group at value s
    idx ← unless_fault (index_at at t)
    ok (t, idx)

  -- `idxOfGroup` of a state that is only read.
  unfoldable pub find_group : ℕ → OwaState D → Outcome OwaError ℕ
  find_group value s = do
    let at = lower_bound value s.num_groups s.group_values
    reject (not (found_at at value s)) no_such_group
    ok at

  unfoldable pub one_way_anova_transition : OwaState D → ℤ → D → Outcome OwaError (OwaState D)
  unfolding bind_state idx_of_group
  one_way_anova_transition storage group value = do
    s ← bind_state storage
    (t, idx) ← idx_of_group (group_value group) s
    unless_fault (update_group idx (one_value value) t)

  -- The loop of the merge, from the group at `pos_right` on.
  unfoldable pub merge_groups : ℕ → ℕ → OwaState D → OwaState D → Outcome OwaError (OwaState D)
  unfolding idx_of_group find_group
  merge_groups zero pos_right right left = ok left
  merge_groups (suc rounds) pos_right right left = do
    value ← unless_fault (get_elem? right.group_values pos_right)
    idx_right ← find_group value right
    (t, idx_left) ← idx_of_group value left
    sample ← unless_fault (read_sample idx_right right)
    next ← unless_fault (update_group idx_left sample t)
    merge_groups rounds (pos_right + 1) right next

  unfoldable pub one_way_anova_merge_states :
      OwaState D → OwaState D → Outcome OwaError (OwaState D)
  unfolding bind_state
  one_way_anova_merge_states left_storage right_storage = do
    left ← bind_state left_storage
    right ← bind_state right_storage
    merge_groups right.num_groups 0 right left

-- Sums of squares, degrees of freedom, mean squares, the statistic and its probability.
pub record OwaResult (D : Type 0) : Type 0 where
  pub squares_between : D
  pub squares_within : D
  pub df_between : ℕ
  pub df_within : ℕ
  pub mean_between : D
  pub mean_within : D
  pub statistic : D
  pub p_value : Option D

abbrev pub total_num : List ℕ → ℕ
total_num [] = 0
total_num (n ∷ ns) = n + total_num ns

-- Over the sum of the elements of a vector, in an order that Eigen chooses.
module _ {D : Type 0} ⦃d : Double D⦄ ⦃p : Distributions D⦄ (total : List D → D) where
  open d use {nought, of_uint, add, sub, mul, div}
  open p use {pow, fisher_f}

  -- The loop over the groups, from the index `idx` on.
  unfoldable pub squares_between_from : ℕ → ℕ → D → OwaState D → D → Option D
  squares_between_from zero idx grand_mean s acc = some acc
  squares_between_from (suc rounds) idx grand_mean s acc = elim (read_sample idx s) [
    | none ↦ none
    | some g ↦ squares_between_from rounds (idx + 1) grand_mean s (
        add acc (
          mul (of_uint g.weight) (pow (sub (div g.sum (of_uint g.weight)) grand_mean) (of_uint 2))))
  ]

  unfoldable pub owa_result : OwaState D → D → OwaResult D
  owa_result s squares_between =
      let squares_within = total s.corrected_square_sum in
      let df_between = s.num_groups - 1 in
      let df_within = total_num s.num - s.num_groups in
      let mean_between = div squares_between (of_uint df_between) in
      let mean_within = div squares_within (of_uint df_within) in
      let statistic = div mean_between mean_within in
      record {
        squares_between = squares_between;
        squares_within = squares_within;
        df_between = df_between;
        df_within = df_within;
        mean_between = mean_between;
        mean_within = mean_within;
        statistic = statistic;
        p_value =
            if leb 1 df_between && leb 1 df_within
            then some (fisher_f (of_uint df_between) (of_uint df_within) statistic)
            else none;
      }

  unfoldable pub one_way_anova_final : OwaState D → Outcome OwaError (Option (OwaResult D))
  unfolding bind_state squares_between_from owa_result
  one_way_anova_final storage = do
    s ← bind_state storage
    let grand_mean = div (total s.sum) (of_uint (total_num s.num))
    between ← unless_fault (squares_between_from s.num_groups 0 grand_mean s nought)
    ok (if s.num_groups == 0 then none else some (owa_result s between))
