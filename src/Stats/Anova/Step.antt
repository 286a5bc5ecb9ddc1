-- ===== src/Stats/Anova/Step.antt =====
-- The state of one_way_anova.cpp, and the reads and writes of its arrays; `none` is an access outside
-- them. Group values, indices and sizes of samples are natural numbers.
use madlibport.Base.{
  ℕ, zero, suc, ◌+◌, ◌-◌, Bool, false, ◌&&◌, ◌*◌, ◌^◌, Option, none, some, List, [], ◌∷◌, get_elem?,
  set?, replicate, ltb, ◌==◌, if◌then◌else◌, ◌>>=◌, memcpy,
}
use madlibport.Doubles.{Double}
use madlibport.Stats.Samples.{Sample, update_corrected_sum_of_squares}

-- The five arrays have room for as many groups.
pub record OwaState (D : Type 0) : Type 0 where
  pub num_groups : ℕ
  pub group_values : List ℕ
  pub pos_to_indices : List ℕ
  pub num : List ℕ
  pub sum : List D
  pub corrected_square_sum : List D

-- `arraySize`, and with it the offsets of `rebind`, is a `uint32_t`. Where it is cut, the arrays overlap
-- or reach beyond the storage.
unfoldable pub array_size : ℕ → Option ℕ
array_size reserved = if ltb (1 + 5 * reserved) (2 ^ 32) then some (1 + 5 * reserved) else none

-- `std::lower_bound` in the first `n` elements, which are in ascending order: the position of the
-- first one that is not less.
unfoldable pub lower_bound : ℕ → ℕ → List ℕ → ℕ
lower_bound value zero xs = 0
lower_bound value (suc n) [] = 0
lower_bound value (suc n) (x ∷ xs) = if ltb x value then suc (lower_bound value n xs) else 0

-- `std::copy` of doubles to where they overlap moves them as `memmove` does.
abbrev pub move_up : {A : Type 0} → ℕ → ℕ → List A → Option (List A)
move_up at n xs = memcpy xs (at + 1) xs at (n - at)

-- A new element in its place: the ones behind it are moved up.
unfoldable pub insert_at : {A : Type 0} → ℕ → ℕ → A → List A → Option (List A)
insert_at at n x xs = move_up at n xs >>= λ ys. set? ys at x

-- The same into another array.
unfoldable pub insert_into : {A : Type 0} → ℕ → ℕ → A → List A → List A → Option (List A)
insert_into at n x old fresh = do
  ys ← memcpy fresh 0 old 0 at
  zs ← memcpy ys (at + 1) old at (n - at)
  set? zs at x

module _ {D : Type 0} ⦃d : Double D⦄ where
  -- The element at a position is the group value.
  abbrev pub found_at : ℕ → ℕ → OwaState D → Bool
  found_at at value s =
      ltb at s.num_groups
      && elim (get_elem? s.group_values at) [ none ↦ false | some x ↦ x == value ]

  abbrev pub index_at : ℕ → OwaState D → Option ℕ
  index_at at s = get_elem? s.pos_to_indices at

  -- The branch with space left.
  unfoldable pub insert_in_place : ℕ → ℕ → OwaState D → Option (OwaState D)
  unfolding insert_at
  insert_in_place at value s = do
    values ← insert_at at s.num_groups value s.group_values
    indices ← insert_at at s.num_groups s.num_groups s.pos_to_indices
    some (record s {
      num_groups = s.num_groups + 1;
      group_values = values;
      pos_to_indices = indices;
    })

  -- The branch that allocates another storage, filled with zeros, and binds to it.
  unfoldable pub insert_grown : ℕ → ℕ → ℕ → OwaState D → Option (OwaState D)
  unfolding insert_into array_size
  insert_grown reserved at value s = do
    storage ← array_size reserved
    values ← insert_into at s.num_groups value s.group_values (replicate reserved 0)
    indices ← insert_into at s.num_groups s.num_groups s.pos_to_indices (replicate reserved 0)
    num ← memcpy (replicate reserved 0) 0 s.num 0 s.num_groups
    sum ← memcpy (replicate reserved d.nought) 0 s.sum 0 s.num_groups
    squares ← memcpy (replicate reserved d.nought) 0 s.corrected_square_sum 0 s.num_groups
    some (record {
      num_groups = s.num_groups + 1;
      group_values = values;
      pos_to_indices = indices;
      num = num;
      sum = sum;
      corrected_square_sum = squares;
    })

  unfoldable pub read_sample : ℕ → OwaState D → Option (Sample D)
  read_sample idx s = do
    weight ← get_elem? s.num idx
    sum ← get_elem? s.sum idx
    squares ← get_elem? s.corrected_square_sum idx
    some (record { weight = weight; sum = sum; corrected = squares })

  unfoldable pub write_sample : ℕ → Sample D → OwaState D → Option (OwaState D)
  write_sample idx sample s = do
    num ← set? s.num idx sample.weight
    sum ← set? s.sum idx sample.sum
    squares ← set? s.corrected_square_sum idx sample.corrected
    some (record s { num = num; sum = sum; corrected_square_sum = squares })

  -- `updateCorrectedSumOfSquares` of the sample of a group.
  unfoldable pub update_group : ℕ → Sample D → OwaState D → Option (OwaState D)
  unfolding read_sample write_sample
  update_group idx right s = do
    left ← read_sample idx s
    write_sample idx (update_corrected_sum_of_squares left right) s
