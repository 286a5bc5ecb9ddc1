-- ===== src/Linalg/Closest.antt =====
-- metric.cpp: the columns of a matrix that are closest to a vector. Of the heap, the code reads the
-- first element, which is a greatest one, and in the end all elements in order; here it is the list of
-- its elements in descending order. `none` is a read in a heap without elements.
pub mod Order
pub mod Least
pub mod Result
mod Tests
use madlibport.Base.{
  ℕ, zero, suc, ◌+◌, Bool, ◌&&◌, ◌||◌, Option, none, some, List, [], ◌∷◌, map, replicate, ltb,
  if◌then◌else◌, ◌>>=◌,
}
use madlibport.Doubles.{Double}

-- A 0-based index of a column and its distance.
abbrev pub Neighbour : Type 0 → Type 0
Neighbour D = ℕ × D

module _ {D : Type 0} ⦃d : Double D⦄ where
  open d use {nought, one, of_uint, neg, add, sub, mul, div, lt, le}

  -- `ReverseLexicographicComparator`
  unfoldable pub less : Neighbour D → Neighbour D → Bool
  less x y = lt x.1 y.1 || (le x.1 y.1 && le y.1 x.1 && ltb x.0 y.0)

  -- `std::push_heap`
  unfoldable pub push_heap : Neighbour D → List (Neighbour D) → List (Neighbour D)
  push_heap x [] = x ∷ []
  push_heap x (y ∷ heap) = if less x y then y ∷ push_heap x heap else x ∷ y ∷ heap

  -- `std::sort_heap`: the greatest one goes to the end.
  unfoldable pub sort_heap : List (Neighbour D) → List (Neighbour D) → List (Neighbour D)
  sort_heap [] sorted = sorted
  sort_heap (x ∷ heap) sorted = sort_heap heap (x ∷ sorted)

  -- A column is kept if it is closer than the greatest one, which is popped.
  unfoldable pub consider : Neighbour D → List (Neighbour D) → Option (List (Neighbour D))
  unfolding push_heap
  consider x [] = none
  consider x (y ∷ heap) = some (if lt x.1 y.1 then push_heap x heap else y ∷ heap)

  unfoldable pub consider_all : ℕ → List D → List (Neighbour D) → Option (List (Neighbour D))
  consider_all i [] heap = some heap
  consider_all i (distance ∷ distances) heap =
      consider (i, distance) heap >>= consider_all (i + 1) distances

  -- The infinite double is a parameter, like the metric on columns.
  unfoldable pub closest_columns_and_distances :
      D → (List D → List D → D) → List (List D) → List D → ℕ → Option (List (Neighbour D))
  unfolding consider_all sort_heap
  closest_columns_and_distances infinity metric matrix vector num =
      consider_all 0 (map (λ column. metric column vector) matrix) (replicate num (0, infinity))
      >>= λ heap. some (sort_heap heap [])

  unfoldable pub closest_column :
      D → (List D → List D → D) → List (List D) → List D → Option (Neighbour D)
  unfolding closest_columns_and_distances
  closest_column infinity metric matrix vector =
      elim (closest_columns_and_distances infinity metric matrix vector 1) [
        | some (x ∷ xs) ↦ some x
        | other ↦ none
      ]

  -- Over the norm and the inner product of Eigen, the arc cosine, and the least positive double.
  unfoldable pub dist_angle :
      (List D → D) → (List D → List D → D) → (D → D) → D → List D → List D → D
  dist_angle norm dot acos denorm_min x y =
      let cosine = div (dot x y) (mul (norm x) (norm y)) in
      if lt (norm x) denorm_min || lt (norm y) denorm_min
      then acos (neg one)
      else acos (if lt one cosine then one else if lt cosine (neg one) then neg one else cosine)

  unfoldable pub dist_tanimoto : (List D → D) → (List D → List D → D) → List D → List D → D
  dist_tanimoto squared_norm dot x y =
      let tanimoto = add (squared_norm x) (squared_norm y) in
      div (sub tanimoto (mul (of_uint 2) (dot x y))) (sub tanimoto (dot x y))
