-- ===== src/Linalg/Closest/Result.antt =====
-- The result of `closestColumnsAndDistances`.
use mathlib.Core.List.{Perm, perm_middle, append-nil}
use mathlib.Core.List.Perm
use madlibport.Base.{
  ℕ, zero, suc, ◌+◌, ◌≤◌, ◌<◌, ◌≡◌, refl, subst, false, some, List, [], ◌∷◌, ◌++◌, map, arith,
  length, replicate, length-replicate, All,
}
use madlibport.Base.Int.{ℤ}
use madlibport.Doubles.{Double}
use madlibport.Stats.Floats.{Floating}
use madlibport.Linalg.Closest.{Neighbour, less, sort_heap, closest_columns_and_distances}
use madlibport.Linalg.Closest.Order.{
  NumbersAreOrdered, numbered, IsNumber, Descends, Ascends, AreAbove, less_irrefl,
}
use madlibport.Linalg.Closest.Least.{Keeps, consider_all-Keeps}

module _ {D : Type 0} ⦃d : Double D⦄ ⦃f : Floating D⦄ where
  open f use {is_nan}

  sort_heap-perm :
      (heap sorted : List (Neighbour D)) → Perm (sort_heap heap sorted) (heap ++ sorted)
  unfolding sort_heap
  sort_heap-perm [] sorted = Perm.refl sorted
  sort_heap-perm (x ∷ heap) sorted =
      Perm.trans (sort_heap-perm heap (x ∷ sorted)) (perm_middle heap sorted)

  length-sort_heap :
      (heap sorted : List (Neighbour D))
      → length (sort_heap heap sorted) ≡ length heap + length sorted
  unfolding sort_heap
  length-sort_heap [] sorted = omega arith
  length-sort_heap (x ∷ heap) sorted = omega (arith, length-sort_heap heap (x ∷ sorted))

  All-sort_heap :
      (P : Neighbour D → Type 0) (heap sorted : List (Neighbour D))
      → All P heap
      → All P sorted
      → All P (sort_heap heap sorted)
  unfolding sort_heap
  All-sort_heap P [] sorted h k = k
  All-sort_heap P (x ∷ heap) sorted (h, hs) k = All-sort_heap P heap (x ∷ sorted) hs (h, k)

  -- The sorted part is above each element that is left.
  with_greatest :
      (x : Neighbour D) (heap sorted : List (Neighbour D))
      → All (λ y. less x y ≡ false) heap
      → All (λ y. All (λ z. less z y ≡ false) sorted) heap
      → All (λ y. All (λ z. less z y ≡ false) (x ∷ sorted)) heap
  with_greatest x [] sorted h k = tt
  with_greatest x (y ∷ heap) sorted (h, hs) (k, ks) = ((h, k), with_greatest x heap sorted hs ks)

  sort_heap-Ascends :
      (heap sorted : List (Neighbour D))
      → Descends heap
      → Ascends sorted
      → All (λ y. All (λ z. less z y ≡ false) sorted) heap
      → Ascends (sort_heap heap sorted)
  unfolding sort_heap
  sort_heap-Ascends [] sorted h k over = k
  sort_heap-Ascends (x ∷ heap) sorted (h, hs) k (o, os) =
      sort_heap-Ascends heap (x ∷ sorted) hs (o, k) (with_greatest x heap sorted h os)

  AreAbove-sort_heap :
      (dropped heap : List (Neighbour D))
      → AreAbove dropped heap
      → AreAbove dropped (sort_heap heap [])
  AreAbove-sort_heap [] heap h = tt
  AreAbove-sort_heap (x ∷ dropped) heap (h, hs) =
      (All-sort_heap (λ y. less x y ≡ false) heap [] h tt, AreAbove-sort_heap dropped heap hs)

  -- The least of the columns, in order, filled up with infinite distances.
  pub record AreClosest (num : ℕ) (infinity : D) (distances : List D) (result : List (Neighbour D))
      : Type 0 where
    pub size : length result ≡ num
    pub ascends : Ascends result
    pub others : List (Neighbour D)
    pub same : Perm (result ++ others) (numbered 0 distances ++ replicate num (0, infinity))
    pub above : AreAbove others result

  module _ (rank : D → ℤ) (ordered : NumbersAreOrdered rank) (infinity : D)
      (a_number : is_nan infinity ≡ false) where
    same_as :
        (n : ℕ) (P : Neighbour D → Type 0) → P (0, infinity) → All P (replicate n (0, infinity))
    same_as zero P p = tt
    same_as (suc n) P p = (p, same_as n P p)

    replicate-Descends : (n : ℕ) → Descends (replicate n (0, infinity))
    replicate-Descends zero = tt
    replicate-Descends (suc n) =
        (same_as n _ (less_irrefl rank ordered (0, infinity) a_number), replicate-Descends n)

    start-Keeps : (n : ℕ) → Keeps 0 (replicate n (0, infinity)) [] (replicate n (0, infinity))
    start-Keeps n = record {
      descends = replicate-Descends n;
      numbers = same_as n IsNumber a_number;
      early = same_as n (λ x. x.0 ≤ 0) (omega arith);
      dropped_numbers = tt;
      above = tt;
      same = rw append-nil (Perm.refl (replicate n (0, infinity)));
    }

    -- Where doubles other than NaN are ordered like integers, infinity is not NaN and neither is the
    -- distance of any column: for one or more columns to find, no read is outside the heap, and the
    -- result has as many pairs as asked for, in ascending order by distance and then by index. With
    -- the other pairs, none of which is less than one of the result, they are the columns with their
    -- distances and as many pairs of index 0 and an infinite distance as asked for.
    pub closest_columns-AreClosest :
        (metric : List D → List D → D) (matrix : List (List D)) (vector : List D) (num : ℕ)
        → 0 < num
        → All (λ v. is_nan v ≡ false) (map (λ column. metric column vector) matrix)
        → (result : List (Neighbour D)) × (closest_columns_and_distances infinity metric matrix
              vector num
            ≡ some result)
          × AreClosest num infinity (map (λ column. metric column vector) matrix) result
    unfolding closest_columns_and_distances
    closest_columns-AreClosest metric matrix vector num positive numbers =
        let distances = map (λ column. metric column vector) matrix in
        let start : List (Neighbour D) = replicate num (0, infinity) in
        let whole : length start ≡ num = length-replicate num (0, infinity) in
        let (bound, dropped, heap, e, l, p) =
          consider_all-Keeps rank ordered 0 0 distances start [] start (omega arith) (omega arith)
            numbers (start-Keeps num) in
        (
          sort_heap heap [],
          rw e refl,
          record {
            size = omega (arith, length-sort_heap heap []);
            ascends = sort_heap-Ascends heap [] p.descends tt (nothing_sorted heap);
            others = dropped;
            same =
                Perm.trans
                  (Perm.append_right dropped
                    (subst (Perm (sort_heap heap [])) (append-nil heap) (sort_heap-perm heap [])))
                  p.same;
            above = AreAbove-sort_heap dropped heap p.above;
          },
        )
      where
        nothing_sorted :
            (heap : List (Neighbour D)) → All (λ y. All (λ z. less z y ≡ false) []) heap
        nothing_sorted [] = tt
        nothing_sorted (x ∷ heap) = (tt, nothing_sorted heap)
