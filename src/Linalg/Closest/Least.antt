-- ===== src/Linalg/Closest/Least.antt =====
-- What the closest columns are: the least ones, in order.
use mathlib.Core.List.{Perm, perm_middle}
use mathlib.Core.List.Perm
use madlibport.Base.{
  ℕ, suc, ◌+◌, ◌≤◌, ◌<◌, ◌≡◌, refl, ◌∙◌, false, some, List, [], ◌∷◌, ◌++◌, arith, length, All,
  Bool-cases, inl, inr,
}
use madlibport.Base.Int.{ℤ}
use madlibport.Doubles.{Double}
use madlibport.Stats.Floats.{Floating}
use madlibport.Linalg.Closest.{Neighbour, less, push_heap, consider, consider_all}
use madlibport.Linalg.Closest.Order.{
  NumbersAreOrdered, numbered, IsNumber, Descends, AreAbove, less_later, less_closer, less_asymm,
  less_trans, above_all, All-push_heap, push_heap-Descends, push_heap-perm,
}

module _ {D : Type 0} ⦃d : Double D⦄ ⦃f : Floating D⦄ where
  open d use {lt}
  open f use {is_nan}

  -- A heap of the least of the elements, with those that were dropped.
  pub record Keeps (bound : ℕ) (all dropped heap : List (Neighbour D)) : Type 0 where
    pub descends : Descends heap
    pub numbers : All IsNumber heap
    pub early : All (λ x. x.0 ≤ bound) heap
    pub dropped_numbers : All IsNumber dropped
    pub above : AreAbove dropped heap
    pub same : Perm (heap ++ dropped) all

  length-push_heap :
      (x : Neighbour D) (heap : List (Neighbour D)) → length (push_heap x heap) ≡ suc (length heap)
  unfolding push_heap
  length-push_heap x [] = refl
  length-push_heap x (y ∷ heap) = ground (arith, length-push_heap x heap)

  module _ (rank : D → ℤ) (ordered : NumbersAreOrdered rank) where
    -- Dropped elements stay above when the first one of the heap is replaced by a lesser one.
    AreAbove-replaced :
        (x y : Neighbour D) (heap dropped : List (Neighbour D))
        → IsNumber x
        → IsNumber y
        → less y x ≡ false
        → All IsNumber dropped
        → AreAbove dropped (y ∷ heap)
        → AreAbove dropped (push_heap x heap)
    AreAbove-replaced x y heap [] hx hy h hs above = tt
    AreAbove-replaced x y heap (z ∷ zs) hx hy h (hz, hs) ((zy, zh), above) = (
      All-push_heap rank ordered (λ w. less z w ≡ false) x heap
          (less_trans rank ordered z y x hz hy hx zy h) zh,
      AreAbove-replaced x y heap zs hx hy h hs above,
    )

    -- One column.
    consider-Keeps :
        (bound : ℕ) (x : Neighbour D) (all dropped heap : List (Neighbour D))
        → 0 < length heap
        → bound ≤ x.0
        → IsNumber x
        → Keeps bound all dropped heap
        → (dropped' : List (Neighbour D)) × (heap' : List (Neighbour D)) × (consider x heap
            ≡ some heap')
          × (length heap' ≡ length heap)
          × Keeps x.0 (x ∷ all) dropped' heap'
    unfolding consider
    consider-Keeps bound x all dropped [] some_kept after hx p = absurd (omega arith)
    consider-Keeps bound x all dropped (y ∷ heap) some_kept after hx p =
        elim (Bool-cases (lt x.1 y.1)) [
          | inl closer ↦
              let hy = p.numbers.0 in
              let under = less_asymm rank ordered x y hx hy (less_closer rank ordered x y closer) in
              (
                y ∷ dropped,
                push_heap x heap,
                rw closer,
                length-push_heap x heap,
                record {
                  descends = push_heap-Descends rank ordered x heap (hx, p.numbers.1) p.descends.1;
                  numbers = All-push_heap rank ordered IsNumber x heap hx p.numbers.1;
                  early =
                      All-push_heap rank ordered (λ z. z.0 ≤ x.0) x heap (omega arith)
                        (later heap p.early.1);
                  dropped_numbers = (hy, p.dropped_numbers);
                  above = (
                    All-push_heap rank ordered (λ w. less y w ≡ false) x heap under p.descends.0,
                    AreAbove-replaced x y heap dropped hx hy under p.dropped_numbers p.above,
                  );
                  same =
                      Perm.trans
                        (Perm.append_right (y ∷ dropped) (push_heap-perm rank ordered x heap))
                        (Perm.cons x (Perm.trans (perm_middle heap dropped) p.same));
                },
              )
          | inr further ↦
              let hy = p.numbers.0 in
              let first = less_later rank ordered x y hx hy (omega (arith, p.early.0)) further in
              (
                x ∷ dropped,
                y ∷ heap,
                rw further,
                refl,
                record {
                  descends = p.descends;
                  numbers = p.numbers;
                  early = later (y ∷ heap) p.early;
                  dropped_numbers = (hx, p.dropped_numbers);
                  above = (
                    (first, above_all rank ordered x y heap hx p.numbers first p.descends.0),
                    p.above,
                  );
                  same = Perm.trans (perm_middle (y ∷ heap) dropped) (Perm.cons x p.same);
                },
              )
        ]
      where
        later : (xs : List (Neighbour D)) → All (λ z. z.0 ≤ bound) xs → All (λ z. z.0 ≤ x.0) xs
        later [] h = tt
        later (z ∷ zs) (h, hs) = (omega arith, later zs hs)

    pub consider_all-Keeps :
        (bound i : ℕ) (distances : List D) (all dropped heap : List (Neighbour D))
        → 0 < length heap
        → bound ≤ i
        → All (λ v. is_nan v ≡ false) distances
        → Keeps bound all dropped heap
        → (bound' : ℕ) × (dropped' : List (Neighbour D)) × (heap' : List (Neighbour D))
          × (consider_all i distances heap ≡ some heap')
          × (length heap' ≡ length heap)
          × Keeps bound' (numbered i distances ++ all) dropped' heap'
    unfolding consider_all
    consider_all-Keeps bound i [] all dropped heap some_kept after hs p =
        (bound, dropped, heap, refl, refl, p)
    consider_all-Keeps bound i (v ∷ vs) all dropped heap some_kept after (h, hs) p =
        let (dropped₁, heap₁, e, l, q) =
          consider-Keeps bound (i, v) all dropped heap some_kept after h p in
        let (bound₂, dropped₂, heap₂, e', l', r) =
          consider_all-Keeps i (i + 1) vs ((i, v) ∷ all) dropped₁ heap₁ (omega arith) (omega arith)
            hs q in
        (
          bound₂,
          dropped₂,
          heap₂,
          rw e e',
          l' ∙ l,
          record {
            descends = r.descends;
            numbers = r.numbers;
            early = r.early;
            dropped_numbers = r.dropped_numbers;
            above = r.above;
            same = Perm.trans r.same (perm_middle (numbered (i + 1) vs) all);
          },
        )
