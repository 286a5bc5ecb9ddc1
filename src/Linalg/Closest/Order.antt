-- ===== src/Linalg/Closest/Order.antt =====
-- The order of the columns by distance and index, and a heap in descending order.
use mathlib.Core.List.{Perm}
use mathlib.Core.List.Perm
use madlibport.Base.{
  ℕ, ◌+◌, ◌≤◌, ◌≡◌, sym, ◌∙◌, Bool, true, false, ◌&&◌, ◌||◌, List, [], ◌∷◌, arith, ltb, All,
  Bool-cases, inl, inr,
}
use madlibport.Base.Int.{ℤ, lt_ℤ, le_ℤ}
use madlibport.Doubles.{Double}
use madlibport.Stats.Floats.{Floating}
use madlibport.Linalg.Closest.{Neighbour, less, push_heap}

-- Doubles that are numbers are ordered like integers.
pub record NumbersAreOrdered {D : Type 0} ⦃d : Double D⦄ ⦃f : Floating D⦄ (rank : D → ℤ)
    : Type 0 where
  pub lt_rank :
      (x y : D) → f.is_nan x ≡ false → f.is_nan y ≡ false → d.lt x y ≡ lt_ℤ (rank x) (rank y)
  pub le_rank :
      (x y : D) → f.is_nan x ≡ false → f.is_nan y ≡ false → d.le x y ≡ le_ℤ (rank x) (rank y)

-- The lexicographic order, distance first.
abbrev key_less : ℤ → ℕ → ℤ → ℕ → Bool
key_less r i s j = lt_ℤ r s || (le_ℤ r s && le_ℤ s r && ltb i j)

key_less_asymm :
    (r : ℤ) (i : ℕ) (s : ℤ) (j : ℕ) → key_less r i s j ≡ true → key_less s j r i ≡ false
key_less_asymm r i s j h = ground arith

key_less_trans :
    (r : ℤ) (i : ℕ) (s : ℤ) (j : ℕ) (t : ℤ) (k : ℕ)
    → key_less r i s j ≡ false
    → key_less s j t k ≡ false
    → key_less r i t k ≡ false
key_less_trans r i s j t k h h' = ground arith

key_less_later :
    (r : ℤ) (i : ℕ) (s : ℤ) (j : ℕ) → j ≤ i → lt_ℤ r s ≡ false → key_less r i s j ≡ false
key_less_later r i s j h h' = ground arith

key_less_irrefl : (r : ℤ) (i : ℕ) → key_less r i r i ≡ false
key_less_irrefl r i = ground arith

key_less_of_lt : (r : ℤ) (i : ℕ) (s : ℤ) (j : ℕ) → lt_ℤ r s ≡ true → key_less r i s j ≡ true
key_less_of_lt r i s j h = rw h

-- The columns with their indices from `i` on.
abbrev pub numbered : {D : Type 0} → ℕ → List D → List (Neighbour D)
numbered i [] = []
numbered i (distance ∷ distances) = (i, distance) ∷ numbered (i + 1) distances

All-map :
    {A : Type 0} {P Q : A → Type 0} (xs : List A) → ((x : A) → P x → Q x) → All P xs → All Q xs
All-map [] f h = tt
All-map (x ∷ xs) f (h, hs) = (f x h, All-map xs f hs)

module _ {D : Type 0} ⦃d : Double D⦄ ⦃f : Floating D⦄ where
  open d use {lt}
  open f use {is_nan}

  abbrev pub IsNumber : Neighbour D → Type 0
  IsNumber x = is_nan x.1 ≡ false

  -- No element is less than one behind it.
  abbrev pub Descends : List (Neighbour D) → Type 0
  Descends [] = Unit {0}
  Descends (x ∷ xs) = All (λ y. less x y ≡ false) xs × Descends xs

  -- No element is greater than one behind it.
  abbrev pub Ascends : List (Neighbour D) → Type 0
  Ascends [] = Unit {0}
  Ascends (x ∷ xs) = All (λ y. less y x ≡ false) xs × Ascends xs

  -- None of the dropped elements is less than one of the others.
  abbrev pub AreAbove : List (Neighbour D) → List (Neighbour D) → Type 0
  AreAbove dropped kept = All (λ x. All (λ y. less x y ≡ false) kept) dropped

  module _ (rank : D → ℤ) (ordered : NumbersAreOrdered rank) where
    less_key :
        (x y : Neighbour D)
        → IsNumber x
        → IsNumber y
        → less x y ≡ key_less (rank x.1) x.0 (rank y.1) y.0
    unfolding less
    less_key x y hx hy = rw (
      ordered.lt_rank x.1 y.1 hx hy,
      ordered.le_rank x.1 y.1 hx hy,
      ordered.le_rank y.1 x.1 hy hx,
    )

    pub less_irrefl : (x : Neighbour D) → IsNumber x → less x x ≡ false
    less_irrefl x h = less_key x x h h ∙ key_less_irrefl (rank x.1) x.0

    pub less_asymm :
        (x y : Neighbour D) → IsNumber x → IsNumber y → less x y ≡ true → less y x ≡ false
    less_asymm x y hx hy h =
        less_key y x hy hx
        ∙ key_less_asymm (rank x.1) x.0 (rank y.1) y.0 (sym (less_key x y hx hy) ∙ h)

    pub less_trans :
        (x y z : Neighbour D)
        → IsNumber x
        → IsNumber y
        → IsNumber z
        → less x y ≡ false
        → less y z ≡ false
        → less x z ≡ false
    less_trans x y z hx hy hz h h' =
        less_key x z hx hz
        ∙ key_less_trans (rank x.1) x.0 (rank y.1) y.0 (rank z.1) z.0 (sym (less_key x y hx hy) ∙ h)
            (sym (less_key y z hy hz) ∙ h')

    -- An element that is not closer than an earlier one is not less.
    pub less_later :
        (x y : Neighbour D)
        → IsNumber x
        → IsNumber y
        → y.0 ≤ x.0
        → lt x.1 y.1 ≡ false
        → less x y ≡ false
    less_later x y hx hy h h' =
        less_key x y hx hy
        ∙ key_less_later (rank x.1) x.0 (rank y.1) y.0 h (sym (ordered.lt_rank x.1 y.1 hx hy) ∙ h')

    pub less_closer : (x y : Neighbour D) → lt x.1 y.1 ≡ true → less x y ≡ true
    unfolding less
    less_closer x y h = rw h

    -- What is not less than the first element of a list in descending order.
    pub above_all :
        (x y : Neighbour D) (ys : List (Neighbour D))
        → IsNumber x
        → All IsNumber (y ∷ ys)
        → less x y ≡ false
        → All (λ z. less y z ≡ false) ys
        → All (λ z. less x z ≡ false) ys
    above_all x y [] hx hs h hy = tt
    above_all x y (z ∷ zs) hx (h₁, (h₂, hs)) h (hz, hzs) =
        (less_trans x y z hx h₁ h₂ h hz, above_all x y zs hx (h₁, hs) h hzs)

    pub All-push_heap :
        (P : Neighbour D → Type 0) (x : Neighbour D) (heap : List (Neighbour D))
        → P x
        → All P heap
        → All P (push_heap x heap)
    unfolding push_heap
    All-push_heap P x [] p ps = (p, tt)
    All-push_heap P x (y ∷ heap) p (q, qs) = elim (Bool-cases (less x y)) [
      | inl deeper ↦ rw deeper (q, All-push_heap P x heap p qs)
      | inr here ↦ rw here (p, (q, qs))
    ]

    pub push_heap-Descends :
        (x : Neighbour D) (heap : List (Neighbour D))
        → All IsNumber (x ∷ heap)
        → Descends heap
        → Descends (push_heap x heap)
    unfolding push_heap
    push_heap-Descends x [] hs s = (tt, tt)
    push_heap-Descends x (y ∷ heap) (hx, (hy, hs)) (s, ss) = elim (Bool-cases (less x y)) [
      | inl deeper ↦ rw deeper (
        All-push_heap (λ z. less y z ≡ false) x heap (less_asymm x y hx hy deeper) s,
        push_heap-Descends x heap (hx, hs) ss,
      )
      | inr here ↦ rw here ((here, above_all x y heap hx (hy, hs) here s), (s, ss))
    ]

    pub push_heap-perm :
        (x : Neighbour D) (heap : List (Neighbour D)) → Perm (push_heap x heap) (x ∷ heap)
    unfolding push_heap
    push_heap-perm x [] = Perm.refl (x ∷ [])
    push_heap-perm x (y ∷ heap) = elim (Bool-cases (less x y)) [
      | inl deeper ↦
          rw deeper (Perm.trans (Perm.cons y (push_heap-perm x heap)) (Perm.swap x y heap))
      | inr here ↦ rw here (Perm.refl (x ∷ y ∷ heap))
    ]
