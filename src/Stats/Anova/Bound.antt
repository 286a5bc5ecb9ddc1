-- ===== src/Stats/Anova/Bound.antt =====
-- The position that `std::lower_bound` finds.
use madlibport.Base.{
  ℕ, zero, suc, ◌≤◌, ◌<◌, ◌≡◌, some, List, [], ◌∷◌, arith, get_elem?, ltb, inl, inr, Bool-cases,
}
use mathlib.Core.Option.{some-injective}
use madlibport.Stats.Anova.Step.{lower_bound}

-- The first `n` elements, in ascending order.
pub record Holds (n : ℕ) (xs : List ℕ) (f : ℕ → ℕ) : Type 0 where
  pub cell : (i : ℕ) → i < n → get_elem? xs i ≡ some (f i)
  pub sorted : (i j : ℕ) → i < j → j < n → f i < f j

pub record IsBound (value n : ℕ) (f : ℕ → ℕ) (at : ℕ) : Type 0 where
  pub within : at ≤ n
  pub below : (i : ℕ) → i < at → f i < value
  pub above : (i : ℕ) → at ≤ i → i < n → value ≤ f i

below_next :
    (value n : ℕ) (f : ℕ → ℕ) (at : ℕ)
    → f 0 < value
    → IsBound value n (λ i. f (suc i)) at
    → (i : ℕ) → i < suc at
    → f i < value
below_next value n f at less p zero b = less
below_next value n f at less p (suc i) b = p.below i (omega arith)

above_next :
    (value n : ℕ) (f : ℕ → ℕ) (at : ℕ)
    → IsBound value n (λ i. f (suc i)) at
    → (i : ℕ) → suc at ≤ i
    → i < suc n
    → value ≤ f i
above_next value n f at p zero lo b = absurd (omega arith)
above_next value n f at p (suc i) lo b = p.above i (omega arith) (omega arith)

IsBound-next :
    (value n : ℕ) (f : ℕ → ℕ) (at : ℕ)
    → f 0 < value
    → IsBound value n (λ i. f (suc i)) at
    → IsBound value (suc n) f (suc at)
IsBound-next value n f at less p = record {
  within = omega (arith, p.within);
  below = below_next value n f at less p;
  above = above_next value n f at p;
}

first_least :
    (value n : ℕ) (xs : List ℕ) (f : ℕ → ℕ)
    → Holds (suc n) xs f
    → (i : ℕ) → i < suc n
    → value ≤ f 0
    → value ≤ f i
first_least value n xs f h zero b le = le
first_least value n xs f h (suc i) b le =
    let more = h.sorted 0 (suc i) (omega arith) b in omega arith

none_some : (x : ℕ) → get_elem? {A = ℕ} [] 0 ≡ some x → ⊥
none_some x e = cc

pub lower_bound-IsBound :
    (value n : ℕ) (xs : List ℕ) (f : ℕ → ℕ)
    → Holds n xs f
    → IsBound value n f (lower_bound value n xs)
unfolding lower_bound
lower_bound-IsBound value zero xs f h = record {
  within = omega arith;
  below = λ i b. absurd (omega arith);
  above = λ i lo b. absurd (omega arith);
}
lower_bound-IsBound value (suc n) [] f h = absurd (none_some (f 0) (h.cell 0 (omega arith)))
lower_bound-IsBound value (suc n) (x ∷ xs) f h =
    let first : x ≡ f 0 = some-injective _ _ (h.cell 0 (omega arith)) in
    let rest : Holds n xs (λ i. f (suc i)) = record {
      cell = λ i b. h.cell (suc i) (omega arith);
      sorted = λ i j lt b. h.sorted (suc i) (suc j) (omega arith) (omega arith);
    } in
    let p = lower_bound-IsBound value n xs (λ i. f (suc i)) rest in
    elim (Bool-cases (ltb x value)) [
      | inl less ↦ rw less (IsBound-next value n f (lower_bound value n xs) (ground arith) p)
      | inr not_less ↦ rw not_less (record {
        within = omega arith;
        below = λ i b. absurd (omega arith);
        above = λ i lo b. first_least value n (x ∷ xs) f h i b (ground arith);
      })
    ]
