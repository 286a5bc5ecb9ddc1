-- ===== src/Base/Loops.antt =====
-- The `Option` monad, in which `none` is a memory fault, and the counted loop
-- `for (i = start; i < start + rounds; i++)`.
use Prim.Native.Nat.{ℕ, zero, suc, ◌+◌, ◌≤◌, ◌<◌}
use mathlib.Core.Path.{◌≡◌, refl, sym, subst}
use mathlib.Core.Option.{Option, none, some}
use native.Mathlib.Omega.{arith}
use native.Mathlib.Decide.{ℕ_discrete}

infixl 5 ◌>>=◌
abbrev pub ◌>>=◌ {ℓ κ} : {A : Type ℓ} {B : Type κ} → Option A → (A → Option B) → Option B
none >>= f = none
some a >>= f = f a

pub >>=-eq-some {ℓ κ} :
    {A : Type ℓ} {B : Type κ} (m : Option A) (f : A → Option B) {b : B}
    → (m >>= f) ≡ some b
    → (a : A) × (m ≡ some a) × (f a ≡ some b)
>>=-eq-some none f h = cc
>>=-eq-some (some a) f h = (a, refl, h)

pub >>=_assoc {ℓ} :
    {A B C : Type ℓ} (m : Option A) (f : A → Option B) (g : B → Option C)
    → (m >>= f >>= g) ≡ (m >>= λ a. f a >>= g)
>>=_assoc none f g = refl
>>=_assoc (some a) f g = refl

pub >>=_cong {ℓ} :
    {A B : Type ℓ} (m : Option A) (f g : A → Option B)
    → ((a : A) → f a ≡ g a)
    → (m >>= f) ≡ (m >>= g)
>>=_cong none f g h = refl
>>=_cong (some a) f g h = h a

-- The computation does not fault, and its result satisfies `P`.
abbrev pub Returns {ℓ} : {A : Type ℓ} → (A → Type 0) → Option A → Type 0
Returns P none = ⊥
Returns P (some a) = P a

pub Returns-of {ℓ} :
    {A : Type ℓ} (P : A → Type 0) (o : Option A) {a : A} → o ≡ some a → P a → Returns P o
Returns-of P o e h = subst (Returns P) (sym e) h

module _ {ℓ} {S : Type ℓ} where
  unfoldable pub for_loop : ℕ → ℕ → (ℕ → S → Option S) → S → Option S
  for_loop start zero body s = some s
  for_loop start (suc rounds) body s = body start s >>= for_loop (start + 1) rounds body

  -- A body that keeps an invariant and never faults makes a loop that keeps it and never faults.
  pub for_loop-inv {κ} :
      (P : ℕ → S → Type κ) (body : ℕ → S → Option S) (start rounds : ℕ) (s : S)
      → ((j : ℕ) (t : S)
          → start ≤ j
          → j < start + rounds
          → P j t
          → (t' : S) × (body j t ≡ some t') × P (j + 1) t')
      → P start s
      → (s' : S) × (for_loop start rounds body s ≡ some s') × P (start + rounds) s'
  unfolding for_loop
  for_loop-inv P body start zero s keep h = (s, refl, subst (λ (n : ℕ). P n s) (omega arith) h)
  for_loop-inv P body start (suc rounds) s keep h =
      let (t, e, ht) = keep start s (omega arith) (omega arith) h in
      let (s', e', hs) =
        for_loop-inv P body (start + 1) rounds t (λ j u lo hi. keep j u (omega arith) (omega arith))
          ht in
      (s', rw e e', subst (λ (n : ℕ). P n s') (omega arith) hs)

  -- A loop that ends normally ran its body at every index.
  pub for_loop-ran :
      (body : ℕ → S → Option S) (start rounds : ℕ) (s : S) {s' : S}
      → for_loop start rounds body s ≡ some s'
      → (j : ℕ) → start ≤ j
      → j < start + rounds
      → (t : S) × (t' : S) × (body j t ≡ some t')
  unfolding for_loop
  for_loop-ran body start zero s e j lo hi = absurd (omega arith)
  for_loop-ran body start (suc rounds) s e j lo hi =
      let (t, first, rest) = >>=-eq-some (body start s) _ e in
      elim (ℕ_discrete start j) [
        | yes p ↦ (s, t, subst (λ (n : ℕ). body n s ≡ some t) p first)
        | no p ↦ for_loop-ran body (start + 1) rounds t rest j (omega arith) (omega arith)
      ]

  -- The two rules for a loop that starts at 0.
  pub for_loop-inv_zero {κ} :
      (P : ℕ → S → Type κ) (body : ℕ → S → Option S) (rounds : ℕ) (s : S)
      → ((j : ℕ) (t : S) → j < rounds → P j t → (t' : S) × (body j t ≡ some t') × P (j + 1) t')
      → P 0 s
      → (s' : S) × (for_loop 0 rounds body s ≡ some s') × P rounds s'
  for_loop-inv_zero P body rounds s keep h =
      let (s', e, hs) = for_loop-inv P body 0 rounds s (λ j t lo hi. keep j t (omega arith)) h in
      (s', e, subst (λ (n : ℕ). P n s') (omega arith) hs)

  pub for_loop-ran_zero :
      (body : ℕ → S → Option S) (rounds : ℕ) (s : S) {s' : S}
      → for_loop 0 rounds body s ≡ some s'
      → (j : ℕ) → j < rounds
      → (t : S) × (t' : S) × (body j t ≡ some t')
  for_loop-ran_zero body rounds s e j h =
      for_loop-ran body 0 rounds s e j (omega arith) (omega arith)
