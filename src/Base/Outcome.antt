-- ===== src/Base/Outcome.antt =====
-- The result of a handler that may throw, or fault on memory outside its arrays.
use mathlib.Core.Path.{◌≡◌, refl, sym, subst}
use mathlib.Core.Bool.{Bool, true, false}
use mathlib.Core.Option.{Option, none, some}

pub data Outcome (E A : Type 0) : Type 0 where
  ok : A → Outcome E A
  throws : E → Outcome E A
  faults : Outcome E A

infixl 5 ◌>>=◌ ◌>>◌
abbrev pub ◌>>=◌ : {E A B : Type 0} → Outcome E A → (A → Outcome E B) → Outcome E B
ok a >>= f = f a
throws e >>= f = throws e
faults >>= f = faults

abbrev pub ◌>>◌ : {E B : Type 0} → Outcome E (Unit {0}) → Outcome E B → Outcome E B
m >> k = m >>= λ _. k

-- `if (test) throw e;`
abbrev pub reject : {E : Type 0} → Bool → E → Outcome E (Unit {0})
reject true e = throws e
reject false e = ok tt

abbrev pub unless_fault : {E A : Type 0} → Option A → Outcome E A
unless_fault none = faults
unless_fault (some a) = ok a

-- It ends normally with a result that satisfies `P`, or it throws; it does not fault.
abbrev pub ReturnsOrThrows : {E A : Type 0} → (A → Type 0) → Outcome E A → Type 0
ReturnsOrThrows P (ok a) = P a
ReturnsOrThrows P (throws e) = Unit
ReturnsOrThrows P faults = ⊥

module _ {E A : Type 0} (P : A → Type 0) where
  -- The rules for a chain of checks.
  pub reject_rule :
      (test : Bool) (e : E) (k : Outcome E A)
      → (test ≡ false → ReturnsOrThrows P k)
      → ReturnsOrThrows P (reject test e >> k)
  reject_rule true e k h = tt
  reject_rule false e k h = h refl

  pub unless_fault_rule :
      {B : Type 0} (o : Option B) (f : B → Outcome E A)
      → (b : B) × (o ≡ some b)
      → ((b : B) → o ≡ some b → ReturnsOrThrows P (f b))
      → ReturnsOrThrows P (unless_fault o >>= f)
  unless_fault_rule o f (b, e) k =
      subst (λ m. ReturnsOrThrows P (unless_fault m >>= f)) (sym e) (k b e)

  pub bind_rule :
      {B : Type 0} (Q : B → Type 0) (m : Outcome E B) (f : B → Outcome E A)
      → ReturnsOrThrows Q m
      → ((b : B) → Q b → ReturnsOrThrows P (f b))
      → ReturnsOrThrows P (m >>= f)
  bind_rule Q (ok b) f h k = k b h
  bind_rule Q (throws e) f h k = tt
  bind_rule Q faults f h k = absurd h

-- The same for a check at the end of the chain.
pub reject_rule_last :
    {E : Type 0} (P : Unit {0} → Type 0) (test : Bool) (e : E)
    → (test ≡ false → P tt)
    → ReturnsOrThrows P (reject test e)
reject_rule_last P true e h = tt
reject_rule_last P false e h = h refl
