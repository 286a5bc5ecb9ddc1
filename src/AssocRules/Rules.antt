-- ===== src/AssocRules/Rules.antt =====
-- The rules that a pattern gives.
use madlibport.Base.{
  ℕ, zero, suc, ◌+◌, ◌-◌, ◌^◌, ◌≤◌, ◌<◌, ◌≡◌, refl, sym, ◌∙◌, ap, subst, Bool, true, false, none,
  some, arith, List, [], ◌∷◌, length, get_elem?, All, ltb, length-append, length-replicate,
  replicate, ◌>>=◌,
}
use madlibport.Base.Int.{pos, le_ℤ, dec, sub_ℕ}
use madlibport.AssocRules.{
  PermFctx, comma, rules_init, next_flags, first_flag, split_parts, remove_comma, rules_next,
  all_rules,
}
use madlibport.AssocRules.Counter.{
  value, length-next_flags, value-next_flags, value-replicate, power_step, power_pos,
}
use madlibport.AssocRules.Split.{
  Item, IsItem, terminated, text, select, split_parts-Writes, Writes-start,
}
use madlibport.AssocRules.Sides.{
  length-text, length-select, some_selected, some_left, IsRule, remove_comma-IsRule,
}

-- `left` more rules are to come, of the numbers behind that of the flags.
record Counting (x : Item) (ys : List Item) (left : ℕ) (ctx : PermFctx) : Type 0 where
  pattern : ctx.positions ≡ text x ys
  per_item : length ctx.flags ≡ suc (length ys)
  to_come : ctx.num_calls ≡ pos left
  numbers : left + value ctx.flags + 2 ≡ 2 ^ suc (length ys)

split-IsRule :
    (x : Item) (ys : List Item) (flags : List Bool)
    → All IsItem (x ∷ ys)
    → length flags ≡ suc (length ys)
    → 0 < value flags
    → suc (value flags) < 2 ^ suc (length ys)
    → (f : Bool × List Bool) × (r : Bool × (List ℕ × List ℕ)) × (rule : List ℕ × List ℕ)
      × (first_flag flags ≡ some f)
      × (split_parts f.1 f.0 [] (text x ys) ([], []) ≡ some r)
      × (remove_comma r ≡ some rule)
      × IsRule (x ∷ ys) flags rule
split-IsRule x ys [] items l h h' = absurd (omega arith)
split-IsRule x ys (f ∷ flags) (ix, iys) l h h' =
    let (r, e, w) = split_parts-Writes ys flags x f [] ([], []) (omega arith) ix iys in
    let (rule, e', q) =
      remove_comma-IsRule (x ∷ ys) (f ∷ flags) r (some_selected (f ∷ flags) (x ∷ ys) l h)
        (some_left (f ∷ flags) (x ∷ ys) l
          (subst (λ (n : ℕ). suc (value (f ∷ flags)) < 2 ^ n) (sym l) h'))
        (Writes-start f (f ∷ flags) (x ∷ ys) r w) in
    ((f, flags), r, rule, refl, e, e', q)

-- A side of a rule leaves room for a zero in its buffer.
sides_fit :
    (x : Item) (ys : List Item) (flags : List Bool) (rule : List ℕ × List ℕ)
    → length flags ≡ suc (length ys)
    → 0 < length (terminated (select true flags (x ∷ ys)))
    → 0 < length (terminated (select false flags (x ∷ ys)))
    → IsRule (x ∷ ys) flags rule
    → (length rule.0 < length (text x ys)) × (length rule.1 < length (text x ys))
sides_fit x ys flags rule l h₁ h₂ p =
    let left = length-append rule.0 (comma ∷ []) in
    let right = length-append rule.1 (comma ∷ []) in
    let left' = ap length p.left in
    let right' = ap length p.right in
    let total = length-select flags (x ∷ ys) l in
    let whole = length-text ys x in (omega arith, omega arith)

rules_next-Counting :
    (x : Item) (ys : List Item) (left : ℕ) (ctx : PermFctx)
    → All IsItem (x ∷ ys)
    → Counting x ys (suc left) ctx
    → (rule : List ℕ × List ℕ) × (ctx' : PermFctx) × (rules_next ctx ≡ some (some (rule, ctx')))
      × Counting x ys left ctx'
      × (value ctx'.flags ≡ suc (value ctx.flags))
      × IsRule (x ∷ ys) ctx'.flags rule
unfolding rules_next
rules_next-Counting x ys left ctx items p =
    let flags = next_flags ctx.flags in
    let n = length-next_flags ctx.flags in
    let l : length flags ≡ suc (length ys) = n ∙ p.per_item in
    let v : value flags ≡ suc (value ctx.flags) = value-next_flags ctx.flags (
      subst (λ (k : ℕ). suc (value ctx.flags) < 2 ^ k) (sym p.per_item)
        (omega (arith, p.numbers))) in
    let top : suc (value flags) < 2 ^ suc (length ys) = omega (arith, p.numbers) in
    let (f, r, rule, ef, er, ec, q) = split-IsRule x ys flags items l (omega arith) top in
    let sel = some_selected flags (x ∷ ys) l (omega arith) in
    let rem =
      some_left flags (x ∷ ys) l (subst (λ (k : ℕ). suc (value flags) < 2 ^ k) (sym l) top) in
    let (fit₁, fit₂) = sides_fit x ys flags rule l sel rem q in
    let ok₁ : ltb (length rule.0) (length (text x ys)) ≡ true = ground arith in
    let ok₂ : ltb (length rule.1) (length (text x ys)) ≡ true = ground arith in
    let more : le_ℤ (pos (suc left)) (pos 0) ≡ false = ground arith in
    let less : dec (pos (suc left)) ≡ pos left = ground arith in
    (
      rule,
      _,
      rw (p.to_come, more, p.pattern, ef, er, ec, ok₁, ok₂),
      record {
        pattern = p.pattern;
        per_item = l;
        to_come = ap dec p.to_come ∙ less;
        numbers = omega (arith, p.numbers);
      },
      v,
      q,
    )

-- The rules with the numbers behind `start`, one for each.
pub record AreRules (items : List Item) (start left : ℕ) (rules : List (List ℕ × List ℕ))
    : Type 0 where
  pub number : length rules ≡ left
  pub each :
      (k : ℕ) (rule : List ℕ × List ℕ)
      → get_elem? rules k ≡ some rule
      → (flags : List Bool) × (length flags ≡ length items)
        × (value flags ≡ start + suc k)
        × IsRule items flags rule

AreRules-cons :
    (items : List Item) (start left : ℕ) (rule : List ℕ × List ℕ) (rules : List (List ℕ × List ℕ))
    (flags : List Bool)
    → length flags ≡ length items
    → value flags ≡ suc start
    → IsRule items flags rule
    → AreRules items (suc start) left rules
    → AreRules items start (suc left) (rule ∷ rules)
AreRules-cons items start left rule rules flags l v q p = record {
  number = omega (arith, p.number);
  each = each;
}
  where
    each :
        (k : ℕ) (other : List ℕ × List ℕ)
        → get_elem? (rule ∷ rules) k ≡ some other
        → (flags' : List Bool) × (length flags' ≡ length items)
          × (value flags' ≡ start + suc k)
          × IsRule items flags' other
    each zero other e =
        let same : rule ≡ other = cc in (flags, l, omega arith, subst (IsRule items flags) same q)
    each (suc k) other e =
        let (flags', l', v', q') = p.each k other e in (flags', l', omega arith, q')

no_rule : (ctx : PermFctx) → ctx.num_calls ≡ pos 0 → rules_next ctx ≡ some none
unfolding rules_next
no_rule ctx e = rw e

all_rules-AreRules :
    (x : Item) (ys : List Item) (left : ℕ) (ctx : PermFctx)
    → All IsItem (x ∷ ys)
    → Counting x ys left ctx
    → (rules : List (List ℕ × List ℕ)) × (all_rules (suc left) ctx ≡ some rules)
      × AreRules (x ∷ ys) (value ctx.flags) left rules
unfolding all_rules
all_rules-AreRules x ys zero ctx items p =
    let last = no_rule ctx p.to_come in
    ([], rw last, record { number = refl; each = λ k rule e. cc })
all_rules-AreRules x ys (suc left) ctx items p =
    let (rule, ctx', e, p', v, q) = rules_next-Counting x ys left ctx items p in
    let (rules, er, ps) = all_rules-AreRules x ys left ctx' items p' in
    (
      rule ∷ rules,
      rw (e, er),
      AreRules-cons (x ∷ ys) (value ctx.flags) left rule rules ctx'.flags p'.per_item v q
          (subst (λ (k : ℕ). AreRules (x ∷ ys) k left rules) v ps),
    )

-- A pattern of n items, n at most 30 and none of which contains a comma, gives 2^n - 2 rules in as
-- many calls, and the next call ends: rule k, from 0 on, has on its left side the items that the
-- binary digits of k + 1 select, the first item by the lowest digit, and on its right side the others,
-- with the last comma of each side removed; no call accesses memory outside its buffers.
pub all_rules_lem :
    (x : Item) (ys : List Item)
    → All IsItem (x ∷ ys)
    → suc (length ys) ≤ 30
    → (rules : List (List ℕ × List ℕ)) × ((rules_init (text x ys) (suc (length ys))
          >>= all_rules (2 ^ suc (length ys) - 1))
        ≡ some rules)
      × AreRules (x ∷ ys) 0 (2 ^ suc (length ys) - 2) rules
unfolding rules_init
all_rules_lem x ys items few =
    let n = suc (length ys) in
    let defined : ltb n 31 ≡ true = ground arith in
    let zero_value = value-replicate n in
    let two : 2 ≤ 2 ^ n = omega (arith, power_pos (length ys), power_step (length ys)) in
    let count : sub_ℕ (2 ^ n) 2 ≡ pos (2 ^ n - 2) = ground arith in
    let fuel : suc (2 ^ n - 2) ≡ 2 ^ n - 1 = omega arith in
    let start : PermFctx = record {
      flags = replicate n false;
      positions = text x ys;
      num_calls = sub_ℕ (2 ^ n) 2;
    } in
    let (rules, e, p) = all_rules-AreRules x ys (2 ^ n - 2) start items (record {
      pattern = refl;
      per_item = length-replicate n false;
      to_come = count;
      numbers = omega arith;
    }) in
    (
      rules,
      rw defined (subst (λ (k : ℕ). all_rules k start ≡ some rules) fuel e),
      subst (λ (k : ℕ). AreRules (x ∷ ys) k (2 ^ n - 2) rules) zero_value p,
    )
