-- ===== src/AssocRules/Tests.antt =====
-- The rules of a small pattern.
use madlibport.Base.{ℕ, ◌-◌, ◌^◌, ◌≡◌, refl, some, List, [], ◌∷◌, ◌>>=◌, arith}
use madlibport.AssocRules.{
  rules_init, all_rules, rules_next, next_flags, split_parts, to_comma, cut_last,
}
use madlibport.AssocRules.Split.{Item, text}
use madlibport.AssocRules.Rules.{AreRules, all_rules_lem}

-- The pattern "a,b", with "a" and "b" for 97 and 98.
abbrev item_a : Item
item_a = 97 ∷ []

abbrev item_b : Item
item_b = 98 ∷ []

all_rules_run :
    (rules_init (97 ∷ 44 ∷ 98 ∷ []) 2 >>= all_rules 3)
    ≡ some ((item_a, item_b) ∷ (item_b, item_a) ∷ [])
unfolding all_rules rules_init rules_next next_flags split_parts to_comma cut_last
all_rules_run = refl

abbrev RulesOfTwo : Type 0
RulesOfTwo =
    (rules : List (List ℕ × List ℕ)) × ((rules_init (text item_a (item_b ∷ [])) 2
        >>= all_rules (2 ^ 2 - 1))
      ≡ some rules)
    × AreRules (item_a ∷ item_b ∷ []) 0 (2 ^ 2 - 2) rules

all_rules_lem_example : RulesOfTwo
all_rules_lem_example =
    all_rules_lem item_a (item_b ∷ []) (((λ e. cc), tt), (((λ e. cc), tt), tt)) (omega arith)
