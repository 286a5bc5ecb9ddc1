-- ===== src/Stats/Ranks/Midranks.antt =====
-- The rank sums by groups of tied values: each value of a group has the middle of the ranks that the
-- group takes.
use madlibport.Base.{ℕ, ◌+◌, ◌*◌, ◌≡◌, refl, ◌∙◌, ap, Bool, true, false, arith}
use madlibport.Stats.Ranks.{Ranks, add_ties, clear_ties, count_value}

-- The closed groups with their counts and rank sums, and the counts of the open group.
pub record Groups : Type 0 where
  pub done0 : ℕ
  pub done1 : ℕ
  pub base0 : ℕ
  pub base1 : ℕ
  pub open0 : ℕ
  pub open1 : ℕ

-- Twice the middle of the ranks of the open group: the first is one more than the values before it.
abbrev pub midrank : Groups → ℕ
midrank g = 2 * (g.done0 + g.done1) + (g.open0 + g.open1) + 1

abbrev pub no_groups : Groups
no_groups = record { done0 = 0; done1 = 0; base0 = 0; base1 = 0; open0 = 0; open1 = 0 }

-- The open group is closed: its values get its midrank.
abbrev pub close : Groups → Groups
close g = record {
  done0 = g.done0 + g.open0;
  done1 = g.done1 + g.open1;
  base0 = g.base0 + g.open0 * midrank g;
  base1 = g.base1 + g.open1 * midrank g;
  open0 = 0;
  open1 = 0;
}

abbrev pub join : Bool → Groups → Groups
join true g = record g { open0 = g.open0 + 1 }
join false g = record g { open1 = g.open1 + 1 }

-- The ranks are those of the groups, the open one included.
pub record Matches (g : Groups) (r : Ranks) : Type 0 where
  pub count0 : r.num0 ≡ g.done0 + g.open0
  pub count1 : r.num1 ≡ g.done1 + g.open1
  pub tied0 : r.ties0 ≡ g.open0
  pub tied1 : r.ties1 ≡ g.open1
  pub ranks0 : r.sum0 ≡ g.base0 + g.open0 * midrank g
  pub ranks1 : r.sum1 ≡ g.base1 + g.open1 * midrank g

times_next : (a m : ℕ) → a * (m + 1) ≡ a * m + a
times_next a m = grind arith

next_times : (a m : ℕ) → (a + 1) * (m + 1) ≡ a * m + a + m + 1
next_times a m = grind arith

pub tie_value :
    (s : Bool) (g : Groups) (r : Ranks)
    → Matches g r
    → Matches (join s g) (count_value s (add_ties r))
unfolding count_value add_ties
tie_value true g r p =
    let m : midrank (join true g) ≡ midrank g + 1 = omega arith in
    let own : (g.open0 + 1) * midrank (join true g)
        ≡ g.open0 * midrank g + g.open0 + midrank g + 1 =
      ap (λ (k : ℕ). (g.open0 + 1) * k) m ∙ next_times g.open0 (midrank g) in
    let other : g.open1 * midrank (join true g) ≡ g.open1 * midrank g + g.open1 =
      ap (λ (k : ℕ). g.open1 * k) m ∙ times_next g.open1 (midrank g) in
    record {
      count0 = omega (arith, p.count0);
      count1 = p.count1;
      tied0 = omega (arith, p.tied0);
      tied1 = p.tied1;
      ranks0 = omega (arith, p.count0, p.count1, p.tied0, p.tied1, p.ranks0);
      ranks1 = omega (arith, p.tied1, p.ranks1);
    }
tie_value false g r p =
    let m : midrank (join false g) ≡ midrank g + 1 = omega arith in
    let own : (g.open1 + 1) * midrank (join false g)
        ≡ g.open1 * midrank g + g.open1 + midrank g + 1 =
      ap (λ (k : ℕ). (g.open1 + 1) * k) m ∙ next_times g.open1 (midrank g) in
    let other : g.open0 * midrank (join false g) ≡ g.open0 * midrank g + g.open0 =
      ap (λ (k : ℕ). g.open0 * k) m ∙ times_next g.open0 (midrank g) in
    record {
      count0 = p.count0;
      count1 = omega (arith, p.count1);
      tied0 = p.tied0;
      tied1 = omega (arith, p.tied1);
      ranks0 = omega (arith, p.tied0, p.ranks0);
      ranks1 = omega (arith, p.count0, p.count1, p.tied0, p.tied1, p.ranks1);
    }

-- A value that opens a group.
pub new_value :
    (s : Bool) (g : Groups) (r : Ranks)
    → Matches g r
    → Matches (join s (close g)) (count_value s (clear_ties r))
unfolding count_value clear_ties
new_value true g r p = record {
  count0 = omega (arith, p.count0);
  count1 = omega (arith, p.count1);
  tied0 = refl;
  tied1 = refl;
  ranks0 = grind (arith, p.count0, p.count1, p.ranks0);
  ranks1 = omega (arith, p.ranks1);
}
new_value false g r p = record {
  count0 = omega (arith, p.count0);
  count1 = omega (arith, p.count1);
  tied0 = refl;
  tied1 = refl;
  ranks0 = omega (arith, p.ranks0);
  ranks1 = grind (arith, p.count0, p.count1, p.ranks1);
}
