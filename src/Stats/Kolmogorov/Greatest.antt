-- ===== src/Stats/Kolmogorov/Greatest.antt =====
-- The greatest distance of the empirical distribution functions that a run has seen.
use madlibport.Base.{
  ℕ, ◌+◌, ◌≡◌, refl, sym, ◌∙◌, ap, Bool, true, false, not, ◌&&◌, List, [], ◌∷◌, arith,
  if◌then◌else◌,
}
use madlibport.Base.Int.{ℤ}
use madlibport.Base.Outcome.{ok}
use madlibport.Doubles.{Double}
use madlibport.Stats.Floats.{Floating}
use madlibport.Stats.ChiSquared.{eq_ℤ}
use madlibport.Stats.Kolmogorov.{
  KsState, KsRow, distance, same_sizes, seen, one_if, ks_start, ks_test_transition, ks_count,
  ks_max_diff, ks_run,
}

not_seen : (b : Bool) → (b && false) ≡ false
not_seen true = refl
not_seen false = refl

eq_ℤ_self : (a : ℤ) → eq_ℤ a a ≡ true
eq_ℤ_self a = ground arith

-- The number of values of one sample, the first one for `true`.
abbrev pub count_of : {D : Type 0} → Bool → List (Bool × D) → ℕ
count_of b [] = 0
count_of b ((c, v) ∷ rows) = one_if (if b then c else not c) + count_of b rows

module _ {D : Type 0} ⦃d : Double D⦄ ⦃f : Floating D⦄ (e0 e1 : ℤ) where
  open d use {nought, lt}

  abbrev pub row_of : Bool × D → KsRow D
  row_of row = record { first = row.0; value = row.1; expected0 = e0; expected1 = e1 }

  abbrev pub rows_of : List (Bool × D) → List (KsRow D)
  rows_of [] = []
  rows_of (row ∷ rows) = row_of row ∷ rows_of rows

  -- No value is less than the one before.
  abbrev pub Ascending : D → List (Bool × D) → Type 0
  Ascending last [] = Unit {0}
  Ascending last (row ∷ rows) = (lt row.1 last ≡ false) × Ascending row.1 rows

  -- The distances at the end of each group of ties that a greater value follows; `before` are the
  -- rows up to here.
  abbrev pub ends : List (Bool × D) → D → List (Bool × D) → List D
  ends before last [] = []
  ends before last (row ∷ rows) =
      if lt last row.1
      then distance (count_of true before) (count_of false before) e0 e1
        ∷ ends (row ∷ before) row.1 rows
      else ends (row ∷ before) row.1 rows

  abbrev pub greatest : D → List D → D
  greatest m [] = m
  greatest m (x ∷ xs) = greatest (if lt m x then x else m) xs

  -- What a state says of the rows that it has seen, the last one first.
  pub record Counted (before : List (Bool × D)) (last : D) (s : KsState D) : Type 0 where
    pub count0 : s.num0 ≡ count_of true before
    pub count1 : s.num1 ≡ count_of false before
    pub sizes0 : s.expected0 ≡ e0
    pub sizes1 : s.expected1 ≡ e1
    pub latest : s.last ≡ last
    pub diff : s.last_diff ≡ distance (count_of true before) (count_of false before) e0 e1

  transition_lem :
      (s : KsState D) (r : KsRow D)
      → (not (same_sizes s r) && seen s) ≡ false
      → (seen s && lt r.value s.last) ≡ false
      → ks_test_transition s r ≡ ok (ks_count s r)
  unfolding ks_test_transition
  transition_lem s r e₁ e₂ = rw (e₁, e₂)

  count-Counted :
      (before : List (Bool × D)) (last : D) (s : KsState D) (row : Bool × D)
      → Counted before last s
      → Counted (row ∷ before) row.1 (ks_count s (row_of row))
  unfolding ks_count
  count-Counted before last s (b, v) p =
      let n0 : s.num0 + one_if b ≡ one_if b + count_of true before = omega (arith, p.count0) in
      let n1 : s.num1 + one_if (not b) ≡ one_if (not b) + count_of false before =
        omega (arith, p.count1) in
      record {
        count0 = n0;
        count1 = n1;
        sizes0 = refl;
        sizes1 = refl;
        latest = refl;
        diff =
            ap (λ (n : ℕ). distance n (s.num1 + one_if (not b)) e0 e1) n0
            ∙ ap (λ (n : ℕ). distance (one_if b + count_of true before) n e0 e1) n1;
      }

  seen-Counted :
      (row : Bool × D) (before : List (Bool × D)) (last : D) (s : KsState D)
      → Counted (row ∷ before) last s
      → seen s ≡ true
  seen-Counted (true, v) before last s p = let c = p.count0 in ground arith
  seen-Counted (false, v) before last s p = let c = p.count1 in ground arith

  same_sizes-Counted :
      (before : List (Bool × D)) (last : D) (s : KsState D) (row : Bool × D)
      → Counted before last s
      → same_sizes s (row_of row) ≡ true
  same_sizes-Counted before last s row p =
      ap (λ e. eq_ℤ e e0 && eq_ℤ s.expected1 e1) p.sizes0
      ∙ ap (λ e. eq_ℤ e0 e0 && eq_ℤ e e1) p.sizes1
      ∙ rw (eq_ℤ_self e0, eq_ℤ_self e1)

  max_diff_lem :
      (s : KsState D) (last v x : D)
      → seen s ≡ true
      → s.last ≡ last
      → s.last_diff ≡ x
      → ks_max_diff s v
        ≡ (if lt last v then (if lt s.max_diff x then x else s.max_diff) else s.max_diff)
  unfolding ks_max_diff
  max_diff_lem s last v x e₁ e₂ e₃ =
      rw (e₁, ← e₂, ← e₃)
        (by_cases (lt s.last v) (lt s.max_diff s.last_diff) s.last_diff s.max_diff)
    where
      by_cases :
          (p q : Bool) (y m : D)
          → (if p && q then y else m) ≡ (if p then (if q then y else m) else m)
      by_cases true q y m = refl
      by_cases false q y m = refl

  greatest_ends :
      (b : Bool) (m x : D) (rest : List D)
      → greatest m (if b then x ∷ rest else rest)
        ≡ greatest (if b then (if lt m x then x else m) else m) rest
  greatest_ends true m x rest = refl
  greatest_ends false m x rest = refl

  count_max :
      (s : KsState D) (next : Bool × D) → (ks_count s (row_of next)).max_diff ≡ ks_max_diff s next.1
  unfolding ks_count
  count_max s next = refl

  run_lem :
      (row : Bool × D) (before : List (Bool × D)) (last : D) (s : KsState D)
      (rows : List (Bool × D))
      → Ascending last rows
      → Counted (row ∷ before) last s
      → (s' : KsState D) × (ks_run s (rows_of rows) ≡ ok s')
        × (s'.max_diff ≡ greatest s.max_diff (ends (row ∷ before) last rows))
        × (s'.num0 ≡ count_of true (row ∷ before) + count_of true rows)
        × (s'.num1 ≡ count_of false (row ∷ before) + count_of false rows)
  unfolding ks_run
  run_lem row before last s [] h p =
      (s, refl, refl, omega (arith, p.count0), omega (arith, p.count1))
  run_lem row before last s (next ∷ rows) (h, hs) p =
      let seen' = seen-Counted row before last s p in
      let same = same_sizes-Counted (row ∷ before) last s next p in
      let ordered : lt next.1 s.last ≡ false = ap (lt next.1) p.latest ∙ h in
      let step : ks_test_transition s (row_of next) ≡ ok (ks_count s (row_of next)) =
        transition_lem s (row_of next) (rw same) (rw (seen', ordered)) in
      let (s', e, m, c0, c1) =
        run_lem next (row ∷ before) next.1 (ks_count s (row_of next)) rows hs
          (count-Counted (row ∷ before) last s next p) in
      (
        s',
        rw step e,
        m
            ∙ ap (λ y. greatest y (ends (next ∷ row ∷ before) next.1 rows))
                (count_max s next ∙ max_diff_lem s last next.1 _ seen' p.latest p.diff)
            ∙ sym (greatest_ends (lt last next.1) s.max_diff _ _),
        omega arith,
        omega arith,
      )

  first-Counted : (row : Bool × D) → Counted (row ∷ []) row.1 (ks_count ks_start (row_of row))
  unfolding ks_count
  first-Counted (true, v) = record {
    count0 = refl;
    count1 = refl;
    sizes0 = refl;
    sizes1 = refl;
    latest = refl;
    diff = refl;
  }
  first-Counted (false, v) = record {
    count0 = refl;
    count1 = refl;
    sizes0 = refl;
    sizes1 = refl;
    latest = refl;
    diff = refl;
  }

  max_start : (v : D) → ks_max_diff ks_start v ≡ nought
  unfolding ks_max_diff
  max_start v = refl

  -- Over one or more rows of which no value is less than the one before, with constant announced
  -- sizes, the transitions throw nothing, from the state of zeros; they end with the numbers of the
  -- values of the two samples, and with the greatest of zero and of the distances between the two
  -- empirical distribution functions at the end of each group of ties that a greater value follows.
  pub ks_run-greatest :
      (row : Bool × D) (rows : List (Bool × D))
      → Ascending row.1 rows
      → (s' : KsState D) × (ks_run ks_start (rows_of (row ∷ rows)) ≡ ok s')
        × (s'.max_diff ≡ greatest nought (ends (row ∷ []) row.1 rows))
        × (s'.num0 ≡ count_of true (row ∷ rows))
        × (s'.num1 ≡ count_of false (row ∷ rows))
  unfolding ks_run
  ks_run-greatest row rows h =
      let step : ks_test_transition ks_start (row_of row) ≡ ok (ks_count ks_start (row_of row)) =
        transition_lem ks_start (row_of row) (not_seen (not (same_sizes ks_start (row_of row))))
          refl in
      let (s', e, m, c0, c1) =
        run_lem row [] row.1 (ks_count ks_start (row_of row)) rows h (first-Counted row) in
      (
        s',
        rw step e,
        m
            ∙ ap (λ y. greatest y (ends (row ∷ []) row.1 rows))
                (count_max ks_start row ∙ max_start row.1),
        omega arith,
        omega arith,
      )
