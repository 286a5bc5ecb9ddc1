-- ===== src/Stats/Anova/Found.antt =====
-- `idxOfGroup` of a state that may change.
use madlibport.Base.{
  ℕ, zero, suc, ◌+◌, ◌-◌, ◌*◌, ◌^◌, ◌≤◌, ◌<◌, ◌≡◌, ◌≢◌, refl, sym, ◌∙◌, ap, inl, inr, true, false,
  some, arith, ltb, ◌==◌, Bool-cases, ==→eq, dec_lt, ℕ_discrete,
}
use native.Mathlib.Nat.{two-pow-succ}
use madlibport.Base.Outcome.{ok}
use madlibport.Doubles.{Double}
use madlibport.Utils.PowerOfTwo.{
  HasRoom, next_power_of_two, next_power-HasRoom, HasRoom-bounded, zero_of_32,
}
use madlibport.Stats.Samples.{Sample}
use madlibport.Stats.Anova.{add_group, doubled, idx_of_group}
use madlibport.Stats.Anova.Step.{
  OwaState, lower_bound, found_at, insert_in_place, insert_grown, index_at,
}
use madlibport.Stats.Anova.Bound.{IsBound, lower_bound-IsBound}
use madlibport.Stats.Anova.Represents.{RoomFor, Represents, IsAdded}
use madlibport.Stats.Anova.Groups.{
  IsAdded-Represents, insert_in_place-IsAdded, insert_grown-IsAdded,
}

doubled-HasRoom :
    (n room : ℕ)
    → n ≡ room
    → n < 2 ^ 31
    → RoomFor n room
    → (reserved : ℕ) × (doubled room ≡ ok reserved) × HasRoom (n + 1) reserved
unfolding doubled
doubled-HasRoom n zero e few r =
    (1, refl, record { exponent = 0; power = refl; enough = omega arith; least = omega arith })
doubled-HasRoom n (suc room) e few (inl (none_yet, empty)) = absurd (omega arith)
doubled-HasRoom n (suc room) e few (inr (pos, h)) =
    let test : ltb (2 ^ 32 - 1) (2 * suc room) ≡ false = ground arith in
    let power = h.power in
    (
      2 * suc room,
      rw test,
      record {
        exponent = suc h.exponent;
        power = omega (arith, two-pow-succ h.exponent);
        enough = omega arith;
        least = omega arith;
      },
    )

RoomFor-enough : (n room : ℕ) → RoomFor n room → n ≤ room
RoomFor-enough n room (inl (a, b)) = omega arith
RoomFor-enough n room (inr (a, h)) = h.enough

full : {n room : ℕ} → RoomFor n room → ¬ (n < room) → n ≡ room
full {n} {room} r h = let le = RoomFor-enough n room r in omega arith

module _ {D : Type 0} ⦃d : Double D⦄ where
  -- The state after `idxOfGroup`: a group with the value stands at the position that it searched.
  pub record IsFound (m : ℕ → Sample D) (v idx : ℕ) (t : OwaState D) : Type 0 where
    pub represents : Represents m t
    pub at : ℕ
    pub within : at < t.num_groups
    pub value : represents.values at ≡ v
    pub index : represents.indices at ≡ idx

  module _ (m : ℕ → Sample D) (s : OwaState D) (p : Represents m s) (v : ℕ) where
    abbrev at : ℕ
    at = lower_bound v s.num_groups s.group_values

    bound : IsBound v s.num_groups p.values at
    bound = lower_bound-IsBound v s.num_groups s.group_values p.values p.holds

    found_inside : at < s.num_groups → found_at at v s ≡ (p.values at == v)
    found_inside lt =
        let test : ltb at s.num_groups ≡ true = ground arith in rw (test, p.holds.cell at lt)

    found_outside : s.num_groups ≤ at → found_at at v s ≡ false
    found_outside ge = let test : ltb at s.num_groups ≡ false = ground arith in rw test

    found_there : found_at at v s ≡ true → (at < s.num_groups) × (p.values at ≡ v)
    found_there e = elim (dec_lt at s.num_groups) [
      | yes lt ↦ (lt, ==→eq (p.values at) v (sym (found_inside lt) ∙ e))
      | no ge ↦ let never = found_outside (omega arith) in absurd (cc)
    ]

    not_there : found_at at v s ≡ false → (i : ℕ) → i < s.num_groups → p.values i ≢ v
    not_there e i b q =
        let first : at ≤ i = let below = bound.below i in ground arith in
        let lt : at < s.num_groups = omega arith in
        let least = bound.above at (omega arith) lt in
        elim (ℕ_discrete at i) [
          | yes here ↦
              let same : p.values at ≡ v = ap p.values here ∙ q in
              let test : (p.values at == v) ≡ true = ground arith in
              let never = found_inside lt in cc
          | no there ↦ let more = p.holds.sorted at i (omega arith) b in omega arith
        ]

    pub next_power-room : s.num_groups ≤ 2 ^ 31 → next_power_of_two 32 s.num_groups ≡ p.room
    next_power-room few = elim p.room_for [
      | inl (none_yet, empty) ↦ ap (next_power_of_two 32) none_yet ∙ zero_of_32 ∙ sym empty
      | inr (pos, h) ↦ next_power-HasRoom 31 s.num_groups p.room pos few h
    ]

    add_in_place_lem :
        (t : OwaState D)
        → ltb s.num_groups (next_power_of_two 32 s.num_groups) ≡ true
        → insert_in_place at v s ≡ some t
        → add_group at v s ≡ ok t
    unfolding add_group
    add_in_place_lem t e₁ e₂ = rw (e₁, e₂)

    IsAdded-in_place :
        at ≤ s.num_groups
        → s.num_groups < p.room
        → next_power_of_two 32 s.num_groups ≡ p.room
        → (t : OwaState D) × (add_group at v s ≡ ok t) × IsAdded at v s t
    IsAdded-in_place within left e = elim p.room_for [
      | inl (none_yet, empty) ↦ absurd (omega arith)
      | inr (pos, h) ↦
          let least = h.least in
          let (t, e', a) = insert_in_place-IsAdded m s p at v within left (record {
            exponent = h.exponent;
            power = h.power;
            enough = omega arith;
            least = omega arith;
          }) in
          let test : ltb s.num_groups (next_power_of_two 32 s.num_groups) ≡ true = ground arith in
          (t, add_in_place_lem t test e', a)
    ]

    add_grown_lem :
        (reserved : ℕ) (t : OwaState D)
        → ltb s.num_groups (next_power_of_two 32 s.num_groups) ≡ false
        → doubled (next_power_of_two 32 s.num_groups) ≡ ok reserved
        → insert_grown reserved at v s ≡ some t
        → add_group at v s ≡ ok t
    unfolding add_group
    add_grown_lem reserved t e₁ e₂ e₃ = rw (e₁, e₂) (rw e₃)

    IsAdded-larger :
        at ≤ s.num_groups
        → s.num_groups ≡ p.room
        → s.num_groups < 2 ^ 29
        → next_power_of_two 32 s.num_groups ≡ p.room
        → (t : OwaState D) × (add_group at v s ≡ ok t) × IsAdded at v s t
    IsAdded-larger within full few e =
        let (reserved, e', more) =
          doubled-HasRoom s.num_groups p.room full (omega arith) p.room_for in
        let (t, e'', a) =
          insert_grown-IsAdded m s p reserved at v within (omega arith) more
            (HasRoom-bounded 29 (s.num_groups + 1) reserved more (omega arith)) in
        let test : ltb s.num_groups (next_power_of_two 32 s.num_groups) ≡ false = ground arith in
        (t, add_grown_lem reserved t test (ap doubled e ∙ e') e'', a)

    added :
        at ≤ s.num_groups
        → s.num_groups < 2 ^ 29
        → next_power_of_two 32 s.num_groups ≡ p.room
        → (t : OwaState D) × (add_group at v s ≡ ok t) × IsAdded at v s t
    added within few e = elim (dec_lt s.num_groups p.room) [
      | yes left ↦ IsAdded-in_place within left e
      | no none_left ↦ IsAdded-larger within (full p.room_for none_left) few e
    ]

    found_lem :
        (idx : ℕ)
        → found_at at v s ≡ true
        → index_at at s ≡ some idx
        → idx_of_group v s ≡ ok (s, idx)
    unfolding idx_of_group
    found_lem idx e₁ e₂ = rw (e₁, e₂)

    added_lem :
        (t : OwaState D) (idx : ℕ)
        → found_at at v s ≡ false
        → add_group at v s ≡ ok t
        → index_at at t ≡ some idx
        → idx_of_group v s ≡ ok (t, idx)
    unfolding idx_of_group
    added_lem t idx e₁ e₂ e₃ = rw (e₁, e₂, e₃)

    pub idx_of_group-IsFound :
        s.num_groups < 2 ^ 29
        → (t : OwaState D) × (idx : ℕ) × (idx_of_group v s ≡ ok (t, idx))
          × (t.num_groups ≤ s.num_groups + 1)
          × IsFound m v idx t
    idx_of_group-IsFound few = elim (Bool-cases (found_at at v s)) [
      | inl there ↦
          let (b, same) = found_there there in
          (
            s,
            p.indices at,
            found_lem (p.indices at) there (p.indexed at b),
            omega arith,
            record { represents = p; at = at; within = b; value = same; index = refl },
          )
      | inr absent ↦
          let new = not_there absent in
          let power = next_power-room (omega arith) in
          let (t, e, a) = added (bound.within) few power in
          let (q, b, ev, ei) = IsAdded-Represents m s p at v t bound new a in
          (
            t,
            q.indices at,
            added_lem t (q.indices at) absent e (q.indexed at b),
            let one_more = a.counted in omega arith,
            record { represents = q; at = at; within = b; value = ev; index = refl },
          )
    ]
