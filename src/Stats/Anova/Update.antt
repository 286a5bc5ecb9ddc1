-- ===== src/Stats/Anova/Update.antt =====
-- The write of the sample of a group.
use madlibport.Base.{
  ℕ, ◌<◌, ◌≡◌, ◌≢◌, refl, sym, ◌∙◌, ap, subst, true, false, some, arith, get_elem?, ◌==◌,
  if◌then◌else◌, set?-some, length-set?, get_elem?-set?, get_elem?_bound, dec_lt, ℕ_discrete,
}
use madlibport.Doubles.{Double}
use madlibport.Stats.Samples.{Sample, no_values, update_corrected_sum_of_squares}
use madlibport.Stats.Anova.Step.{OwaState, update_group, read_sample, write_sample}
use madlibport.Stats.Anova.Represents.{IsAt, HasSizes, RoomFor, Represents}

values_differ :
    (n i j : ℕ) (f : ℕ → ℕ)
    → ((i j : ℕ) → i < j → j < n → f i < f j)
    → i < n
    → j < n
    → i ≢ j
    → f i ≢ f j
values_differ n i j f sorted hi hj ne e = elim (dec_lt i j) [
  | yes lt ↦ let less = sorted i j lt hj in omega arith
  | no ge ↦ let less = sorted j i (omega arith) hi in omega arith
]

module _ {D : Type 0} ⦃d : Double D⦄ where
  -- Writing one sample.
  set_sample :
      (s : OwaState D) (idx : ℕ) (old x : Sample D)
      → IsAt idx old s
      → (t : OwaState D) × (write_sample idx x s ≡ some t)
        × (t.num_groups ≡ s.num_groups)
        × (t.group_values ≡ s.group_values)
        × (t.pos_to_indices ≡ s.pos_to_indices)
        × IsAt idx x t
        × ((i : ℕ) (y : Sample D) → idx ≢ i → IsAt i y s → IsAt i y t)
        × ((room : ℕ) → HasSizes room s → HasSizes room t)
  unfolding write_sample
  set_sample s idx old x q =
      let (num, e₁) = set?-some s.num idx x.weight (get_elem?_bound s.num idx q.weight_at) in
      let (sum, e₂) = set?-some s.sum idx x.sum (get_elem?_bound s.sum idx q.sum_at) in
      let (squares, e₃) =
        set?-some s.corrected_square_sum idx x.corrected
          (get_elem?_bound s.corrected_square_sum idx q.squares_at) in
      let self : (idx == idx) ≡ true = ground arith in
      (
        record s { num = num; sum = sum; corrected_square_sum = squares },
        rw (e₁, e₂, e₃),
        refl,
        refl,
        refl,
        record {
          weight_at = get_elem?-set? s.num idx idx x.weight e₁ ∙ rw self;
          sum_at = get_elem?-set? s.sum idx idx x.sum e₂ ∙ rw self;
          squares_at = get_elem?-set? s.corrected_square_sum idx idx x.corrected e₃ ∙ rw self;
        },
        λ i y ne r.
            let other : (idx == i) ≡ false = ground arith in
            record {
              weight_at = get_elem?-set? s.num idx i x.weight e₁ ∙ rw other r.weight_at;
              sum_at = get_elem?-set? s.sum idx i x.sum e₂ ∙ rw other r.sum_at;
              squares_at =
                  get_elem?-set? s.corrected_square_sum idx i x.corrected e₃
                  ∙ rw other r.squares_at;
            },
        λ room h. record {
          values_sized = h.values_sized;
          indices_sized = h.indices_sized;
          num_sized = length-set? s.num idx x.weight e₁ ∙ h.num_sized;
          sum_sized = length-set? s.sum idx x.sum e₂ ∙ h.sum_sized;
          squares_sized = length-set? s.corrected_square_sum idx x.corrected e₃ ∙ h.squares_sized;
        },
      )

  -- The samples with one of them changed.
  abbrev pub with_group : ℕ → Sample D → (ℕ → Sample D) → ℕ → Sample D
  with_group v x m w = if w == v then x else m w

  set_sample-Represents :
      (m : ℕ → Sample D) (s : OwaState D) (p : Represents m s) (i : ℕ) (x : Sample D)
      → i < s.num_groups
      → (t : OwaState D) × (write_sample (p.indices i) x s ≡ some t)
        × (t.num_groups ≡ s.num_groups)
        × Represents (with_group (p.values i) x m) t
  set_sample-Represents m s p i x b =
      let (t, e, en, ev, ei, at, other, sizes) =
        set_sample s (p.indices i) (m (p.values i)) x (p.samples i b) in
      (
        t,
        e,
        en,
        record {
          values = p.values;
          indices = p.indices;
          room = p.room;
          sizes = sizes p.room p.sizes;
          room_for = subst (λ (k : ℕ). RoomFor k p.room) (sym en) p.room_for;
          holds = record {
            cell = λ j c. ap (λ xs. get_elem? xs j) ev ∙ p.holds.cell j (omega arith);
            sorted = λ j k lt c. p.holds.sorted j k lt (omega arith);
          };
          indexed = λ j c. ap (λ xs. get_elem? xs j) ei ∙ p.indexed j (omega arith);
          bounded = λ j c. rw en (p.bounded j (omega arith));
          distinct = λ j k cj ck q. p.distinct j k (omega arith) (omega arith) q;
          samples = λ j c. elim (ℕ_discrete j i) [
            | yes here ↦
                let test : with_group (p.values i) x m (p.values i) ≡ x = ground arith in
                subst (λ (k : ℕ). IsAt (p.indices k) (with_group (p.values i) x m (p.values k)) t)
                  (sym here) (subst (λ y. IsAt (p.indices i) y t) (sym test) at)
            | no there ↦
                let apart =
                  values_differ s.num_groups j i p.values p.holds.sorted (omega arith) b there in
                let test : with_group (p.values i) x m (p.values j) ≡ m (p.values j) =
                  ground arith in
                subst (λ y. IsAt (p.indices j) y t) (sym test)
                  (other (p.indices j) (m (p.values j))
                    (λ q. there (p.distinct j i (omega arith) b (sym q)))
                    (p.samples j (omega arith)))
          ];
          fresh = λ j lo hi.
              other j no_values (λ q. let bound = p.bounded i b in absurd (omega arith))
                (p.fresh j (omega arith) hi);
          absent = λ w h.
              let apart : p.values i ≢ w = h i (omega arith) in
              let test : with_group (p.values i) x m w ≡ m w = ground arith in
              test ∙ p.absent w (λ j c. h j (omega arith));
        },
      )

  read_sample-IsAt :
      (s : OwaState D) (idx : ℕ) (x : Sample D) → IsAt idx x s → read_sample idx s ≡ some x
  unfolding read_sample
  read_sample-IsAt s idx x q = rw (q.weight_at, q.sum_at, q.squares_at)

  pub update_group-Represents :
      (m : ℕ → Sample D) (s : OwaState D) (p : Represents m s) (i : ℕ) (right : Sample D)
      → i < s.num_groups
      → (t : OwaState D) × (update_group (p.indices i) right s ≡ some t)
        × (t.num_groups ≡ s.num_groups)
        × Represents
            (with_group (p.values i) (update_corrected_sum_of_squares (m (p.values i)) right) m)
            t
  unfolding update_group
  update_group-Represents m s p i right b =
      let (t, e, en, q) =
        set_sample-Represents m s p i (update_corrected_sum_of_squares (m (p.values i)) right) b in
      (t, rw (read_sample-IsAt s (p.indices i) (m (p.values i)) (p.samples i b)) e, en, q)
