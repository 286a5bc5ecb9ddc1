-- ===== src/Stats/Anova/Groups.antt =====
-- A new group, in the storage that there is and in a larger one.
use madlibport.Base.{
  ◌^◌, ◌*◌, true, ltb, ℕ, ◌+◌, ◌≤◌, ◌<◌, ◌≡◌, ◌≢◌, refl, sym, ◌∙◌, ap, subst, inr, false, some,
  List, arith, length, get_elem?, replicate, in_range, length-replicate, get_elem?-replicate,
  memcpy, memcpy_lem, ℕ_discrete,
}
use madlibport.Doubles.{Double}
use madlibport.Utils.PowerOfTwo.{HasRoom}
use madlibport.Stats.Samples.{Sample, no_values}
use madlibport.Stats.Anova.Step.{OwaState, insert_in_place, insert_grown}
use madlibport.Stats.Anova.Bound.{IsBound}
use madlibport.Stats.Anova.Insert.{insert_at-IsInserted, insert_into-IsInserted}
use madlibport.Stats.Anova.Represents.{
  IsAt, Represents, IsAdded, between, between-IsInserted, between_all, between_sorted,
  between_distinct, between_both, between_at, between_old,
}

-- The beginning of an array in a larger one that is filled with one value.
record IsMoved {A : Type 0} (z : A) (xs : List A) (n reserved : ℕ) (out : List A) : Type 0 where
  sized : length out ≡ reserved
  old : (i : ℕ) → i < n → get_elem? out i ≡ get_elem? xs i
  new : (i : ℕ) → n ≤ i → i < reserved → get_elem? out i ≡ some z

moved :
    {A : Type 0} (z : A) (xs : List A) (n reserved : ℕ)
    → n ≤ length xs
    → n ≤ reserved
    → (out : List A) × (memcpy (replicate reserved z) 0 xs 0 n ≡ some out)
      × IsMoved z xs n reserved out
moved z xs n reserved h k =
    let long = length-replicate reserved z in
    let (out, e, c) = memcpy_lem (replicate reserved z) 0 xs 0 n (omega arith) (omega arith) in
    (
      out,
      e,
      record {
        sized = c.same_length ∙ long;
        old = λ i b.
            let z_add : 0 + i ≡ i = omega arith in
            ap (get_elem? out) (sym z_add) ∙ c.inside i b ∙ ap (get_elem? xs) z_add;
        new = λ i lo hi.
            let out_of : in_range 0 n i ≡ false = ground arith in
            c.outside i out_of ∙ get_elem?-replicate reserved i z hi;
      },
    )

module _ {D : Type 0} ⦃d : Double D⦄ (m : ℕ → Sample D) (s : OwaState D) (p : Represents m s) where
  abbrev n : ℕ
  n = s.num_groups

  greater :
      (at v : ℕ)
      → IsBound v n p.values at
      → ((i : ℕ) → i < n → p.values i ≢ v)
      → (i : ℕ) → at ≤ i
      → i < n
      → v < p.values i
  greater at v b new i lo hi =
      let le = b.above i lo hi in
      let ne = new i hi in
      elim (ℕ_discrete (p.values i) v) [ yes e ↦ absurd (ne e) | no q ↦ omega arith ]

  -- With the group at its place, the state stands for the same samples.
  pub IsAdded-Represents :
      (at v : ℕ) (t : OwaState D)
      → IsBound v n p.values at
      → ((i : ℕ) → i < n → p.values i ≢ v)
      → IsAdded at v s t
      → (q : Represents m t) × (at < t.num_groups) × (q.values at ≡ v) × (q.indices at ≡ n)
  IsAdded-Represents at v t b new a =
      let within = b.within in
      let counted = a.counted in
      let small : (j : ℕ) → j < n → p.indices j < t.num_groups =
        λ j cj. let bound = p.bounded j cj in omega arith in
      let ne_bound : (k : ℕ) → k < n → p.indices k ≢ n =
        λ k ck e. let bound = p.bounded k ck in omega arith in
      let empty : m v ≡ no_values = p.absent v new in
      (
        record {
          values = between at v p.values;
          indices = between at n p.indices;
          room = a.room;
          sizes = a.sizes;
          room_for = rw counted (inr (omega arith, a.has_room));
          holds = record {
            cell = λ i c.
                between-IsInserted at n v s.group_values t.group_values p.values within p.holds.cell
                  a.new_value i (omega arith);
            sorted = λ i j lt c.
                between_sorted at n v p.values within p.holds.sorted b.below (greater at v b new) i
                  j lt (omega arith);
          };
          indexed = λ i c.
              between-IsInserted at n n s.pos_to_indices t.pos_to_indices p.indices within p.indexed
                a.new_index i (omega arith);
          bounded = λ i c.
              between_all (λ k. k < t.num_groups) at n n p.indices within (λ j cj. small j cj)
                (omega arith) i (omega arith);
          distinct = λ i j ci cj e.
              between_distinct at n n p.indices within p.distinct (λ k ck. ne_bound k ck) i j
                (omega arith) (omega arith) e;
          samples = λ i c.
              between_both (λ k w. IsAt k (m w) t) at n n v p.indices p.values within
                (λ j cj. a.kept (p.indices j) (m (p.values j)) (p.bounded j cj) (p.samples j cj))
                (subst (λ x. IsAt n x t) (sym empty)
                  (a.fresh n (omega arith) (omega (arith, a.has_room.enough))))
                i (omega arith);
          fresh = λ i lo hi. a.fresh i (omega arith) hi;
          absent = λ w h. p.absent w (λ i c e.
              let (j, cj, ej) = between_old at n v p.values i c in h j (omega arith) (ej ∙ e));
        },
        omega arith,
        between_at at v p.values,
        between_at at n p.indices,
      )

  -- The group in the storage that there is.
  pub insert_in_place-IsAdded :
      (at v : ℕ)
      → at ≤ n
      → n < p.room
      → HasRoom (n + 1) p.room
      → (t : OwaState D) × (insert_in_place at v s ≡ some t) × IsAdded at v s t
  unfolding insert_in_place
  insert_in_place-IsAdded at v within room more =
      let sizes = p.sizes in
      let (values, e₁, l₁, q₁) =
        insert_at-IsInserted at n v s.group_values within (omega (arith, sizes.values_sized)) in
      let (indices, e₂, l₂, q₂) =
        insert_at-IsInserted at n n s.pos_to_indices within (omega (arith, sizes.indices_sized)) in
      (
        record s { num_groups = n + 1; group_values = values; pos_to_indices = indices },
        rw (e₁, e₂),
        record {
          counted = refl;
          new_value = q₁;
          new_index = q₂;
          room = p.room;
          sizes = record {
            values_sized = l₁ ∙ sizes.values_sized;
            indices_sized = l₂ ∙ sizes.indices_sized;
            num_sized = sizes.num_sized;
            sum_sized = sizes.sum_sized;
            squares_sized = sizes.squares_sized;
          };
          has_room = more;
          kept = λ i x b q. record {
            weight_at = q.weight_at;
            sum_at = q.sum_at;
            squares_at = q.squares_at;
          };
          fresh = λ i lo hi.
              let q = p.fresh i lo hi in
              record { weight_at = q.weight_at; sum_at = q.sum_at; squares_at = q.squares_at };
        },
      )

  -- The group in a larger storage.
  pub insert_grown-IsAdded :
      (reserved at v : ℕ)
      → at ≤ n
      → n ≤ p.room
      → HasRoom (n + 1) reserved
      → reserved ≤ 2 ^ 29
      → (t : OwaState D) × (insert_grown reserved at v s ≡ some t) × IsAdded at v s t
  unfolding insert_grown
  insert_grown-IsAdded reserved at v within full more few =
      let whole : ltb (1 + 5 * reserved) (2 ^ 32) ≡ true = ground arith in
      let sizes = p.sizes in
      let enough = more.enough in
      let zeros : List ℕ = replicate reserved 0 in
      let long : length zeros ≡ reserved = length-replicate reserved 0 in
      let (values, e₁, l₁, q₁) =
        insert_into-IsInserted at n v s.group_values within zeros
          (omega (arith, sizes.values_sized)) (omega arith) in
      let (indices, e₂, l₂, q₂) =
        insert_into-IsInserted at n n s.pos_to_indices within zeros
          (omega (arith, sizes.indices_sized)) (omega arith) in
      let (num, e₃, c₃) = moved 0 s.num n reserved (omega (arith, sizes.num_sized)) (omega arith) in
      let (sum, e₄, c₄) =
        moved d.nought s.sum n reserved (omega (arith, sizes.sum_sized)) (omega arith) in
      let (squares, e₅, c₅) =
        moved d.nought s.corrected_square_sum n reserved (omega (arith, sizes.squares_sized))
          (omega arith) in
      (
        record {
          num_groups = n + 1;
          group_values = values;
          pos_to_indices = indices;
          num = num;
          sum = sum;
          corrected_square_sum = squares;
        },
        rw (whole, e₁, e₂, e₃, e₄, e₅),
        record {
          counted = refl;
          new_value = q₁;
          new_index = q₂;
          room = reserved;
          sizes = record {
            values_sized = l₁ ∙ long;
            indices_sized = l₂ ∙ long;
            num_sized = c₃.sized;
            sum_sized = c₄.sized;
            squares_sized = c₅.sized;
          };
          has_room = more;
          kept = λ i x b q. record {
            weight_at = c₃.old i b ∙ q.weight_at;
            sum_at = c₄.old i b ∙ q.sum_at;
            squares_at = c₅.old i b ∙ q.squares_at;
          };
          fresh = λ i lo hi. record {
            weight_at = c₃.new i lo hi;
            sum_at = c₄.new i lo hi;
            squares_at = c₅.new i lo hi;
          };
        },
      )
