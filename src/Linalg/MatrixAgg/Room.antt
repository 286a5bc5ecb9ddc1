-- ===== src/Linalg/MatrixAgg/Room.antt =====
-- `reserve`: the storage with room for one more column.
use mathlib.Core.List.{append-nil, append_assoc}
use native.Mathlib.Nat.{two-pow-succ}
use madlibport.Base.{
  ℕ, suc, ◌+◌, ◌*◌, ◌%◌, ◌^◌, ◌≤◌, ◌<◌, ◌≡◌, refl, sym, ◌∙◌, ap, subst, true, false, ◌||◌, some,
  List, [], ◌∷◌, ◌++◌, arith, length, take, replicate, ltb, leb, inl, inr, Bool-cases,
  length-replicate, take-IsCopied, memcpy_lem,
}
use madlibport.Base.Outcome.{ok}
use madlibport.Doubles.{Double}
use madlibport.Utils.PowerOfTwo.{
  HasRoom, powers_same, next_power_of_two, next_power_of_two_lem, zero_of_16,
}
use madlibport.Linalg.MatrixOp.Pieces.{join}
use madlibport.Linalg.MatrixAgg.{reserve}
use madlibport.Linalg.MatrixAgg.Step.{MatrixAggState, grown, reserved_cols, cols_to_reserve}

pub mul_le : (r a b : ℕ) → a ≤ b → r * a ≤ r * b
mul_le r a b h = grind arith

pub column_room : (rows n room : ℕ) → suc n ≤ room → n * rows + rows ≤ rows * room
column_room rows n room h = grind arith

pub size_eq : (rows n m : ℕ) → m ≡ suc n → rows * m ≡ n * rows + rows
size_eq rows n m e = ap (λ (k : ℕ). rows * k) e ∙ (grind arith)

pub mul_swap : (a b : ℕ) → a * b ≡ b * a
mul_swap a b = grind arith

pub join_snoc : {A : Type 0} (xs : List (List A)) (x : List A) → join (xs ++ x ∷ []) ≡ join xs ++ x
join_snoc [] x = append-nil x
join_snoc (y ∷ ys) x = ap (λ zs. y ++ zs) (join_snoc ys x) ∙ sym (append_assoc y (join ys) x)

pub size_same : (a b r c : ℕ) → a ≡ r → b ≡ c → a * (b + 1) ≡ r * suc c
size_same a b r c e f =
    ap (λ (k : ℕ). k * (b + 1)) e
    ∙ ap (λ (k : ℕ). r * (k + 1)) f
    ∙ ap (λ (k : ℕ). r * k) (add_one c)
  where
    add_one : (n : ℕ) → n + 1 ≡ suc n
    add_one n = omega arith

pub record IsColumns {D : Type 0} (rows : ℕ) (xs : List (List D)) (storage : ℕ × ℕ × List D)
    : Type 0 where
  pub num_rows : storage.0 ≡ rows
  pub num_cols : storage.1 ≡ length xs
  pub columns : take (rows * length xs) storage.2 ≡ join xs
  pub room : ℕ
  pub sized : length storage.2 ≡ rows * room
  pub has_room : HasRoom (length xs) room

module _ {D : Type 0} ⦃d : Double D⦄ where
  -- The state after `reserve`: the columns, and room for one more.
  pub record IsReserved (rows cols : ℕ) (old : List D) (s : MatrixAggState D) : Type 0 where
    pub num_rows : s.num_rows ≡ rows
    pub num_cols : s.num_cols ≡ cols
    pub kept : take (rows * cols) s.cells ≡ old
    pub room : ℕ
    pub sized : length s.cells ≡ rows * room
    pub has_room : HasRoom (suc cols) room

  abbrev pub with_sizes : ℕ → ℕ → ℕ → ℕ → List D → MatrixAggState D
  with_sizes rows cols map_rows map_cols cells = record {
    num_rows = rows;
    num_cols = cols;
    map_rows = map_rows;
    map_cols = map_cols;
    cells = cells;
  }

  abbrev pub bound : ℕ → ℕ → ℕ → List D → MatrixAggState D
  bound rows cols map_cols cells = with_sizes rows cols rows map_cols cells

  -- A storage with fewer columns than there are to come is replaced by a larger one.
  grown-IsReserved :
      (rows cols map_cols room : ℕ) (cells : List D)
      → HasRoom (suc cols) room
      → cols ≤ map_cols
      → rows * cols ≤ length cells
      → (s : MatrixAggState D) × (grown room (bound rows cols map_cols cells) ≡ some s)
        × IsReserved rows cols (take (rows * cols) cells) s
  unfolding grown
  grown-IsReserved rows cols map_cols room cells h m f =
      let enough = h.enough in
      let fits : rows * cols ≤ rows * room = grind arith in
      let long = length-replicate (rows * room) d.nought in
      let (out, e, c) =
        memcpy_lem (replicate (rows * room) d.nought) 0 cells 0 (rows * cols) (omega arith)
          (omega arith) in
      let t : (ltb room cols || ltb map_cols cols) ≡ false = ground arith in
      let zero_add : 0 + rows * cols ≡ rows * cols = omega arith in
      (
        bound rows cols room out,
        rw t (rw e),
        record {
          num_rows = refl;
          num_cols = refl;
          kept =
              ap (λ (n : ℕ). take n out) (sym zero_add)
              ∙ take-IsCopied (replicate (rows * room) d.nought) 0 cells (rows * cols) out
                  (omega arith) f c;
          room = room;
          sized = c.same_length ∙ long;
          has_room = h;
        },
      )

  reserve_full :
      (t s : MatrixAggState D) (reserved room : ℕ)
      → reserved_cols t ≡ reserved
      → leb reserved t.num_cols ≡ true
      → cols_to_reserve reserved ≡ room
      → grown room t ≡ some s
      → reserve t ≡ ok s
  unfolding reserve
  reserve_full t s reserved room e₁ e₂ e₃ e₄ = rw (e₁, e₂, e₃, e₄)

  reserve_left :
      (t : MatrixAggState D) (reserved : ℕ)
      → reserved_cols t ≡ reserved
      → leb reserved t.num_cols ≡ false
      → reserve t ≡ ok t
  unfolding reserve
  reserve_left t reserved e₁ e₂ = rw (e₁, e₂)

  pub reserve-IsReserved_empty :
      (rows : ℕ) (cells : List D)
      → (s : MatrixAggState D) × (reserve (bound rows 0 0 cells) ≡ ok s) × IsReserved rows 0 [] s
  unfolding reserve
  reserve-IsReserved_empty rows cells =
      let none_yet : rows * 0 ≡ 0 = omega arith in
      let (s, e, p) =
        grown-IsReserved rows 0 0 1 cells
          (record { exponent = 0; power = refl; enough = omega arith; least = omega arith })
          (omega arith) (omega arith) in
      let zero : next_power_of_two 16 (0 % 2 ^ 16) ≡ 0 = zero_of_16 in
      (
        s,
        reserve_full (bound rows 0 0 cells) s 0 1 zero refl refl e,
        subst (λ (n : ℕ). IsReserved rows 0 (take n cells) s) none_yet p,
      )

  -- With some columns, as many as a type of 16 digits can double.
  pub reserve-IsReserved :
      (rows cols room : ℕ) (cells : List D)
      → 0 < cols
      → cols ≤ 2 ^ 15
      → length cells ≡ rows * room
      → HasRoom cols room
      → (s : MatrixAggState D) × (reserve (bound rows cols cols cells) ≡ ok s)
        × IsReserved rows cols (take (rows * cols) cells) s
  unfolding reserve
  reserve-IsReserved rows cols room cells pos few sized h =
      let small : cols % 2 ^ 16 ≡ cols = omega arith in
      let (e, power, enough, least) = next_power_of_two_lem 15 cols pos few in
      let reserved : next_power_of_two 16 (cols % 2 ^ 16) ≡ 2 ^ e =
        ap (next_power_of_two 16) small ∙ power in
      let enough' = h.enough in
      let least' = h.least in
      let same : room ≡ 2 ^ e =
        h.power
        ∙ powers_same h.exponent e cols (subst (λ (n : ℕ). cols ≤ n) h.power h.enough)
            (subst (λ (n : ℕ). n < cols + cols) h.power h.least) enough least in
      elim (Bool-cases (leb (2 ^ e) cols)) [
        | inl full ↦
            let more : cols_to_reserve (2 ^ e) ≡ 2 ^ e * 2 = ground arith in
            let fits : rows * cols ≤ length cells = rw sized (mul_le rows cols room enough') in
            let (s, e', p) =
              grown-IsReserved rows cols cols (2 ^ e * 2) cells
                (record {
                  exponent = suc e;
                  power = omega (arith, two-pow-succ e);
                  enough = omega arith;
                  least = ground arith;
                })
                (omega arith) fits in
            (
              s,
              reserve_full (bound rows cols cols cells) s (2 ^ e) (2 ^ e * 2) reserved full more e',
              p,
            )
        | inr left ↦ (
          bound rows cols cols cells,
          reserve_left (bound rows cols cols cells) (2 ^ e) reserved left,
          record {
            num_rows = refl;
            num_cols = refl;
            kept = refl;
            room = room;
            sized = sized;
            has_room = record {
              exponent = h.exponent;
              power = h.power;
              enough = ground arith;
              least = omega arith;
            };
          },
        )
      ]
