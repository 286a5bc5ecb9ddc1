-- ===== src/Stats/Anova/Represents.antt =====
-- The groups that a state of the one-way ANOVA stands for: a sample for each group value.
use madlibport.Base.{
  ℕ, ◌+◌, ◌-◌, ◌≤◌, ◌<◌, ◌≡◌, ◌≢◌, sym, ◌∙◌, ap, ◌⊎◌, true, false, some, List, arith, length,
  get_elem?, ltb, ◌==◌, if◌then◌else◌, dec_lt, ℕ_discrete,
}
use madlibport.Doubles.{Double}
use madlibport.Utils.PowerOfTwo.{HasRoom}
use madlibport.Stats.Samples.{Sample, no_values}
use madlibport.Stats.Anova.Step.{OwaState}
use madlibport.Stats.Anova.Bound.{Holds}
use madlibport.Stats.Anova.Insert.{IsInserted}

module _ {D : Type 0} where
  -- The sample with the index `idx`.
  pub record IsAt (idx : ℕ) (x : Sample D) (s : OwaState D) : Type 0 where
    pub weight_at : get_elem? s.num idx ≡ some x.weight
    pub sum_at : get_elem? s.sum idx ≡ some x.sum
    pub squares_at : get_elem? s.corrected_square_sum idx ≡ some x.corrected

  pub record HasSizes (room : ℕ) (s : OwaState D) : Type 0 where
    pub values_sized : length s.group_values ≡ room
    pub indices_sized : length s.pos_to_indices ≡ room
    pub num_sized : length s.num ≡ room
    pub sum_sized : length s.sum ≡ room
    pub squares_sized : length s.corrected_square_sum ≡ room

abbrev pub AreDistinct : ℕ → (ℕ → ℕ) → Type 0
AreDistinct n f = (i j : ℕ) → i < n → j < n → f i ≡ f j → i ≡ j

-- The room for the groups: none for none, else the least power of two.
abbrev pub RoomFor : ℕ → ℕ → Type 0
RoomFor n room = ((n ≡ 0) × (room ≡ 0)) ⊎ ((0 < n) × HasRoom n room)

module _ {D : Type 0} ⦃d : Double D⦄ where
  -- The values of the groups are in ascending order; each stands with the index of its sample, and
  -- the samples without a group are empty.
  pub record Represents (m : ℕ → Sample D) (s : OwaState D) : Type 0 where
    pub values : ℕ → ℕ
    pub indices : ℕ → ℕ
    pub room : ℕ
    pub sizes : HasSizes room s
    pub room_for : RoomFor s.num_groups room
    pub holds : Holds s.num_groups s.group_values values
    pub indexed : (i : ℕ) → i < s.num_groups → get_elem? s.pos_to_indices i ≡ some (indices i)
    pub bounded : (i : ℕ) → i < s.num_groups → indices i < s.num_groups
    pub distinct : AreDistinct s.num_groups indices
    pub samples : (i : ℕ) → i < s.num_groups → IsAt (indices i) (m (values i)) s
    pub fresh : (i : ℕ) → s.num_groups ≤ i → i < room → IsAt i no_values s
    pub absent : (v : ℕ) → ((i : ℕ) → i < s.num_groups → values i ≢ v) → m v ≡ no_values

  -- What both ways to add a group do.
  pub record IsAdded (at v : ℕ) (s t : OwaState D) : Type 0 where
    pub counted : t.num_groups ≡ s.num_groups + 1
    pub new_value : IsInserted at s.num_groups v s.group_values t.group_values
    pub new_index : IsInserted at s.num_groups s.num_groups s.pos_to_indices t.pos_to_indices
    pub room : ℕ
    pub sizes : HasSizes room t
    pub has_room : HasRoom (s.num_groups + 1) room
    pub kept : (i : ℕ) (x : Sample D) → i < s.num_groups → IsAt i x s → IsAt i x t
    pub fresh : (i : ℕ) → s.num_groups ≤ i → i < room → IsAt i no_values t

-- The function of an array with an element between the others.
abbrev pub between : {A : Type 0} → ℕ → A → (ℕ → A) → ℕ → A
between at x f i = if ltb i at then f i else if i == at then x else f (i - 1)

pub between-IsInserted :
    {A : Type 0} (at n : ℕ) (x : A) (xs ys : List A) (f : ℕ → A)
    → at ≤ n
    → ((i : ℕ) → i < n → get_elem? xs i ≡ some (f i))
    → IsInserted at n x xs ys
    → (i : ℕ) → i < n + 1
    → get_elem? ys i ≡ some (between at x f i)
between-IsInserted {A} at n x xs ys f within h p i b = elim (dec_lt i at) [
  | yes lt ↦
      let test : ltb i at ≡ true = ground arith in rw test (p.before i lt ∙ h i (omega arith))
  | no ge ↦
      let test : ltb i at ≡ false = ground arith in
      elim (ℕ_discrete i at) [
        | yes e ↦
            let here : (i == at) ≡ true = ground arith in
            rw (test, here) (ap (get_elem? ys) e ∙ p.here)
        | no ne ↦
            let other : (i == at) ≡ false = ground arith in
            let back : i - 1 + 1 ≡ i = omega arith in
            rw (test, other)
              (ap (get_elem? ys) (sym back)
                ∙ p.after (i - 1) (omega arith) (omega arith)
                ∙ h (i - 1) (omega arith))
      ]
]

-- A statement about each element of such an array.
pub between_all :
    {A : Type 0} (P : A → Type 0) (at n : ℕ) (x : A) (f : ℕ → A)
    → at ≤ n
    → ((i : ℕ) → i < n → P (f i))
    → P x
    → (i : ℕ) → i < n + 1
    → P (between at x f i)
between_all P at n x f within h px i b = elim (dec_lt i at) [
  | yes lt ↦ let test : between at x f i ≡ f i = ground arith in rw test (h i (omega arith))
  | no ge ↦ elim (ℕ_discrete i at) [
    | yes e ↦ let test : between at x f i ≡ x = ground arith in rw test px
    | no ne ↦
        let test : between at x f i ≡ f (i - 1) = ground arith in rw test (h (i - 1) (omega arith))
  ]
]

pub between_both :
    {A B : Type 0} (P : A → B → Type 0) (at n : ℕ) (x : A) (y : B) (f : ℕ → A) (g : ℕ → B)
    → at ≤ n
    → ((i : ℕ) → i < n → P (f i) (g i))
    → P x y
    → (i : ℕ) → i < n + 1
    → P (between at x f i) (between at y g i)
between_both P at n x y f g within h px i b = elim (dec_lt i at) [
  | yes lt ↦
      let test₁ : between at x f i ≡ f i = ground arith in
      let test₂ : between at y g i ≡ g i = ground arith in rw (test₁, test₂) (h i (omega arith))
  | no ge ↦ elim (ℕ_discrete i at) [
    | yes e ↦
        let test₁ : between at x f i ≡ x = ground arith in
        let test₂ : between at y g i ≡ y = ground arith in rw (test₁, test₂) px
    | no ne ↦
        let test₁ : between at x f i ≡ f (i - 1) = ground arith in
        let test₂ : between at y g i ≡ g (i - 1) = ground arith in
        rw (test₁, test₂) (h (i - 1) (omega arith))
  ]
]

pub between_at : {A : Type 0} (at : ℕ) (x : A) (f : ℕ → A) → between at x f at ≡ x
between_at at x f = ground arith

-- Where an element stands now.
pub between_old :
    {A : Type 0} (at n : ℕ) (x : A) (f : ℕ → A) (i : ℕ)
    → i < n
    → (j : ℕ) × (j < n + 1) × (between at x f j ≡ f i)
between_old at n x f i b = elim (dec_lt i at) [
  | yes lt ↦ (i, omega arith, (ground arith))
  | no ge ↦
      let back : i + 1 - 1 ≡ i = omega arith in
      let test : between at x f (i + 1) ≡ f (i + 1 - 1) = ground arith in
      (i + 1, omega arith, test ∙ ap f back)
]

pub between_sorted :
    (at n v : ℕ) (f : ℕ → ℕ)
    → at ≤ n
    → ((i j : ℕ) → i < j → j < n → f i < f j)
    → ((i : ℕ) → i < at → f i < v)
    → ((i : ℕ) → at ≤ i → i < n → v < f i)
    → (i j : ℕ) → i < j
    → j < n + 1
    → between at v f i < between at v f j
between_sorted at n v f within sorted below above i j lt b =
    ground (arith, sorted i j, sorted i (j - 1), sorted (i - 1) (j - 1), below i, above (j - 1))

pub between_distinct :
    (at n v : ℕ) (f : ℕ → ℕ)
    → at ≤ n
    → AreDistinct n f
    → ((i : ℕ) → i < n → f i ≢ v)
    → AreDistinct (n + 1) (between at v f)
between_distinct at n v f within distinct new i j hi hj e = ground (
  arith,
  distinct i j,
  distinct i (j - 1),
  distinct (i - 1) j,
  distinct (i - 1) (j - 1),
  new i,
  new j,
  new (i - 1),
  new (j - 1),
)
