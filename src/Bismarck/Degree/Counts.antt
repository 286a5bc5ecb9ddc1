-- ===== src/Bismarck/Degree/Counts.antt =====
-- What the counts hold after updates and merges.
use madlibport.Base.{
  Returns, Returns-of, ℕ, zero, suc, ◌+◌, ◌-◌, ◌%◌, ◌^◌, ◌≤◌, ◌<◌, ◌≡◌, refl, ◌∙◌, none, some, List,
  [], ◌∷◌, ◌++◌, arith, length, get_elem?, set?, replicate, ltb, ◌==◌, if◌then◌else◌, leb, Bool,
  true, false, All, for_loop-inv_zero, get_elem?-some, set?-some, get_elem?-set?, length-set?,
  length-append, length-replicate, get_elem?-none,
}
use madlibport.Bismarck.Degree.{
  Degrees, deg_init, deg_realloc, deg_update, add_degree, deg_merge, deg_run,
}

-- The count at an index, 0 where the array does not reach.
abbrev pub degree : Degrees → ℕ → ℕ
degree m i = elim (get_elem? m i) [ none ↦ 0 | some u ↦ u ]

abbrev pub count : ℕ → List ℕ → ℕ
count i [] = 0
count i (n ∷ ns) = (if n == i then 1 else 0) + count i ns

abbrev pub AreWords : Degrees → Type 0
AreWords m = (i : ℕ) → degree m i < 2 ^ 64

-- An index of which the array of all counts up to it has a size in bytes below 2^64.
abbrev pub IsIndex : ℕ → Type 0
IsIndex n = n < 2 ^ 61 - 1

-- The first update of an aggregate writes out of bounds, whatever the index: the block that
-- `DegRealloc` allocates for an empty array is not installed.
pub deg_run-init : (n : ℕ) (ns : List ℕ) → deg_run (n ∷ ns) deg_init ≡ none
unfolding deg_run deg_init deg_update deg_realloc
deg_run-init n ns = ground arith

degree-replicate : (n i : ℕ) → degree (replicate n 0) i ≡ 0
degree-replicate zero i = refl
degree-replicate (suc n) zero = refl
degree-replicate (suc n) (suc i) = degree-replicate n i

degree-grow : (m : Degrees) (n i : ℕ) → degree (m ++ replicate n 0) i ≡ degree m i
degree-grow [] n i = degree-replicate n i
degree-grow (u ∷ m) n zero = refl
degree-grow (u ∷ m) n (suc i) = degree-grow m n i

-- A non-empty array grows to the length asked for, and keeps its counts.
deg_realloc_lem :
    (m : Degrees) (len : ℕ)
    → 0 < length m
    → length m ≤ len
    → len < 2 ^ 61
    → (d : Degrees) × (deg_realloc m len ≡ some d)
      × (length d ≡ len)
      × ((i : ℕ) → degree d i ≡ degree m i)
unfolding deg_realloc
deg_realloc_lem m len h longer few = (
  m ++ replicate (len - length m) 0,
  ground arith,
  ground (
    arith,
    length-append m (replicate (len - length m) 0),
    length-replicate {A = ℕ} (len - length m) 0,
  ),
  degree-grow m (len - length m),
)

-- The room that an array is given if `test` finds it too short for `len`.
deg_room_lem :
    (m : Degrees) (len : ℕ) (test : Bool)
    → 0 < length m
    → (test ≡ true → (length m ≤ len) × (len < 2 ^ 61))
    → (test ≡ false → len ≤ length m)
    → (d : Degrees) × ((if test then deg_realloc m len else some m) ≡ some d)
      × (len ≤ length d)
      × (length m ≤ length d)
      × ((i : ℕ) → degree d i ≡ degree m i)
deg_room_lem m len true h grow keep =
    let (longer, few) = grow refl in
    let (d, e, size, same) = deg_realloc_lem m len h longer few in
    (d, e, omega arith, omega arith, same)
deg_room_lem m len false h grow keep = (m, refl, keep refl, omega arith, λ i. refl)

degree-some : (m : Degrees) (i : ℕ) {u : ℕ} → get_elem? m i ≡ some u → degree m i ≡ u
degree-some m i e = ground (arith, e)

-- One write of the array, as a change of the counts.
degree-set? :
    (d : Degrees) (n v : ℕ) {d' : Degrees}
    → set? d n v ≡ some d'
    → (i : ℕ) → degree d' i ≡ (if n == i then v else degree d i)
degree-set? d n v e i = ground (arith, get_elem?-set? d n i v e)

deg_update_lem :
    (m : Degrees) (n : ℕ)
    → 0 < length m
    → n < 2 ^ 61 - 1
    → (m' : Degrees) × (deg_update m n ≡ some m')
      × (n < length m')
      × (length m ≤ length m')
      × ((i : ℕ) → degree m' i ≡ (if n == i then (degree m i + 1) % 2 ^ 64 else degree m i))
unfolding deg_update
deg_update_lem m n h small =
    let len : (n + 1) % 2 ^ 64 ≡ n + 1 = omega arith in
    let (d, ed, room, longer, same) =
      deg_room_lem m ((n + 1) % 2 ^ 64) (leb (length m) n) h
        (λ e. (ground (arith, len), omega arith)) (λ e. ground (arith, len)) in
    let (u, eu) = get_elem?-some d n (omega arith) in
    let (m', em) = set?-some d n ((u + 1) % 2 ^ 64) (omega arith) in
    let size = length-set? d n ((u + 1) % 2 ^ 64) em in
    (
      m',
      rw (ed, eu) em,
      omega arith,
      omega arith,
      λ i. ground (arith, degree-set? d n ((u + 1) % 2 ^ 64) em i, same i, degree-some d n eu),
    )

deg_run_counts :
    (ns : List ℕ) (m : Degrees)
    → 0 < length m
    → AreWords m
    → All IsIndex ns
    → (m' : Degrees) × (deg_run ns m ≡ some m')
      × (length m ≤ length m')
      × ((i : ℕ) → degree m' i ≡ (degree m i + count i ns) % 2 ^ 64)
unfolding deg_run
deg_run_counts [] m h w small = (m, refl, omega arith, λ i. omega (arith, w i))
deg_run_counts (n ∷ ns) m h w small =
    let (m₁, e, _, longer, cells) = deg_update_lem m n h small.0 in
    let (m', e', longer', cells') =
      deg_run_counts ns m₁ (omega arith) (λ i. ground (arith, cells i, w i)) small.1 in
    (m', rw e e', omega arith, λ i. cells' i ∙ ground (arith, cells i, w i))

-- From an array that is not empty, updates at indices below 2^61 - 1 never fault, and each count
-- grows, in 64 bits, by the number of times that its index was seen.
pub deg_run_lem :
    (ns : List ℕ) (m : Degrees)
    → 0 < length m
    → AreWords m
    → All IsIndex ns
    → Returns (λ m'. (i : ℕ) → degree m' i ≡ (degree m i + count i ns) % 2 ^ 64) (deg_run ns m)
deg_run_lem ns m h w small =
    let (m', e, _, cells) = deg_run_counts ns m h w small in Returns-of _ _ e cells

-- A merge of fewer than 2^61 counts into an array that is not empty never faults, and adds the counts in 64 bits.
pub deg_merge_lem :
    (m dst : Degrees)
    → 0 < length dst
    → AreWords dst
    → length m < 2 ^ 61
    → Returns (λ d. (i : ℕ) → degree d i ≡ (degree dst i + degree m i) % 2 ^ 64) (deg_merge m dst)
unfolding deg_merge
deg_merge_lem m dst h w few =
    let (start, es, room, longer, same) =
      deg_room_lem dst (length m) (ltb (length dst) (length m)) h (λ e. (ground arith, few))
        (λ e. ground arith) in
    let P : ℕ → Degrees → Type 0 = λ k d.
      (length d ≡ length start)
      × ((i : ℕ)
          → degree d i
            ≡ (if ltb i k then (degree dst i + degree m i) % 2 ^ 64 else degree dst i)) in
    let (d, e, (size, cells)) =
      for_loop-inv_zero P (add_degree m) (length m) start
        (λ k d lt (size, cells).
          let (u, eu) = get_elem?-some d k (omega arith) in
          let (v, ev) = get_elem?-some m k lt in
          let (d', ed) = set?-some d k ((u + v) % 2 ^ 64) (omega arith) in
          (
            d',
            rw (eu, ev) ed,
            (
              length-set? d k ((u + v) % 2 ^ 64) ed ∙ size,
              λ i. ground (
                arith,
                degree-set? d k ((u + v) % 2 ^ 64) ed i,
                cells i,
                degree-some d k eu,
                degree-some m k ev,
              ),
            ),
          ))
        (refl, λ i. ground (arith, same i)) in
    let done : deg_merge m dst ≡ some d = rw es e in
    Returns-of _ _ done (λ i. ground (arith, cells i, w i, get_elem?-none m i))
