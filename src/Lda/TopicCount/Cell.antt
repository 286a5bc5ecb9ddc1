-- ===== src/Lda/TopicCount/Cell.antt =====
-- Where the model counts a word with a topic: rows by `topic_num` cells.
use madlibport.Base.{
  ℕ, ◌+◌, ◌*◌, ◌<◌, ◌≡◌, ◌∙◌, ap, ◌&&◌, some, List, arith, length, get_elem?, ◌==◌, ltb,
  if◌then◌else◌, get_elem?-set?, ℕ_discrete, inl, inr, Bool-cases,
}
use madlibport.Base.Int.{ℤ}
use madlibport.Lda.Arrays.{modify}
use madlibport.Lda.Gibbs.Counting.{modify_lem}

row-lt : (n v topic_num t z : ℕ) → n < v → t < topic_num → n * topic_num + t < v * topic_num + z
row-lt n v topic_num t z h ht = grind arith

pub same_cell :
    (n v topic_num t z : ℕ)
    → t < topic_num
    → z < topic_num
    → (n * topic_num + t == v * topic_num + z) ≡ ((n == v) && (t == z))
same_cell n v topic_num t z ht hz = elim (Bool-cases (ltb n v)) [
  | inl p ↦ let below = row-lt n v topic_num t z (ground arith) ht in ground arith
  | inr p ↦ elim (Bool-cases (ltb v n)) [
    | inl q ↦ let above = row-lt v n topic_num z t (ground arith) hz in ground arith
    | inr q ↦ let same : n ≡ v = ground arith in rw same (ground arith)
  ]
]

-- What a read-modify-write leaves at each index.
pub modify_cell :
    (xs : List ℤ) (i : ℕ) (f : ℤ → ℤ)
    → i < length xs
    → (ys : List ℤ) × (modify xs i f ≡ some ys)
      × (length ys ≡ length xs)
      × ((j : ℕ) (x : ℤ)
          → get_elem? xs j ≡ some x
          → get_elem? ys j ≡ some (if i == j then f x else x))
modify_cell xs i f h =
    let (a, ys, ea, em, es, el) = modify_lem xs i f h in
    (
      ys,
      em,
      el,
      λ j x ex. elim (ℕ_discrete i j) [
        | yes p ↦
            let same : a ≡ x = cc (ap (get_elem? xs) p) in
            get_elem?-set? xs i j (f a) es ∙ ground arith
        | no p ↦ get_elem?-set? xs i j (f a) es ∙ ground arith
      ],
    )
