-- ===== src/Lda/Gibbs/Counting.antt =====
-- How the topic counts of a document follow its assignments.
use madlibport.Base.{
  ℕ, zero, suc, ◌+◌, ◌-◌, ◌≤◌, ◌<◌, ◌≡◌, ◌≢◌, refl, ◌∙◌, ap, true, false, some, List, [], ◌∷◌,
  arith, length, get_elem?, set?, drop, ◌==◌, if◌then◌else◌, get_elem?-some, set?-some, length-set?,
  get_elem?-set?, set?-cons, ℕ_discrete,
}
use madlibport.Base.Int.{ℤ, pos, negsuc, plus, inc, dec, dec-plus, inc-plus}
use madlibport.Lda.Arrays.{modify}
use madlibport.Lda.Gibbs.Word.{move_in_doc}

-- How many entries are the topic `z`.
abbrev pub is_topic : ℕ → ℤ → ℕ
is_topic z (pos t) = if t == z then 1 else 0
is_topic z (negsuc n) = 0

abbrev pub count_topic : ℕ → List ℤ → ℕ
count_topic z [] = 0
count_topic z (a ∷ xs) = is_topic z a + count_topic z xs

-- A write to the assignments trades one entry for another in the counts.
count_topic-set? :
    (z : ℕ) (xs : List ℤ) (i : ℕ) (v a : ℤ) {ys : List ℤ}
    → set? xs i v ≡ some ys
    → get_elem? xs i ≡ some a
    → count_topic z ys + is_topic z a ≡ count_topic z xs + is_topic z v
count_topic-set? z [] i v a e g = cc
count_topic-set? z (x ∷ xs) zero v a {ys} e g =
    let same : x ≡ a = cc in let here : v ∷ xs ≡ ys = cc in rw (← here, same) (omega arith)
count_topic-set? z (x ∷ xs) (suc i) v a e g =
    let (zs, e', h) = set?-cons x xs i v e in rw h (omega (arith, count_topic-set? z xs i v a e' g))

pub drop-set?_below :
    (n : ℕ) (xs : List ℤ) (i : ℕ) (v : ℤ) {ys : List ℤ}
    → i < n
    → set? xs i v ≡ some ys
    → drop n ys ≡ drop n xs
drop-set?_below zero xs i v h e = absurd (omega arith)
drop-set?_below (suc n) [] i v h e = cc
drop-set?_below (suc n) (x ∷ xs) zero v {ys} h e = let here : v ∷ xs ≡ ys = cc in rw (← here)
drop-set?_below (suc n) (x ∷ xs) (suc i) v h e =
    let (zs, e', h') = set?-cons x xs i v e in rw h' (drop-set?_below n xs i v (omega arith) e')

count_topic-drop-set? :
    (z n : ℕ) (xs : List ℤ) (i : ℕ) (v a : ℤ) {ys : List ℤ}
    → n ≤ i
    → set? xs i v ≡ some ys
    → get_elem? xs i ≡ some a
    → count_topic z (drop n ys) + is_topic z a ≡ count_topic z (drop n xs) + is_topic z v
count_topic-drop-set? z zero xs i v a h e g = count_topic-set? z xs i v a e g
count_topic-drop-set? z (suc n) [] i v a h e g = cc
count_topic-drop-set? z (suc n) (x ∷ xs) zero v a h e g = absurd (omega arith)
count_topic-drop-set? z (suc n) (x ∷ xs) (suc i) v a h e g =
    let (zs, e', h') = set?-cons x xs i v e in
    rw h' (count_topic-drop-set? z n xs i v a (omega arith) e' g)

-- A read-modify-write at an index within the list.
pub modify_lem :
    (xs : List ℤ) (i : ℕ) (f : ℤ → ℤ)
    → i < length xs
    → (a : ℤ) × (ys : List ℤ) × (get_elem? xs i ≡ some a)
      × (modify xs i f ≡ some ys)
      × (set? xs i (f a) ≡ some ys)
      × (length ys ≡ length xs)
modify_lem xs i f h =
    let (a, ea) = get_elem?-some xs i h in
    let (ys, ey) = set?-some xs i (f a) h in (a, ys, ea, rw ea ey, ey, length-set? xs i (f a) ey)

-- The document has a count for each topic, then assignments of those topics, and each count is off
-- by `excess` from the number of assignments of its topic.
pub record IsDoc (topic_num : ℕ) (excess : ℕ → ℤ) (doc : List ℤ) : Type 0 where
  pub has_counts : topic_num ≤ length doc
  pub assigned :
      (i : ℕ)
      → topic_num ≤ i
      → i < length doc
      → (t : ℕ) × (get_elem? doc i ≡ some (pos t)) × (t < topic_num)
  pub counted :
      (z : ℕ)
      → z < topic_num
      → get_elem? doc z ≡ some (plus (excess z) (count_topic z (drop topic_num doc)))

is_topic-le :
    (z n : ℕ) (xs : List ℤ) (i : ℕ) (a : ℤ)
    → n ≤ i
    → get_elem? xs i ≡ some a
    → is_topic z a ≤ count_topic z (drop n xs)
is_topic-le z zero [] i a h g = cc
is_topic-le z zero (x ∷ xs) zero a h g = let same : x ≡ a = cc in rw same (omega arith)
is_topic-le z zero (x ∷ xs) (suc i) a h g = omega (arith, is_topic-le z zero xs i a (omega arith) g)
is_topic-le z (suc n) [] i a h g = cc
is_topic-le z (suc n) (x ∷ xs) zero a h g = absurd (omega arith)
is_topic-le z (suc n) (x ∷ xs) (suc i) a h g = is_topic-le z n xs i a (omega arith) g

is_topic_self : (z : ℕ) → is_topic z (pos z) ≡ 1
is_topic_self z = ground arith

is_topic_other : (z t : ℕ) → t ≢ z → is_topic z (pos t) ≡ 0
is_topic_other z t h = ground arith

==-true : (a b : ℕ) → a ≡ b → (a == b) ≡ true
==-true a b h = ground arith

==-false : (a b : ℕ) → a ≢ b → (a == b) ≡ false
==-false a b h = ground arith

-- The new count of topic `z`, once topic `t` was counted down and topic `r` up.
moved_count :
    (e c : ℤ) (old new t r z : ℕ)
    → c ≡ plus e old
    → is_topic z (pos t) ≤ old
    → new + is_topic z (pos t) ≡ old + is_topic z (pos r)
    → (if r == z then inc (if t == z then dec c else c) else (if t == z then dec c else c))
      ≡ plus e new
moved_count e c old new t r z ec occurs trade = elim (ℕ_discrete t z) [
  | yes p ↦
      let one : is_topic z (pos t) ≡ 1 = ground arith in
      let back : dec c ≡ plus e (old - 1) =
        ap dec ec ∙ ap (λ (k : ℕ). dec (plus e k)) (omega arith) ∙ dec-plus e (old - 1) in
      elim (ℕ_discrete r z) [
        | yes q ↦
            let one' : is_topic z (pos r) ≡ 1 = ground arith in
            rw (==-true t z p, ==-true r z q, back)
              (inc-plus e (old - 1) ∙ ap (plus e) (omega arith))
        | no q ↦
            let none' : is_topic z (pos r) ≡ 0 = is_topic_other z r q in
            rw (==-true t z p, ==-false r z q, back) (ap (plus e) (omega arith))
      ]
  | no p ↦
      let none' : is_topic z (pos t) ≡ 0 = is_topic_other z t p in
      elim (ℕ_discrete r z) [
        | yes q ↦
            let one : is_topic z (pos r) ≡ 1 = ground arith in
            rw (==-false t z p, ==-true r z q, ec) (inc-plus e old ∙ ap (plus e) (omega arith))
        | no q ↦
            let none'' : is_topic z (pos r) ≡ 0 = is_topic_other z r q in
            rw (==-false t z p, ==-false r z q, ec) (ap (plus e) (omega arith))
      ]
]

-- One topic counted down, then one up.
two_moves :
    (d₁ : List ℤ) (t r z : ℕ) (c c' x : ℤ) {d₂ d₃ : List ℤ}
    → get_elem? d₁ t ≡ some c
    → set? d₁ t (dec c) ≡ some d₂
    → get_elem? d₂ r ≡ some c'
    → set? d₂ r (inc c') ≡ some d₃
    → get_elem? d₁ z ≡ some x
    → get_elem? d₃ z
      ≡ some (if r == z then inc (if t == z then dec x else x) else (if t == z then dec x else x))
two_moves d₁ t r z c c' x {d₂} {d₃} ec s₂ ec' s₃ ex =
    let mid : get_elem? d₂ z ≡ some (if t == z then dec x else x) = elim (ℕ_discrete t z) [
      | yes p ↦
          let same : c ≡ x = cc (ap (get_elem? d₁) p) in
          get_elem?-set? d₁ t z (dec c) s₂ ∙ rw (==-true t z p, same)
      | no p ↦ get_elem?-set? d₁ t z (dec c) s₂ ∙ rw (==-false t z p) ex
    ] in
    elim (ℕ_discrete r z) [
      | yes q ↦
          let same : c' ≡ (if t == z then dec x else x) = cc (ap (get_elem? d₂) q) in
          get_elem?-set? d₂ r z (inc c') s₃ ∙ rw (==-true r z q, same)
      | no q ↦ get_elem?-set? d₂ r z (inc c') s₃ ∙ rw (==-false r z q) mid
    ]

-- A reassignment of the word at an index behind the counts keeps the document in order.
pub move_in_doc-IsDoc :
    (topic_num : ℕ) (excess : ℕ → ℤ) (doc : List ℤ) (index t r : ℕ)
    → IsDoc topic_num excess doc
    → topic_num ≤ index
    → index < length doc
    → get_elem? doc index ≡ some (pos t)
    → t < topic_num
    → r < topic_num
    → (doc' : List ℤ) × (move_in_doc index t r doc ≡ some doc')
      × (length doc' ≡ length doc)
      × IsDoc topic_num excess doc'
unfolding move_in_doc
move_in_doc-IsDoc topic_num excess doc index t r v lo hi et ht hr =
    let (d₁, e₁) = set?-some doc index (pos r) hi in
    let l₁ = length-set? doc index (pos r) e₁ in
    let (c, d₂, ec, e₂, s₂, l₂) = modify_lem d₁ t dec (omega (arith, v.has_counts)) in
    let (c', d₃, ec', e₃, s₃, l₃) = modify_lem d₂ r inc (omega (arith, v.has_counts)) in
    let g₁ = λ (i : ℕ). get_elem?-set? doc index i (pos r) e₁ in
    let g₂ = λ (i : ℕ). get_elem?-set? d₁ t i (dec c) s₂ in
    let g₃ = λ (i : ℕ). get_elem?-set? d₂ r i (inc c') s₃ in
    let tail : drop topic_num d₃ ≡ drop topic_num d₁ =
      drop-set?_below topic_num d₂ r (inc c') hr s₃
      ∙ drop-set?_below topic_num d₁ t (dec c) ht s₂ in
    let total : length d₃ ≡ length doc = l₃ ∙ l₂ ∙ l₁ in
    (
      d₃,
      rw (e₁, e₂, e₃),
      total,
      record {
        has_counts = omega (arith, v.has_counts);
        assigned = λ i low high.
            let (u, eu, hu) = v.assigned i low (omega arith) in
            let kept : get_elem? d₃ i ≡ get_elem? d₁ i =
              g₃ i ∙ rw (==-false r i (omega arith)) (g₂ i ∙ rw (==-false t i (omega arith))) in
            elim (ℕ_discrete index i) [
              | yes here ↦ (r, kept ∙ g₁ i ∙ rw (==-true index i here), hr)
              | no there ↦ (u, kept ∙ g₁ i ∙ rw (==-false index i there) eu, hu)
            ];
        counted = λ z hz.
            let old = v.counted z hz in
            let kept : get_elem? d₁ z ≡ get_elem? doc z =
              g₁ z ∙ rw (==-false index z (omega arith)) in
            two_moves d₁ t r z c c' _ ec s₂ ec' s₃ (kept ∙ old)
            ∙ ap some (
                moved_count (excess z) _ (count_topic z (drop topic_num doc))
                  (count_topic z (drop topic_num d₃)) t r z refl
                  (is_topic-le z topic_num doc index (pos t) lo et)
                  (rw tail (count_topic-drop-set? z topic_num doc index (pos r) (pos t) lo e₁ et)));
      },
    )
