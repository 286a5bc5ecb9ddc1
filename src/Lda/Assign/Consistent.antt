-- ===== src/Lda/Assign/Consistent.antt =====
-- The counts and the assignments of a random assignment.
use madlibport.Base.{
  ℕ, zero, suc, ◌+◌, ◌-◌, ◌%◌, ◌<◌, ◌≡◌, sym, ◌∙◌, ap, subst, false, some, List, [], ◌∷◌, arith,
  length, get_elem?, set?, take, drop, replicate, ◌==◌, if◌then◌else◌, get_elem?-replicate,
  set?-some, length-set?, get_elem?-set?, set?-cons, length-replicate, length-drop, take_all,
  for_loop, for_loop-inv_zero, ℕ_discrete, >>=-eq-some,
}
use madlibport.Base.Int.{ℤ, pos, negsuc, pos_part, inc, lt_ℤ}
use madlibport.Base.Outcome.{ReturnsOrThrows, reject_rule}
use madlibport.Lda.Arrays.{modify}
use madlibport.Lda.Gibbs.Counting.{IsDoc, is_topic, count_topic, drop-set?_below}
use madlibport.Lda.TopicCount.Cell.{modify_cell}
use madlibport.Lda.Assign.{lda_random_assign}
use madlibport.Lda.Assign.Step.{assign_word}

count_topic-take-set? :
    (z i : ℕ) (xs : List ℤ) (v : ℤ) {ys : List ℤ}
    → set? xs i v ≡ some ys
    → count_topic z (take (suc i) ys) ≡ count_topic z (take i xs) + is_topic z v
count_topic-take-set? z i [] v e = cc
count_topic-take-set? z zero (x ∷ xs) v {ys} e =
    let here : v ∷ xs ≡ ys = cc in rw (← here) (omega arith)
count_topic-take-set? z (suc i) (x ∷ xs) v e =
    let (zs, e', h) = set?-cons x xs i v e in
    rw h (omega (arith, count_topic-take-set? z i xs v e'))

set?-drop :
    (n i : ℕ) (xs : List ℤ) (v : ℤ) {ys : List ℤ}
    → set? xs (n + i) v ≡ some ys
    → set? (drop n xs) i v ≡ some (drop n ys)
set?-drop zero i xs v {ys} e = subst (λ (k : ℕ). set? xs k v ≡ some ys) (omega arith) e
set?-drop (suc n) i [] v e = cc
set?-drop (suc n) i (x ∷ xs) v {ys} e =
    let shift : suc n + i ≡ suc (n + i) = omega arith in
    let (zs, e', h) =
      set?-cons x xs (n + i) v (subst (λ (k : ℕ). set? (x ∷ xs) k v ≡ some ys) shift e) in
    rw h (set?-drop n i xs v e')

drop-modify_below :
    (n i : ℕ) (xs : List ℤ) {ys : List ℤ}
    → i < n
    → modify xs i inc ≡ some ys
    → drop n ys ≡ drop n xs
drop-modify_below n i xs h e =
    let (a, ea, es) = >>=-eq-some (get_elem? xs i) _ e in drop-set?_below n xs i (inc a) h es

-- After `i` words.
record Assigned (topic_num words i : ℕ) (doc : List ℤ) : Type 0 where
  sized : length doc ≡ topic_num + words
  topics :
      (k : ℕ) → k < i → (t : ℕ) × (get_elem? doc (topic_num + k) ≡ some (pos t)) × (t < topic_num)
  counted :
      (z : ℕ)
      → z < topic_num
      → get_elem? doc z ≡ some (pos (count_topic z (take i (drop topic_num doc))))

inc_count : (z t n : ℕ) → (if t == z then inc (pos n) else pos n) ≡ pos (n + is_topic z (pos t))
inc_count z t n = ground arith

assign_word-Assigned :
    (topic_num words : ℕ) (random : ℕ → ℕ) (i : ℕ) (doc : List ℤ)
    → 0 < topic_num
    → i < words
    → Assigned topic_num words i doc
    → (doc' : List ℤ) × (assign_word topic_num random i doc ≡ some doc')
      × Assigned topic_num words (i + 1) doc'
unfolding assign_word
assign_word-Assigned topic_num words random i doc some_topic hi p =
    let t = random i % topic_num in
    let ht : t < topic_num = omega arith in
    let (d₁, e₁, l₁, c₁) = modify_cell doc t inc (omega (arith, p.sized)) in
    let (d₂, e₂) = set?-some d₁ (topic_num + i) (pos t) (omega (arith, p.sized)) in
    let g₂ = λ (j : ℕ). get_elem?-set? d₁ (topic_num + i) j (pos t) e₂ in
    let next : suc i ≡ i + 1 = omega arith in
    (
      d₂,
      rw e₁ e₂,
      record {
        sized = omega (arith, p.sized, length-set? d₁ (topic_num + i) (pos t) e₂);
        topics = λ k hk. elim (ℕ_discrete (topic_num + i) (topic_num + k)) [
          | yes here ↦ (t, g₂ (topic_num + k) ∙ ground arith, ht)
          | no there ↦
              let (u, eu, hu) = p.topics k (omega arith) in
              let kept = c₁ (topic_num + k) (pos u) eu in
              (u, g₂ (topic_num + k) ∙ ground (arith, kept), hu)
        ];
        counted = λ z hz.
            let kept = c₁ z _ (p.counted z hz) in
            let same = drop-modify_below topic_num t doc ht e₁ in
            let grown =
              count_topic-take-set? z i (drop topic_num d₁) (pos t)
                (set?-drop topic_num i d₁ (pos t) e₂) in
            let far : (topic_num + i == z) ≡ false = ground arith in
            g₂ z
            ∙ rw far (
                kept
                ∙ ap some (
                    inc_count z t _
                    ∙ ap pos (
                        sym (
                          subst
                            (λ (k : ℕ).
                              count_topic z (take k (drop topic_num d₂))
                              ≡ count_topic z (take i (drop topic_num doc)) + is_topic z (pos t))
                            next
                            (grown
                              ∙ ap (λ d. count_topic z (take i d) + is_topic z (pos t)) same)))));
      },
    )

-- The length of the array, and counts that agree with the assignments.
pub record RandomDoc (word_count topic_num : ℤ) (doc : List ℤ) : Type 0 where
  pub sized : length doc ≡ pos_part topic_num + pos_part word_count
  pub consistent : IsDoc (pos_part topic_num) (λ z. pos 0) doc

random_doc :
    (words topic_num : ℕ) (random : ℕ → ℕ)
    → 0 < topic_num
    → (doc : List ℤ) × (for_loop 0 words
          (assign_word topic_num random)
          (replicate (topic_num + words) (pos 0))
        ≡ some doc)
      × RandomDoc (pos words) (pos topic_num) doc
random_doc words topic_num random some_topic =
    let (doc, e, p) =
      for_loop-inv_zero (Assigned topic_num words) (assign_word topic_num random) words
        (replicate (topic_num + words) (pos 0))
        (λ i d h q. assign_word-Assigned topic_num words random i d some_topic h q)
        (record {
          sized = length-replicate (topic_num + words) (pos 0);
          topics = λ k h. absurd (omega arith);
          counted = λ z hz. get_elem?-replicate (topic_num + words) z (pos 0) (omega arith);
        }) in
    let whole : take words (drop topic_num doc) ≡ drop topic_num doc =
      take_all words (drop topic_num doc) (omega (arith, length-drop topic_num doc, p.sized)) in
    (
      doc,
      e,
      record {
        sized = p.sized;
        consistent = record {
          has_counts = omega (arith, p.sized);
          assigned = λ i lo hi.
              let (t, et, ht) = p.topics (i - topic_num) (omega (arith, p.sized)) in
              let back : topic_num + (i - topic_num) ≡ i = omega arith in
              (t, subst (λ (k : ℕ). get_elem? doc k ≡ some (pos t)) back et, ht);
          counted = λ z hz.
              p.counted z hz ∙ ap some (ap (λ xs. pos (count_topic z xs)) whole ∙ ground arith);
        };
      },
    )

-- `lda_random_assign` either throws or returns an array of a count for each topic and an assignment
-- for each word, to one of the topics, where each topic count is the number of assignments of that
-- topic.
pub lda_random_assign-RandomDoc :
    (word_count topic_num : ℤ) (random : ℕ → ℕ)
    → ReturnsOrThrows
        (RandomDoc word_count topic_num)
        (lda_random_assign word_count topic_num random)
unfolding lda_random_assign
lda_random_assign-RandomDoc (pos w) (pos t) random =
    let P = RandomDoc (pos w) (pos t) in
    reject_rule P (lt_ℤ (pos w) (pos 1)) _ _ (λ _.
      reject_rule P (lt_ℤ (pos t) (pos 1)) _ _
        (λ h. let (doc, e, p) = random_doc w t random (ground arith) in rw e p))
lda_random_assign-RandomDoc (pos w) (negsuc t) random =
    let P = RandomDoc (pos w) (negsuc t) in
    reject_rule P (lt_ℤ (pos w) (pos 1)) _ _
      (λ _. reject_rule P (lt_ℤ (negsuc t) (pos 1)) _ _ (λ h. absurd (ground arith)))
lda_random_assign-RandomDoc (negsuc w) t random =
    let P = RandomDoc (negsuc w) t in
    reject_rule P (lt_ℤ (negsuc w) (pos 1)) _ _ (λ h. absurd (ground arith))
