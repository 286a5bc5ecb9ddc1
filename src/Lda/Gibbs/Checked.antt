-- ===== src/Lda/Gibbs/Checked.antt =====
-- What the checks of `lda_gibbs_sample::run` say of the words and the document.
use madlibport.Base.{
  ℕ, zero, suc, ◌+◌, ◌≤◌, ◌<◌, ◌^◌, ◌∙◌, ◌≡◌, refl, ap, Bool, true, false, not, ◌||◌, some, List,
  [], ◌∷◌, arith, length, get_elem?, drop, All, ◌==◌, ==→eq, length-take, length-drop,
}
use madlibport.Base.Int.{ℤ, pos, negsuc, lt_ℤ, le_ℤ}
use madlibport.Base.Outcome.{ReturnsOrThrows, reject_rule, reject_rule_last, unless_fault_rule}
use madlibport.Lda.Arrays.{min_of, max_of, doc_size, slice}
use madlibport.Lda.Arrays.Checks.{
  min_of-some, max_of-some, min_of_bound, max_of_bound, doc_size_lem,
}
use madlibport.Lda.Gibbs.{check_words, check_doc_topic}
use madlibport.Lda.Gibbs.Pass.{IsWord}

pub positive : (a : ℤ) → le_ℤ a (pos 0) ≡ false → (n : ℕ) × (a ≡ pos n) × (0 < n)
positive (pos n) h = (n, refl, ground arith)
positive (negsuc n) h = absurd (ground arith)

-- Both bounds of a check with `||`.
not_or : (a b : Bool) → (a || b) ≡ false → (a ≡ false) × (b ≡ false)
not_or true b h = cc
not_or false b h = (refl, h)

pub not-false : (b : Bool) → not b ≡ false → b ≡ true
not-false b h = ground arith

le_ℤ-false : (a b : ℤ) → le_ℤ a b ≡ false → lt_ℤ b a ≡ true
le_ℤ-false a b h = not-false (lt_ℤ b a) h

in_bounds : (n : ℕ) (w : ℤ) → lt_ℤ w (pos 0) ≡ false → lt_ℤ w (pos n) ≡ true → IsWord n w
in_bounds n (pos w) h k = (w, refl, ground arith)
in_bounds n (negsuc w) h k = absurd (ground arith)

All-IsWord :
    (n : ℕ) (xs : List ℤ)
    → All (λ x. lt_ℤ x (pos 0) ≡ false) xs
    → All (λ x. lt_ℤ x (pos n) ≡ true) xs
    → All (IsWord n) xs
All-IsWord n [] h k = tt
All-IsWord n (x ∷ xs) (h, hs) (k, ks) = (in_bounds n x h k, All-IsWord n xs hs ks)

-- The elements of an array of which the least and the greatest element are in bounds.
pub All-checked :
    (n : ℕ) (xs : List ℤ) (least most : ℤ)
    → min_of xs ≡ some least
    → max_of xs ≡ some most
    → (lt_ℤ least (pos 0) || le_ℤ (pos n) most) ≡ false
    → All (IsWord n) xs
All-checked n xs least most el em h =
    let (low, high) = not_or (lt_ℤ least (pos 0)) _ h in
    All-IsWord n xs (min_of_bound (pos 0) xs least el low)
      (max_of_bound (pos n) xs most em (le_ℤ-false (pos n) most high))

All-positive :
    (xs : List ℤ) (least : ℤ)
    → min_of xs ≡ some least
    → le_ℤ least (pos 0) ≡ false
    → All (λ x. lt_ℤ (pos 0) x ≡ true) xs
All-positive xs least e h =
    let bound = min_of_bound (pos 1) xs least e (at_least_one least h) in go xs bound
  where
    at_least_one : (a : ℤ) → le_ℤ a (pos 0) ≡ false → lt_ℤ a (pos 1) ≡ false
    at_least_one (pos n) h = ground arith
    at_least_one (negsuc n) h = ground arith

    above : (a : ℤ) → lt_ℤ a (pos 1) ≡ false → lt_ℤ (pos 0) a ≡ true
    above (pos n) h = ground arith
    above (negsuc n) h = ground arith

    go : (xs : List ℤ) → All (λ x. lt_ℤ x (pos 1) ≡ false) xs → All (λ x. lt_ℤ (pos 0) x ≡ true) xs
    go [] h = tt
    go (x ∷ xs) (h, hs) = (above x h, go xs hs)

pub record GoodWords (voc_size : ℕ) (words counts : List ℤ) : Type 0 where
  pub are_words : All (IsWord voc_size) words
  pub same_length : length words ≡ length counts
  pub occur : All (λ x. lt_ℤ (pos 0) x ≡ true) counts

pub check_words-GoodWords :
    (words counts : List ℤ) (voc_size : ℕ)
    → 0 < length words
    → ReturnsOrThrows
        (λ _. GoodWords voc_size words counts)
        (check_words words counts (pos voc_size))
unfolding check_words
check_words-GoodWords words counts voc_size some_word =
    let P = λ (u : Unit {0}). GoodWords voc_size words counts in
    reject_rule P (not (length words == length counts)) _ _ (λ sized.
      let same = ==→eq (length words) (length counts) (not-false _ sized) in
      unless_fault_rule P (min_of words) _ (min_of-some words some_word) (λ least el.
        unless_fault_rule P (max_of words) _ (max_of-some words some_word) (λ most em.
          reject_rule P (lt_ℤ least (pos 0) || le_ℤ (pos voc_size) most) _ _ (λ inside.
            unless_fault_rule P (min_of counts) _ (min_of-some counts (omega arith)) (λ fewest ef.
              reject_rule_last P (le_ℤ fewest (pos 0)) _ (λ some_count. record {
                are_words = All-checked voc_size words least most el em inside;
                same_length = same;
                occur = All-positive counts fewest ef some_count;
              }))))))

-- An element of a slice of which all elements are in bounds.
slice-IsWord :
    (n : ℕ) (xs : List ℤ) (start len i : ℕ)
    → All (IsWord n) (slice xs start len)
    → start ≤ i
    → i < start + len
    → i < length xs
    → (t : ℕ) × (get_elem? xs i ≡ some (pos t)) × (t < n)
slice-IsWord n [] start len i h lo hi b = absurd (omega arith)
slice-IsWord n (x ∷ xs) zero zero i h lo hi b = absurd (omega arith)
slice-IsWord n (x ∷ xs) zero (suc len) zero ((t, et, ht), hs) lo hi b = (t, ap some et, ht)
slice-IsWord n (x ∷ xs) zero (suc len) (suc i) (h, hs) lo hi b =
    slice-IsWord n xs zero len i hs (omega arith) (omega arith) (omega arith)
slice-IsWord n (x ∷ xs) (suc start) len zero h lo hi b = absurd (omega arith)
slice-IsWord n (x ∷ xs) (suc start) len (suc i) h lo hi b =
    slice-IsWord n xs start len i h (omega arith) (omega arith) (omega arith)

pub record GoodDoc (topic_num words : ℕ) (doc : List ℤ) : Type 0 where
  pub sized : length doc ≡ words + topic_num
  pub topics :
      (i : ℕ)
      → topic_num ≤ i
      → i < length doc
      → (t : ℕ) × (get_elem? doc i ≡ some (pos t)) × (t < topic_num)

length-slice :
    (xs : List ℤ) (start len : ℕ) → start + len ≤ length xs → length (slice xs start len) ≡ len
length-slice xs start len h = length-take len (drop start xs) (omega (arith, length-drop start xs))

pub check_doc_topic-GoodDoc :
    (doc : List ℤ) (words topic_num : ℕ)
    → 0 < words
    → 0 < topic_num
    → words + topic_num < 2 ^ 31
    → ReturnsOrThrows
        (λ _. GoodDoc topic_num words doc)
        (check_doc_topic doc (pos words) (pos topic_num))
unfolding check_doc_topic
check_doc_topic-GoodDoc doc words topic_num some_word some_topic few =
    let P = λ (u : Unit {0}). GoodDoc topic_num words doc in
    let assigned = slice doc topic_num words in
    reject_rule P (not (length doc == doc_size (pos words) (pos topic_num))) _ _ (λ sized.
      let same : length doc ≡ words + topic_num =
        ==→eq (length doc) _ (not-false _ sized) ∙ doc_size_lem words topic_num few in
      let size = length-slice doc topic_num words (omega arith) in
      let front = length-slice doc 0 topic_num (omega arith) in
      unless_fault_rule P (min_of (slice doc 0 topic_num)) _ (min_of-some _ (omega arith))
        (λ least _. reject_rule P (lt_ℤ least (pos 0)) _ _ (λ _.
          unless_fault_rule P (min_of assigned) _ (min_of-some _ (omega arith)) (λ lowest el.
            unless_fault_rule P (max_of assigned) _ (max_of-some _ (omega arith)) (λ highest eh.
              reject_rule_last P (lt_ℤ lowest (pos 0) || le_ℤ (pos topic_num) highest) _ (λ inside.
                let all = All-checked topic_num assigned lowest highest el eh inside in
                record {
                  sized = same;
                  topics = λ i lo hi.
                      slice-IsWord topic_num doc topic_num words i all lo (omega arith) hi;
                }))))))
