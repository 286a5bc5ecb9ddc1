-- ===== src/Lda/TopicCount/Counts.antt =====
-- What the aggregate counts.
use madlibport.Base.{
  ℕ, zero, suc, ◌+◌, ◌*◌, ◌≤◌, ◌<◌, ◌≡◌, refl, sym, ◌∙◌, ap, Bool, true, false, ◌&&◌, some, List,
  [], ◌∷◌, arith, length, get_elem?, drop, All, ◌==◌, if◌then◌else◌,
}
use madlibport.Base.Int.{ℤ, pos, plus, inc, plus-plus, plus-zero}
use madlibport.Lda.Gibbs.Counting.{is_topic, count_topic}
use madlibport.Lda.Gibbs.Pass.{IsWord, cell-lt}
use madlibport.Lda.TopicCount.Step.{count_word}
use madlibport.Lda.TopicCount.Flat.{scan_over}
use madlibport.Lda.TopicCount.Cell.{same_cell, modify_cell}

-- How many positions have the word `v` with the topic `z`.
abbrev pub count_pair : ℕ → ℕ → List ℤ → List ℤ → ℕ
count_pair v z (w ∷ words) (t ∷ topics) = is_topic v w * is_topic z t + count_pair v z words topics
count_pair v z words topics = 0

-- The model `new` is `old` with these words and topics counted: in the row of each word, and in
-- the row of the totals.
pub record Counted (voc_size topic_num : ℕ) (words topics old new : List ℤ) : Type 0 where
  pub same_length : length new ≡ length old
  pub pairs :
      (v z : ℕ) (a : ℤ)
      → v < voc_size
      → z < topic_num
      → get_elem? old (v * topic_num + z) ≡ some a
      → get_elem? new (v * topic_num + z) ≡ some (plus a (count_pair v z words topics))
  pub totals :
      (z : ℕ) (a : ℤ)
      → z < topic_num
      → get_elem? old (voc_size * topic_num + z) ≡ some a
      → get_elem? new (voc_size * topic_num + z) ≡ some (plus a (count_topic z topics))

inc_if : (b : Bool) (a : ℤ) (n : ℕ) → n ≡ (if b then 1 else 0) → (if b then inc a else a) ≡ plus a n
inc_if true a n e = ap (plus a) (sym e)
inc_if false a n e = sym (plus-zero a) ∙ ap (plus a) (sym e)

pair_test :
    (n v t z : ℕ)
    → is_topic v (pos n) * is_topic z (pos t) ≡ (if (n == v) && (t == z) then 1 else 0)
pair_test n v t z = ground arith

-- One position.
count_word-Counted :
    (voc_size topic_num : ℕ) (assigned : List ℤ) (n t k : ℕ) (state : List ℤ)
    → get_elem? assigned k ≡ some (pos t)
    → n < voc_size
    → t < topic_num
    → (voc_size + 1) * topic_num ≤ length state
    → (state' : List ℤ) × (count_word voc_size topic_num assigned (pos n) k state ≡ some state')
      × Counted voc_size topic_num (pos n ∷ []) (pos t ∷ []) state state'
unfolding count_word
count_word-Counted voc_size topic_num assigned n t k state ek hn ht fits =
    let inside =
      λ (v : ℕ) (h : v ≤ voc_size). cell-lt voc_size topic_num v t (length state) fits h ht in
    let (s₁, e₁, l₁, c₁) = modify_cell state (n * topic_num + t) inc (inside n (omega arith)) in
    let (s₂, e₂, l₂, c₂) =
      modify_cell s₁ (voc_size * topic_num + t) inc
        (omega (arith, inside voc_size (omega arith))) in
    (
      s₂,
      rw (ek, e₁, e₂),
      record {
        same_length = l₂ ∙ l₁;
        pairs = λ v z a hv hz ea.
            let apart = same_cell voc_size v topic_num t z ht hz in
            let off : (voc_size == v) ≡ false = ground arith in
            c₂ (v * topic_num + z) _ (c₁ (v * topic_num + z) a ea)
            ∙ rw (apart, off, same_cell n v topic_num t z ht hz)
                (ap some (inc_if ((n == v) && (t == z)) a _ (omega (arith, pair_test n v t z))));
        totals = λ z a hz ea.
            let apart = same_cell n voc_size topic_num t z ht hz in
            let off : (n == voc_size) ≡ false = ground arith in
            let on : (voc_size == voc_size) ≡ true = ground arith in
            c₂ (voc_size * topic_num + z) _ (c₁ (voc_size * topic_num + z) a ea)
            ∙ rw (apart, off, same_cell voc_size voc_size topic_num t z ht hz, on)
                (ap some (inc_if (t == z) a _ (ground arith)));
      },
    )

drop_cons :
    (k : ℕ) (xs : List ℤ) {t : ℤ} {ts : List ℤ}
    → drop k xs ≡ t ∷ ts
    → (get_elem? xs k ≡ some t) × (ts ≡ drop (suc k) xs)
drop_cons zero [] e = cc
drop_cons zero (x ∷ xs) e = (cc, cc)
drop_cons (suc k) [] e = cc
drop_cons (suc k) (x ∷ xs) e = drop_cons k xs e

Counted-append :
    (voc_size topic_num : ℕ) (w t : ℤ) (words topics old mid new : List ℤ)
    → Counted voc_size topic_num (w ∷ []) (t ∷ []) old mid
    → Counted voc_size topic_num words topics mid new
    → Counted voc_size topic_num (w ∷ words) (t ∷ topics) old new
Counted-append voc_size topic_num w t words topics old mid new p q = record {
  same_length = q.same_length ∙ p.same_length;
  pairs = λ v z a hv hz ea.
      q.pairs v z _ hv hz (p.pairs v z a hv hz ea)
      ∙ ap some (
          plus-plus a (count_pair v z (w ∷ []) (t ∷ [])) (count_pair v z words topics)
          ∙ ap (plus a) (omega arith));
  totals = λ z a hz ea.
      q.totals z _ hz (p.totals z a hz ea)
      ∙ ap some
          (plus-plus a (count_topic z (t ∷ [])) (count_topic z topics) ∙ ap (plus a) (omega arith));
}

-- All positions from `k` on, where the document has the words `words`.
pub count_words-Counted :
    (voc_size topic_num : ℕ) (assigned : List ℤ) (words topics : List ℤ) (k : ℕ) (state : List ℤ)
    → topics ≡ drop k assigned
    → length words ≡ length topics
    → All (IsWord voc_size) words
    → All (IsWord topic_num) topics
    → (voc_size + 1) * topic_num ≤ length state
    → (state' : List ℤ) × (scan_over (count_word voc_size topic_num assigned) k words state
        ≡ some state')
      × Counted voc_size topic_num words topics state state'
count_words-Counted voc_size topic_num assigned [] [] k state e l hw ht fits = (
  state,
  refl,
  record {
    same_length = refl;
    pairs = λ v z a hv hz ea. ea ∙ ap some (sym (plus-zero a));
    totals = λ z a hz ea. ea ∙ ap some (sym (plus-zero a));
  },
)
count_words-Counted voc_size topic_num assigned [] (t ∷ topics) k state e l hw ht fits =
    absurd (omega arith)
count_words-Counted voc_size topic_num assigned (w ∷ words) [] k state e l hw ht fits =
    absurd (omega arith)
count_words-Counted voc_size topic_num assigned (w ∷ words) (t ∷ topics) k state e l
      ((n, en, hn), hw) ((u, eu, hu), ht) fits =
    let (at, rest) = drop_cons k assigned (sym e) in
    let next : suc k ≡ k + 1 = omega arith in
    let (s₁, e₁, c₁) =
      count_word-Counted voc_size topic_num assigned n u k state (at ∙ ap some eu) hn hu fits in
    let (s₂, e₂, c₂) =
      count_words-Counted voc_size topic_num assigned words topics (k + 1) s₁
        (rest ∙ ap (λ (m : ℕ). drop m assigned) next) (omega arith) hw ht
        (omega (arith, c₁.same_length)) in
    let here : Counted voc_size topic_num (w ∷ []) (t ∷ []) state s₁ = rw (en, eu) c₁ in
    (s₂, rw (en, e₁) e₂, Counted-append voc_size topic_num w t words topics state s₁ s₂ here c₂)
