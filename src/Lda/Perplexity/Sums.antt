-- ===== src/Lda/Perplexity/Sums.antt =====
-- What the perplexity aggregate adds up.
use madlibport.Base.{
  ℕ, zero, suc, ◌+◌, ◌-◌, ◌*◌, ◌≤◌, ◌<◌, ◌≡◌, refl, sym, subst, ◌∙◌, ap, false, some, List, [], ◌∷◌,
  arith, length, get_elem?, All, ltb, get_elem?-some, set?-some, length-set?, get_elem?-set?,
  Returns, Returns-of,
}
use madlibport.Base.Int.{ℤ, pos_part}
use madlibport.Lda.Totals.{cell, cell_lem, sum_up, sum_up_shift}
use madlibport.Doubles.{Double, of_int}
use madlibport.Lda.Gibbs.Pass.{IsWord, cell-lt}
use madlibport.Lda.Perplexity.State.{
  Bits, read_perp, write_perp, add_perp, word_prob, add_words, lda_perplexity_prefunc,
  lda_perplexity_ffunc,
}

module _ {D : Type 0} ⦃d : Double D⦄ ⦃b : Bits D⦄
    (round_trip : (x : D) → b.join (b.low x) (b.high x) ≡ x) where
  open d use {nought, add, mul, div, log, of_uint}
  open b use {join, low, high}

  -- `new` is `old` but for the double at the end, which is now `x`.
  pub record Perp (old new : List ℤ) (x : D) : Type 0 where
    pub same_length : length new ≡ length old
    pub model : (i : ℕ) → i < length old - 2 → get_elem? new i ≡ get_elem? old i
    pub value : read_perp new ≡ some x

  read_perp_lem : (state : List ℤ) → 2 ≤ length state → (x : D) × (read_perp state ≡ some x)
  unfolding read_perp
  read_perp_lem state h =
      let (l, el) = get_elem?-some state (length state - 2) (omega arith) in
      let (u, eu) = get_elem?-some state (length state - 2 + 1) (omega arith) in
      let big : ltb (length state) 2 ≡ false = ground arith in (join l u, rw (big, el, eu))

  write_perp-Perp :
      (state : List ℤ) (x : D)
      → 2 ≤ length state
      → (state' : List ℤ) × (write_perp state x ≡ some state') × Perp state state' x
  unfolding write_perp read_perp
  write_perp-Perp state x h =
      let n = length state - 2 in
      let (s₁, e₁) = set?-some state n (low x) (omega arith) in
      let l₁ = length-set? state n (low x) e₁ in
      let (s₂, e₂) = set?-some s₁ (n + 1) (high x) (omega arith) in
      let l₂ : length s₂ ≡ length state = length-set? s₁ (n + 1) (high x) e₂ ∙ l₁ in
      let g₁ = λ (i : ℕ). get_elem?-set? state n i (low x) e₁ in
      let g₂ = λ (i : ℕ). get_elem?-set? s₁ (n + 1) i (high x) e₂ in
      let big : ltb (length state) 2 ≡ false = ground arith in
      let at_low : get_elem? s₂ n ≡ some (low x) = ground (arith, g₁ n, g₂ n) in
      let at_high : get_elem? s₂ (n + 1) ≡ some (high x) = ground (arith, g₂ (n + 1)) in
      (
        s₂,
        rw (big, e₁) e₂,
        record {
          same_length = l₂;
          model = λ i hi. ground (arith, g₁ i, g₂ i);
          value = rw (l₂, big, at_low, at_high) (ap some (round_trip x));
        },
      )

  add_perp-Perp :
      (state : List ℤ) (old x : D)
      → 2 ≤ length state
      → read_perp state ≡ some old
      → (state' : List ℤ) × (add_perp state x ≡ some state') × Perp state state' (add old x)
  unfolding add_perp
  add_perp-Perp state old x h e =
      let (s', e', p) = write_perp-Perp state (add old x) h in (s', rw e e', p)

  -- The value of a state that the two functions behind the transition read is the double at its end:
  -- merging two states adds the values, and keeps the model of the first.
  pub lda_perplexity_prefunc-Perp :
      (state1 state2 : List ℤ)
      → 2 ≤ length state1
      → 2 ≤ length state2
      → Returns
          (λ a.
            Returns
              (λ c. Returns (λ s. Perp state1 s (add a c)) (lda_perplexity_prefunc D state1 state2))
              (lda_perplexity_ffunc state2))
          (lda_perplexity_ffunc state1)
  unfolding lda_perplexity_prefunc lda_perplexity_ffunc
  lda_perplexity_prefunc-Perp state1 state2 h₁ h₂ =
      let (a, ea) = read_perp_lem state1 h₁ in
      let (c, ec) = read_perp_lem state2 h₂ in
      let (s, es, p) = add_perp-Perp state1 a c h₁ ea in
      Returns-of _ (read_perp state1) ea (
        Returns-of _ (read_perp state2) ec
          (Returns-of (λ t. Perp state1 t (add a c)) _ (rw ec es) p))

  module _ (voc_size topic_num : ℕ) (alpha beta : D) (topic_counts : List ℤ) (n_d : ℤ) where
    -- The share of topic `z` in the probability of word `w`.
    abbrev pub topic_share : List ℤ → ℕ → ℕ → D
    topic_share model w z =
        div
          (mul (add (of_int (cell model (w * topic_num + z))) beta)
            (add (of_int (cell topic_counts z)) alpha))
          (add (of_int (cell model (voc_size * topic_num + z))) (mul (of_uint voc_size) beta))

    -- The probability of word `w`, over all topics.
    abbrev pub probability : List ℤ → ℕ → D
    probability model w =
        div (sum_up (topic_share model w) nought topic_num)
          (add (of_int n_d) (mul (of_uint topic_num) alpha))

    -- What the word at position `k` adds.
    abbrev pub log_term : List ℤ → List ℤ → List ℤ → ℕ → D
    log_term model words counts k =
        mul (of_int (cell counts k)) (log (probability model (pos_part (cell words k))))

    topic_share_lem :
        (model : List ℤ) (w z : ℕ) (n_wz n_dz n_z : ℤ)
        → get_elem? model (w * topic_num + z) ≡ some n_wz
        → get_elem? topic_counts z ≡ some n_dz
        → get_elem? model (voc_size * topic_num + z) ≡ some n_z
        → topic_share model w z
          ≡ div
              (mul (add (of_int n_wz) beta) (add (of_int n_dz) alpha))
              (add (of_int n_z) (mul (of_uint voc_size) beta))
    topic_share_lem model w z n_wz n_dz n_z ew ed ez =
        let share : ℤ → ℤ → ℤ → D = λ a e t.
          div (mul (add (of_int a) beta) (add (of_int e) alpha))
            (add (of_int t) (mul (of_uint voc_size) beta)) in
        let row = cell_lem model (w * topic_num + z) n_wz ew in
        let doc = cell_lem topic_counts z n_dz ed in
        let total = cell_lem model (voc_size * topic_num + z) n_z ez in
        ap (λ a. share a (cell topic_counts z) (cell model (voc_size * topic_num + z))) row
        ∙ ap (λ e. share n_wz e (cell model (voc_size * topic_num + z))) doc
        ∙ ap (λ t. share n_wz n_dz t) total

    -- On an array that agrees with `model` on the model's cells.
    word_prob_lem :
        (size w z left : ℕ) (model other : List ℤ) (sum : D)
        → (voc_size + 1) * topic_num ≤ size
        → size ≤ length model
        → topic_num ≤ length topic_counts
        → w < voc_size
        → z + left ≤ topic_num
        → ((i : ℕ) → i < size → get_elem? other i ≡ get_elem? model i)
        → sum ≡ sum_up (topic_share model w) nought z
        → word_prob voc_size topic_num alpha beta topic_counts other w z left sum
          ≡ some (sum_up (topic_share model w) nought (z + left))
    unfolding word_prob
    word_prob_lem size w z zero model other sum h h' hc hw hz same e =
        let here : z ≡ z + 0 = omega arith in
        ap some (e ∙ ap (λ (k : ℕ). sum_up (topic_share model w) nought k) here)
    word_prob_lem size w z (suc left) model other sum h h' hc hw hz same e =
        let inside =
          λ (v : ℕ) (hv : v ≤ voc_size). cell-lt voc_size topic_num v z size h hv (omega arith) in
        let share = topic_share model w in
        let (n_dz, ed) = get_elem?-some topic_counts z (omega arith) in
        let (n_wz, ew) =
          get_elem?-some model (w * topic_num + z) (omega (arith, inside w (omega arith))) in
        let (n_z, ez) =
          get_elem?-some model (voc_size * topic_num + z)
            (omega (arith, inside voc_size (omega arith))) in
        let x : D =
          div (mul (add (of_int n_wz) beta) (add (of_int n_dz) alpha))
            (add (of_int n_z) (mul (of_uint voc_size) beta)) in
        let here : share z ≡ x = topic_share_lem model w z n_wz n_dz n_z ew ed ez in
        let next : z + 1 ≡ suc z = omega arith in
        let behind : z + 1 + left ≡ z + suc left = omega arith in
        let e' : add sum x ≡ sum_up share nought (z + 1) =
          ap (add sum) (sym here)
          ∙ ap (λ (s : D). add s (share z)) e
          ∙ ap (λ (k : ℕ). sum_up share nought k) (sym next) in
        rw
          (
            ed,
            same (w * topic_num + z) (inside w (omega arith)) ∙ ew,
            same (voc_size * topic_num + z) (inside voc_size (omega arith)) ∙ ez,
          )
          (word_prob_lem size w (z + 1) left model other (add sum x) h h' hc hw (omega arith) same
              e'
            ∙ ap (λ (k : ℕ). some (sum_up share nought k)) behind)

    Perp-next : (s₀ s₁ s₂ : List ℤ) (x y : D) → Perp s₀ s₁ x → Perp s₁ s₂ y → Perp s₀ s₂ y
    Perp-next s₀ s₁ s₂ x y p q = record {
      same_length = q.same_length ∙ p.same_length;
      model = λ i h. q.model i (omega (arith, p.same_length)) ∙ p.model i h;
      value = q.value;
    }

    add_words_total :
        (start : List ℤ) (words counts state : List ℤ) (sum : D)
        → (voc_size + 1) * topic_num + 2 ≤ length start
        → topic_num ≤ length topic_counts
        → All (IsWord voc_size) words
        → length words ≡ length counts
        → Perp start state sum
        → (state' : List ℤ) × (add_words voc_size topic_num alpha beta topic_counts n_d words counts
              state
            ≡ some state')
          × Perp start state' (sum_up (log_term start words counts) sum (length words))
    unfolding add_words
    add_words_total start [] counts state sum h hc hw hl p = (state, refl, p)
    add_words_total start (w ∷ words) [] state sum h hc hw hl p = absurd (omega arith)
    add_words_total start (w ∷ words) (c ∷ counts) state sum h hc ((n, en, hn), hw) hl p =
        let pr = sum_up (topic_share start n) nought topic_num in
        let e : word_prob voc_size topic_num alpha beta topic_counts state n 0 topic_num nought
            ≡ some pr =
          word_prob_lem (length start - 2) n 0 topic_num start state nought (omega arith)
            (omega arith) hc hn (omega arith) p.model refl
          ∙ ap (λ (k : ℕ). some (sum_up (topic_share start n) nought k)) (omega arith) in
        let x : D = mul (of_int c) (log (probability start n)) in
        let term = log_term start (w ∷ words) (c ∷ counts) in
        let first : x ≡ term 0 =
          ap (λ (v : ℕ). mul (of_int c) (log (probability start v))) (sym (ap pos_part en)) in
        let (s₁, e₁, p₁) = add_perp-Perp state sum x (omega (arith, p.same_length)) p.value in
        let (s', e', p') =
          add_words_total start words counts s₁ (add sum x) h hc hw (omega arith)
            (Perp-next start state s₁ sum (add sum x) p p₁) in
        let total =
          ap (λ (y : D). sum_up (log_term start words counts) (add sum y) (length words)) first
          ∙ sym (sum_up_shift term sum (length words)) in
        (s', rw (en, e, e₁) e', subst (λ (y : D). Perp start s' y) total p')

    -- On a state with the cells of a model and a double, with a topic count for each topic, for words
    -- below `voc_size` with as many counts, and where the two elements that a double is written to give
    -- it back, adding the words of a document does not fault. It leaves the model as it is, and adds to
    -- the double, word by word, the count times the logarithm of the probability of the word under
    -- that model: the sum over the topics of (cell of word and topic + beta) * (topic count + alpha) /
    -- (total of the topic + voc_size * beta), divided by the number of words + topic_num * alpha.
    pub add_words-Perp :
        (words counts state : List ℤ)
        → (voc_size + 1) * topic_num + 2 ≤ length state
        → topic_num ≤ length topic_counts
        → All (IsWord voc_size) words
        → length words ≡ length counts
        → Returns
            (λ sum.
              Returns
                (λ state'.
                  Perp state state' (sum_up (log_term state words counts) sum (length words)))
                (add_words voc_size topic_num alpha beta topic_counts n_d words counts state))
            (read_perp state)
    add_words-Perp words counts state h hc hw hl =
        let (sum, e) = read_perp_lem state (omega arith) in
        let (s', e', p) =
          add_words_total state words counts state sum h hc hw hl
            (record { same_length = refl; model = λ i hi. refl; value = e }) in
        let total = sum_up (log_term state words counts) sum (length words) in
        Returns-of _ _ e (Returns-of (λ s. Perp state s total) _ e' p)
