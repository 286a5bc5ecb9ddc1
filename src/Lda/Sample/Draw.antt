-- ===== src/Lda/Sample/Draw.antt =====
-- Which topic is drawn.
use madlibport.Base.{
  ℕ, zero, suc, ◌+◌, ◌-◌, ◌≤◌, ◌<◌, ◌≡◌, refl, ◌⊎◌, true, false, Option, none, some, ap, sym, ◌∙◌,
  ◌==◌, if◌then◌else◌, List, [], ◌∷◌, arith, length, get_elem?, map, Bool-cases, inl, inr,
  get_elem?-some, Returns, Returns-of, subst, ℕ_discrete,
}
use mathlib.Core.Option.{some-injective}
use madlibport.Base.Int.{ℤ, pos, negsuc, dec, ◌-ℤ◌}
use madlibport.Lda.Totals.{sum_up}
use madlibport.Doubles.{Double, of_int}
use madlibport.Lda.Sample.{Counts, other_count, unnormalised, cumulate, draw, gibbs_topic}

abbrev pub Covers : ℕ → Counts → Type 0
Covers n c = (i : ℕ) → i < n → (a : ℤ) × (c i ≡ some a)

-- The numbers that counts consist of.
abbrev pub Holds : ℕ → Counts → (ℕ → ℤ) → Type 0
Holds n c f = (i : ℕ) → i < n → c i ≡ some (f i)

abbrev value_of : Counts → ℕ → ℤ
value_of c i = elim (c i) [ none ↦ pos 0 | some a ↦ a ]

Covers-Holds : (n : ℕ) (c : Counts) → Covers n c → Holds n c (value_of c)
Covers-Holds n c h i b = let (a, e) = h i b in known (c i) a e
  where
    known : (m : Option ℤ) (a : ℤ) → m ≡ some a → m ≡ some (elim m [ none ↦ pos 0 | some x ↦ x ])
    known none a e = cc
    known (some x) a e = refl

get_elem?-map :
    {A B : Type 0} (f : A → B) (xs : List A) (i : ℕ) {x : A}
    → get_elem? xs i ≡ some x
    → get_elem? (map f xs) i ≡ some (f x)
get_elem?-map f [] i e = cc
get_elem?-map f (y ∷ xs) zero e = ap (λ z. some (f z)) (some-injective _ _ e)
get_elem?-map f (y ∷ xs) (suc i) e = get_elem?-map f xs i e

Returns-at : {A : Type 0} (P : A → Type 0) (m : Option A) {a : A} → m ≡ some a → Returns P m → P a
Returns-at P m e r = subst (λ o. Returns P o) e r

length-map : {A B : Type 0} (f : A → B) (xs : List A) → length (map f xs) ≡ length xs
length-map f [] = refl
length-map f (x ∷ xs) = omega (arith, length-map f xs)

-- The counts of a topic as they are without the word itself, which has the topic `topic`.
abbrev pub without_own : ℕ → (ℕ → ℤ) → ℕ → ℤ
without_own topic n k = if k == topic then n k -ℤ pos 1 else n k

dec_minus : (n : ℤ) → dec n ≡ n -ℤ pos 1
dec_minus (pos n) = ground arith
dec_minus (negsuc n) = ground arith

other_count_lem :
    (topic : ℕ) (n : ℕ → ℤ) (k : ℕ) → other_count topic k (n k) ≡ without_own topic n k
other_count_lem topic n k = elim (Bool-cases (k == topic)) [
  | inl own ↦ rw own (dec_minus (n k))
  | inr other ↦ rw other
]

module _ {D : Type 0} ⦃d : Double D⦄ where
  open d use {nought, add, mul, div, lt, of_uint}

  -- `t` is the first topic from `start` on whose probability exceeds `r`, or else `last`.
  pub record IsDrawn (r : D) (prs : List D) (start last t : ℕ) : Type 0 where
    pub from_start : start ≤ t
    pub to_last : t ≤ last
    pub passed : (j : ℕ) → start ≤ j → j < t → Returns (λ p. lt r p ≡ false) (get_elem? prs j)
    pub stopped : (t ≡ last) ⊎ Returns (λ p. lt r p ≡ true) (get_elem? prs t)

  draw-IsDrawn :
      (r : D) (prs : List D) (retopic left : ℕ)
      → retopic + left < length prs
      → (t : ℕ) × (draw r prs retopic left ≡ some t) × IsDrawn r prs retopic (retopic + left) t
  unfolding draw
  draw-IsDrawn r prs retopic zero h = (
    retopic,
    refl,
    record {
      from_start = omega arith;
      to_last = omega arith;
      passed = λ j lo hi. absurd (omega arith);
      stopped = inl (omega arith);
    },
  )
  draw-IsDrawn r prs retopic (suc left) h =
      let (p, ep) = get_elem?-some prs retopic (omega arith) in
      elim (Bool-cases (lt r p)) [
        | inl below ↦ (
          retopic,
          rw (ep, below),
          record {
            from_start = omega arith;
            to_last = omega arith;
            passed = λ j lo hi. absurd (omega arith);
            stopped = inr (Returns-of _ _ ep below);
          },
        )
        | inr above ↦
            let (t, e, q) = draw-IsDrawn r prs (retopic + 1) left (omega arith) in
            (
              t,
              rw (ep, above) e,
              record {
                from_start = omega (arith, q.from_start);
                to_last = omega (arith, q.to_last);
                passed = λ j lo hi. elim (ℕ_discrete retopic j) [
                  | yes here ↦
                      subst (λ (k : ℕ). Returns (λ p. lt r p ≡ false) (get_elem? prs k)) here
                        (Returns-of _ _ ep above)
                  | no later ↦ q.passed j (omega arith) hi
                ];
                stopped = elim q.stopped [ inl e' ↦ inl (omega arith) | inr s ↦ inr s ];
              },
            )
      ]

  module _ (topic_num topic : ℕ) (nd nw nz : ℕ → ℤ) (alpha beta : D) where
    -- (nd + alpha) * (nw + beta) / (nz + topic_num * beta)
    abbrev pub weight : ℕ → D
    weight k =
        div
          (mul (add (of_int (without_own topic nd k)) alpha)
            (add (of_int (without_own topic nw k)) beta))
          (add (of_int (without_own topic nz k)) (mul (of_uint topic_num) beta))

    -- The weights up to topic `k`, over all weights.
    abbrev pub share_to : ℕ → D
    share_to k = div (sum_up weight nought (suc k)) (sum_up weight nought topic_num)

    unnormalised_lem :
        (k : ℕ)
        → unnormalised topic_num alpha beta
            (other_count topic k (nd k))
            (other_count topic k (nw k))
            (other_count topic k (nz k))
          ≡ weight k
    unnormalised_lem k =
        rw (other_count_lem topic nd k, other_count_lem topic nw k, other_count_lem topic nz k)

    cumulate_lem :
        (dz wz z : Counts) (i left : ℕ) (total : D)
        → Holds (i + left) dz nd
        → Holds (i + left) wz nw
        → Holds (i + left) z nz
        → total ≡ sum_up weight nought i
        → (prs : List D) × (cumulate topic_num topic dz wz z alpha beta i left total
            ≡ some (prs, sum_up weight nought (i + left)))
          × (length prs ≡ left)
          × ((j : ℕ) → j < left → get_elem? prs j ≡ some (sum_up weight nought (suc (i + j))))
    unfolding cumulate
    cumulate_lem dz wz z i zero total hd hw hz e =
        let here : i ≡ i + 0 = omega arith in
        (
          [],
          ap (λ (t : D). some ([], t)) (e ∙ ap (λ (k : ℕ). sum_up weight nought k) here),
          refl,
          λ j h. absurd (omega arith),
        )
    cumulate_lem dz wz z i (suc left) total hd hw hz e =
        let w : D =
          unnormalised topic_num alpha beta (other_count topic i (nd i))
            (other_count topic i (nw i)) (other_count topic i (nz i)) in
        let next : i + 1 ≡ suc i = omega arith in
        let e₁ : add total w ≡ sum_up weight nought (suc i) =
          ap (add total) (unnormalised_lem i) ∙ ap (λ (t : D). add t (weight i)) e in
        let (prs, e', el, at) =
          cumulate_lem dz wz z (i + 1) left (add total w) (λ k h. hd k (omega arith))
            (λ k h. hw k (omega arith)) (λ k h. hz k (omega arith))
            (e₁ ∙ ap (λ (k : ℕ). sum_up weight nought k) (sym next)) in
        let behind : i + 1 + left ≡ i + suc left = omega arith in
        (
          add total w ∷ prs,
          rw (hw i (omega arith), hd i (omega arith), hz i (omega arith), e')
              (ap (λ (k : ℕ). some (add total w ∷ prs, sum_up weight nought k)) behind),
          omega arith,
          each prs left (add total w) i e₁ at,
        )
      where
        each :
            (prs : List D) (left : ℕ) (x : D) (i : ℕ)
            → x ≡ sum_up weight nought (suc i)
            → ((j : ℕ) → j < left → get_elem? prs j ≡ some (sum_up weight nought (suc (i + 1 + j))))
            → (j : ℕ) → j < suc left
            → get_elem? (x ∷ prs) j ≡ some (sum_up weight nought (suc (i + j)))
        each prs left x i e at zero h =
            let here : i ≡ i + 0 = omega arith in
            ap some (e ∙ ap (λ (k : ℕ). sum_up weight nought (suc k)) here)
        each prs left x i e at (suc j) h =
            let there : i + 1 + j ≡ i + suc j = omega arith in
            at j (omega arith) ∙ ap (λ (k : ℕ). some (sum_up weight nought (suc k))) there

    gibbs_topic_by :
        (dz wz z : Counts) (r : D)
        → 0 < topic_num
        → Holds topic_num dz nd
        → Holds topic_num wz nw
        → Holds topic_num z nz
        → (prs : List D) × (t : ℕ) × (gibbs_topic topic_num topic dz wz z alpha beta r ≡ some t)
          × IsDrawn r prs 0 (topic_num - 1) t
          × ((j : ℕ) → j < topic_num → get_elem? prs j ≡ some (share_to j))
    unfolding gibbs_topic
    gibbs_topic_by dz wz z r some_topic hd hw hz =
        let whole : 0 + topic_num ≡ topic_num = omega arith in
        let (prs, e, el, at) =
          cumulate_lem dz wz z 0 topic_num nought (λ k h. hd k (omega arith))
            (λ k h. hw k (omega arith)) (λ k h. hz k (omega arith)) refl in
        let all = sum_up weight nought topic_num in
        let e₀ : cumulate topic_num topic dz wz z alpha beta 0 topic_num nought ≡ some (prs, all) =
          e ∙ ap (λ (k : ℕ). some (prs, sum_up weight nought k)) whole in
        let normal = map (λ (p : D). div p all) prs in
        let (t, et, q) =
          draw-IsDrawn r normal 0 (topic_num - 1)
            (omega (arith, length-map (λ (p : D). div p all) prs)) in
        (
          normal,
          t,
          rw e₀ et,
          subst (λ (k : ℕ). IsDrawn r normal 0 k t) (omega arith) q,
          λ j h.
              let here : 0 + j ≡ j = omega arith in
              get_elem?-map (λ (p : D). div p all) prs j
                (at j h ∙ ap (λ (k : ℕ). some (sum_up weight nought (suc k))) here),
        )

    -- Where each of the three counts has a number for each topic, and there is a topic, sampling does
    -- not fault: it draws the first topic k of which (w(0) + ... + w(k)) / (w(0) + ... + w(topic_num - 1))
    -- exceeds the random number, or else the last topic, where w(k) is
    -- (nd + alpha) * (nw + beta) / (nz + topic_num * beta) for the counts of topic k of the document,
    -- the word and the model, each less one if k is the topic of the word itself.
    pub gibbs_topic-IsDrawn :
        (dz wz z : Counts) (r : D)
        → 0 < topic_num
        → Holds topic_num dz nd
        → Holds topic_num wz nw
        → Holds topic_num z nz
        → Returns
            (λ t.
              (t < topic_num)
              × ((j : ℕ) → j < t → lt r (share_to j) ≡ false)
              × ((t ≡ topic_num - 1) ⊎ (lt r (share_to t) ≡ true)))
            (gibbs_topic topic_num topic dz wz z alpha beta r)
    gibbs_topic-IsDrawn dz wz z r some_topic hd hw hz =
        let (prs, t, e, q, at) = gibbs_topic_by dz wz z r some_topic hd hw hz in
        Returns-of _ _ e (
          omega (arith, q.to_last),
          λ j h.
              Returns-at (λ p. lt r p ≡ false) (get_elem? prs j) (at j (omega (arith, q.to_last)))
                (q.passed j (omega arith) h),
          elim q.stopped [
            | inl last ↦ inl last
            | inr s ↦ inr (
                Returns-at (λ p. lt r p ≡ true) (get_elem? prs t) (at t (omega (arith, q.to_last)))
                  s)
          ],
        )

  -- The drawn topic is one of the topics.
  pub gibbs_topic-lt :
      (topic_num topic : ℕ) (dz wz z : Counts) (alpha beta r : D)
      → 0 < topic_num
      → Covers topic_num dz
      → Covers topic_num wz
      → Covers topic_num z
      → (t : ℕ) × (gibbs_topic topic_num topic dz wz z alpha beta r ≡ some t) × (t < topic_num)
  gibbs_topic-lt topic_num topic dz wz z alpha beta r some_topic hd hw hz =
      let (prs, t, e, q, at) =
        gibbs_topic_by topic_num topic (value_of dz) (value_of wz) (value_of z) alpha beta dz wz z r
          some_topic (Covers-Holds topic_num dz hd) (Covers-Holds topic_num wz hw)
          (Covers-Holds topic_num z hz) in
      (t, e, omega (arith, q.to_last))
