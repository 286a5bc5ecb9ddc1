-- ===== src/Lda/Gibbs/Pass.antt =====
-- A pass of the sampler over the document, and what it keeps.
use madlibport.Base.{
  ℕ, zero, suc, ◌+◌, ◌*◌, ◌≤◌, ◌<◌, ◌≡◌, refl, ◌∙◌, Bool, true, false, some, List, arith, length,
  get_elem?, All, if◌then◌else◌, get_elem?-some,
}
use madlibport.Base.Int.{ℤ, pos, inc, dec}
use madlibport.Doubles.{Double}
use madlibport.Lda.Arrays.Checks.{span, scan-inv}
use madlibport.Lda.Sample.Draw.{gibbs_topic-lt}
use madlibport.Lda.Gibbs.Word.{GibbsState, move_in_model, gibbs_word, gibbs_loop}
use madlibport.Lda.Gibbs.Counting.{IsDoc, move_in_doc-IsDoc, modify_lem}

-- Row `w` of a model with a row per word and one for the totals, and a topic of that row.
pub cell-lt :
    (voc_size topic_num w t size : ℕ)
    → (voc_size + 1) * topic_num ≤ size
    → w ≤ voc_size
    → t < topic_num
    → w * topic_num + t < size
cell-lt voc_size topic_num w t size h hw ht = grind arith

move_in_model_total :
    (voc_size topic_num w t r : ℕ) (state : List ℤ)
    → (voc_size + 1) * topic_num ≤ length state
    → w < voc_size
    → t < topic_num
    → r < topic_num
    → (state' : List ℤ) × (move_in_model voc_size topic_num w t r state ≡ some state')
      × (length state' ≡ length state)
unfolding move_in_model
move_in_model_total voc_size topic_num w t r state h hw ht hr =
    let cell = λ (v z : ℕ) (hv : v ≤ voc_size) (hz : z < topic_num).
      cell-lt voc_size topic_num v z (length state) h hv hz in
    let (a₁, s₁, _, e₁, _, l₁) =
      modify_lem state (voc_size * topic_num + t) dec (cell voc_size t (omega arith) ht) in
    let (a₂, s₂, _, e₂, _, l₂) =
      modify_lem s₁ (voc_size * topic_num + r) inc
        (omega (arith, cell voc_size r (omega arith) hr)) in
    let (a₃, s₃, _, e₃, _, l₃) =
      modify_lem s₂ (w * topic_num + t) dec (omega (arith, cell w t (omega arith) ht)) in
    let (a₄, s₄, _, e₄, _, l₄) =
      modify_lem s₃ (w * topic_num + r) inc (omega (arith, cell w r (omega arith) hr)) in
    (s₄, rw (e₁, e₂, e₃, e₄), omega arith)

-- What the loop keeps.
pub record Sampled (voc_size topic_num size places : ℕ) (excess : ℕ → ℤ) (s : GibbsState)
    : Type 0 where
  pub consistent : IsDoc topic_num excess s.doc_topic
  pub same_length : length s.doc_topic ≡ size
  pub same_places : length s.state ≡ places

abbrev pub IsWord : ℕ → ℤ → Type 0
IsWord voc_size w = (n : ℕ) × (w ≡ pos n) × (n < voc_size)

module _ {D : Type 0} ⦃d : Double D⦄ (voc_size topic_num size places : ℕ) (excess : ℕ → ℤ)
    (fits : (voc_size + 1) * topic_num ≤ places) (train : Bool) (alpha beta : D)
    (drand : ℕ → D) where
  model_total :
      (b : Bool) (w t r : ℕ) (state : List ℤ)
      → length state ≡ places
      → w < voc_size
      → t < topic_num
      → r < topic_num
      → (state' : List ℤ) × ((if b
            then move_in_model voc_size topic_num w t r state
            else some state)
          ≡ some state')
        × (length state' ≡ places)
  model_total true w t r state l hw ht hr =
      let (s', e, l') = move_in_model_total voc_size topic_num w t r state (omega arith) hw ht hr in
      (s', e, omega arith)
  model_total false w t r state l hw ht hr = (state, refl, l)

  gibbs_word-Sampled :
      (w : ℤ) (index : ℕ) (s : GibbsState)
      → IsWord voc_size w
      → topic_num ≤ index
      → index < size
      → Sampled voc_size topic_num size places excess s
      → (s' : GibbsState) × (gibbs_word voc_size topic_num train alpha beta drand w index s
          ≡ some s')
        × Sampled voc_size topic_num size places excess s'
  unfolding gibbs_word
  gibbs_word-Sampled w index s (n, ew, hw) lo hi p =
      let (t, et, ht) = p.consistent.assigned index lo (omega (arith, p.same_length)) in
      let read = λ (v i : ℕ) (hv : v ≤ voc_size) (h : i < topic_num).
        get_elem?-some s.state (v * topic_num + i)
          (omega (arith, p.same_places, cell-lt voc_size topic_num v i places fits hv h)) in
      let (r, er, hr) =
        gibbs_topic-lt topic_num t (get_elem? s.doc_topic)
          (λ i. get_elem? s.state (n * topic_num + i))
          (λ i. get_elem? s.state (voc_size * topic_num + i)) alpha beta (drand s.drawn)
          (omega arith)
          (λ i h. get_elem?-some s.doc_topic i (omega (arith, p.consistent.has_counts)))
          (λ i h. read n i (omega arith) h) (λ i h. read voc_size i (omega arith) h) in
      let (doc, ed, ld, good) =
        move_in_doc-IsDoc topic_num excess s.doc_topic index t r p.consistent lo
          (omega (arith, p.same_length)) et ht hr in
      let (state, es, ls) = model_total train n t r s.state p.same_places hw ht hr in
      (
        record { doc_topic = doc; state = state; drawn = s.drawn + 1 },
        rw (ew, et, er, ed, es),
        record { consistent = good; same_length = ld ∙ p.same_length; same_places = ls },
      )

  pub gibbs_loop-Sampled :
      (words counts : List ℤ) (it : ℕ) (s : GibbsState)
      → All (IsWord voc_size) words
      → topic_num + span counts ≤ size
      → Sampled voc_size topic_num size places excess s
      → (s' : GibbsState) × (gibbs_loop voc_size topic_num train alpha beta drand words counts it s
          ≡ some s')
        × Sampled voc_size topic_num size places excess s'
  unfolding gibbs_loop
  gibbs_loop-Sampled words counts zero s q h p = (s, refl, p)
  gibbs_loop-Sampled words counts (suc it) s q h p =
      let (s₁, e₁, p₁) =
        scan-inv (Sampled voc_size topic_num size places excess) (IsWord voc_size)
          (gibbs_word voc_size topic_num train alpha beta drand) topic_num size gibbs_word-Sampled
          words counts topic_num s q (omega arith) h p in
      let (s', e', p') = gibbs_loop-Sampled words counts it s₁ q h p₁ in (s', rw e₁ e', p')
