-- ===== src/Lda/Perplexity/State.antt =====
-- What the perplexity aggregate does with its state.
use madlibport.Base.{
  ℕ, zero, suc, ◌+◌, ◌-◌, ◌*◌, Option, none, some, List, ◌∷◌, length, get_elem?, set?, ltb, ◌>>=◌,
  if◌then◌else◌,
}
use madlibport.Base.Int.{ℤ, index?}
use madlibport.Doubles.{Double, of_int}

-- The two elements of the array that hold a double.
pub record Bits (D : Type 0) : Type 0 where
  pub join : ℤ → ℤ → D
  pub low : D → ℤ
  pub high : D → ℤ

module _ {D : Type 0} ⦃d : Double D⦄ ⦃b : Bits D⦄ where
  open d use {nought, add, mul, div, le, log, of_uint}
  open b use {join, low, high}

  -- `*perp`, and a write to it.
  unfoldable pub read_perp : List ℤ → Option D
  read_perp state = if ltb (length state) 2 then none else (do
    l ← get_elem? state (length state - 2)
    h ← get_elem? state (length state - 2 + 1)
    some (join l h))

  unfoldable pub write_perp : List ℤ → D → Option (List ℤ)
  write_perp state x =
      if ltb (length state) 2
      then none
      else (do s ← set? state (length state - 2) (low x); set? s (length state - 2 + 1) (high x))

  -- `*perp += x`
  unfoldable pub add_perp : List ℤ → D → Option (List ℤ)
  add_perp state x = do p ← read_perp state; write_perp state (add p x)

  -- The loop over the topics, from `z` on.
  unfoldable pub word_prob : ℕ → ℕ → D → D → List ℤ → List ℤ → ℕ → ℕ → ℕ → D → Option D
  word_prob voc_size topic_num alpha beta topic_counts model w z zero sum_p = some sum_p
  word_prob voc_size topic_num alpha beta topic_counts model w z (suc left) sum_p = do
    n_dz ← get_elem? topic_counts z
    n_wz ← get_elem? model (w * topic_num + z)
    n_z ← get_elem? model (voc_size * topic_num + z)
    word_prob voc_size topic_num alpha beta topic_counts model w (z + 1) left (
        add sum_p (
          div (mul (add (of_int n_wz) beta) (add (of_int n_dz) alpha))
            (add (of_int n_z) (mul (of_uint voc_size) beta))))

  -- The loop over the words.
  unfoldable pub add_words : ℕ → ℕ → D → D → List ℤ → ℤ → List ℤ → List ℤ → List ℤ → Option (List ℤ)
  add_words voc_size topic_num alpha beta topic_counts n_d (w ∷ words) (n_dw ∷ counts) state = do
    wordid ← index? w
    sum_p ← word_prob voc_size topic_num alpha beta topic_counts state wordid 0 topic_num nought
    let p = div sum_p (add (of_int n_d) (mul (of_uint topic_num) alpha))
    s ← add_perp state (mul (of_int n_dw) (log p))
    add_words voc_size topic_num alpha beta topic_counts n_d words counts s
  add_words voc_size topic_num alpha beta topic_counts n_d words counts state = some state

  unfoldable pub lda_perplexity_ffunc : List ℤ → Option D
  lda_perplexity_ffunc state = read_perp state

unfoldable pub lda_perplexity_prefunc :
    (D : Type 0) → ⦃d : Double D⦄ → ⦃b : Bits D⦄ → List ℤ → List ℤ → Option (List ℤ)
lda_perplexity_prefunc D state1 state2 = read_perp {D = D} state2 >>= add_perp state1
