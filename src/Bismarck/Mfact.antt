-- ===== src/Bismarck/Mfact.antt =====
-- src/mfact-inl.h: a matrix factorization model in one block of 8-byte cells. Cells 0 to 2 hold the
-- numbers of rows and columns and the rank, cell 3 the mean; then come L and R, row major. A cell
-- read at the wrong type, like one outside the block, is a fault.
pub mod Rows
pub mod Layout
pub mod Moved
pub mod Model
pub mod Init
mod Tests
use madlibport.Base.{
  ℕ, suc, ◌+◌, ◌*◌, ◌/◌, ◌%◌, ◌^◌, Bool, Option, none, some, List, length, get_elem?, set?,
  replicate, ◌>>=◌, update_cells,
}
use madlibport.Doubles.{Double}
use madlibport.Bismarck.Linalg.{Pointer, simple_dot}
use madlibport.Bismarck.Uda.{double_size}

pub data Cell (D : Type 0) : Type 0 where
  word : ℕ → Cell D
  real : D → Cell D

-- `MFMetaPointers` and `MFLRPointers`: where the model keeps its parts.
abbrev pub rows_at : ℕ
rows_at = 0

abbrev pub cols_at : ℕ
cols_at = 1

abbrev pub rank_at : ℕ
rank_at = 2

abbrev pub mean_at : ℕ
mean_at = 3

abbrev pub l_at : ℕ
l_at = 4

module _ {D : Type 0} where
  abbrev pub as_word : Cell D → Option ℕ
  as_word (word w) = some w
  as_word (real u) = none

  abbrev pub as_real : Cell D → Option D
  as_real (word w) = none
  as_real (real u) = some u

  abbrev pub word_at : List (Cell D) → ℕ → Option ℕ
  word_at mem i = get_elem? mem i >>= as_word

  abbrev pub real_at : List (Cell D) → ℕ → Option D
  real_at mem i = get_elem? mem i >>= as_real

  abbrev pub lr_pointers : List (Cell D) → Option (ℕ × ℕ)
  lr_pointers mem = do
    rows ← word_at mem rows_at
    rank ← word_at mem rank_at
    some (l_at, l_at + rows * rank)

-- In `size_t`.
abbrev pub size_of_model : ℕ → ℕ → ℕ → ℕ
size_of_model rows cols rank =
    (double_size * 4 + double_size * (rows * rank + cols * rank)) % 2 ^ 64

-- `bytea` over cells.
pub record Block (D : Type 0) : Type 0 where
  pub str : Option (List (Cell D))
  pub len : ℕ

module _ {D : Type 0} ⦃d : Double D⦄ where
  open d use {nought, one, hundredth, of_uint, neg, add, sub, mul, div}

  -- `InitModel` behind its allocation.
  unfoldable pub fill_model : List (Cell D) → ℕ → ℕ → ℕ → D → Option (List (Cell D))
  fill_model block rows cols rank mean = do
    m₀ ← set? block rank_at (word rank)
    m₁ ← set? m₀ rows_at (word rows)
    m₂ ← set? m₁ cols_at (word cols)
    m₃ ← set? m₂ mean_at (real mean)
    (l, r) ← lr_pointers m₃
    m₄ ← update_cells l (rows * rank) (λ _ _ _. some (real hundredth)) m₃
    update_cells r (cols * rank) (λ _ _ _. some (real hundredth)) m₄

  -- The block comes with whatever `fill` the allocator left in it.
  unfoldable pub init_model : Cell D → ℕ → ℕ → ℕ → D → Option (List (Cell D))
  init_model fill rows cols rank mean =
      fill_model (replicate (size_of_model rows cols rank / double_size) fill) rows cols rank mean

  -- `simple_scale` and `simple_scale_add` at a pointer into the block.
  abbrev pub scale_cell : D → List (Cell D) → ℕ → Cell D → Option (Cell D)
  scale_cell a _ j c = as_real c >>= λ u. some (real (mul u a))

  abbrev pub add_cell :
      (List (Cell D) → Pointer D) → D → List (Cell D) → ℕ → Cell D → Option (Cell D)
  add_cell y a mem j c = do u ← as_real c; v ← y mem j; some (real (add u (mul a v)))

  unfoldable pub scale_add_at :
      ℕ → (List (Cell D) → Pointer D) → D → D → ℕ → List (Cell D) → Option (List (Cell D))
  scale_add_at base y scal a rank mem =
      update_cells base rank (scale_cell scal) mem >>= update_cells base rank (add_cell y a)

  unfoldable pub mf_igd_step :
      ℕ → ℕ → D → D → D → D → ℕ → ℕ → ℕ → List (Cell D) → Option (List (Cell D))
  mf_igd_step li ri val mean mu step rank row_deg col_deg mem = do
    let swap = λ (j : ℕ). real_at mem (li + j)
    dot ← simple_dot swap (λ j. real_at mem (ri + j)) rank
    let err = sub (add dot mean) val
    let a = mul (mul (neg one) step) err
    let scal_l = sub one (div (mul mu step) (of_uint row_deg))
    let scal_r = sub one (div (mul mu step) (of_uint col_deg))
    mem' ← scale_add_at li (λ m j. real_at m (ri + j)) scal_l a rank mem
    scale_add_at ri (λ _. swap) scal_r a rank mem'

  abbrev start_block : Option (List (Cell D)) → Cell D → ℕ → ℕ → ℕ → D → Option (List (Cell D))
  start_block none fill nrows ncols rank mean = init_model fill nrows ncols rank mean
  start_block (some mem) fill nrows ncols rank mean = some mem

  -- `rowdeg` and `coldeg` are arrays of counts; `len` of the model is not set.
  unfoldable pub mf_step :
      Cell D → ℕ → ℕ → D → Block D → D → D → D → ℕ → List ℕ → List ℕ → Option (Block D)
  mf_step fill row col val mod' step mu mean rank rowdeg coldeg = do
    mem ← start_block mod'.str fill (length rowdeg) (length coldeg) rank mean
    (l, r) ← lr_pointers mem
    row_deg ← get_elem? rowdeg row
    col_deg ← get_elem? coldeg col
    mem' ← mf_igd_step (l + row * rank) (r + col * rank) val mean mu step rank row_deg col_deg mem
    some (record mod' { str = some mem' })

  unfoldable pub mf_predict : List (Cell D) → ℕ → ℕ → Option D
  mf_predict mem row col = do
    (l, r) ← lr_pointers mem
    rank ← word_at mem rank_at
    mean ← real_at mem mean_at
    dot ←
        simple_dot (λ j. real_at mem (l + row * rank + j)) (λ j. real_at mem (r + col * rank + j))
          rank
    some (add dot mean)

  -- Both are stubs in the source.
  unfoldable pub mf_loss : ℕ → ℕ → D → Block D → D
  mf_loss row col val model = nought

  unfoldable pub mf_merge : Block D → Block D → Block D
  mf_merge src dst = dst
