-- ===== src/Bismarck/Uda.antt =====
-- The aggregate calls that src/svm.cc and src/logreg.cc share line by line, over the class that
-- does the learning. A buffer is seen as the doubles in it; allocation does not fail.
pub mod Pass
use madlibport.Base.{
  ℕ, suc, ◌+◌, ◌*◌, ◌/◌, ◌≤◌, ◌<◌, ◌≡◌, refl, Bool, true, false, Option, none, some, List, [], ◌∷◌,
  arith, length, get_elem?, take, leb, ◌==◌, if◌then◌else◌, ◌>>=◌, All, length-take,
}
use madlibport.Doubles.{Double}
use madlibport.Bismarck.Linalg.{Pointer}

-- `len` is in bytes.
pub record Bytea (D : Type 0) : Type 0 where
  pub str : Option (List D)
  pub len : ℕ

-- `StringVal` of the Impala UDF interface.
pub record StringVal (D : Type 0) : Type 0 where
  pub is_null : Bool
  pub ptr : Option (List D)
  pub len : ℕ

abbrev pub double_size : ℕ
double_size = 8

module _ {D : Type 0} where
  -- `CoerceBytea`: the pointer, and the number of doubles.
  abbrev pub doubles_at : Option (List D) → Pointer D
  doubles_at none i = none
  doubles_at (some xs) i = get_elem? xs i

  abbrev pub coerce_bytea : Bytea D → Pointer D × ℕ
  coerce_bytea b = (doubles_at b.str, b.len / double_size)

  abbrev pub to_bytea : StringVal D → Bytea D
  to_bytea v = record { str = v.ptr; len = v.len }

  -- `memcpy` of the first `n` doubles of a buffer.
  abbrev pub copy_buffer : Option (List D) → ℕ → Option (List D)
  copy_buffer none n = if n == 0 then some [] else none
  copy_buffer (some xs) n = if leb n (length xs) then some (take n xs) else none

  -- `new (dst) StringVal(ctx, src.len)`, then `memcpy` from `src`.
  unfoldable pub clone : StringVal D → Option (StringVal D)
  clone src = do
    xs ← copy_buffer src.ptr (src.len / double_size)
    some (record { is_null = false; ptr = some xs; len = src.len })

-- What a learner gives its aggregate: `Step` and `Merge` of its class.
pub record Learner (D : Type 0) : Type 0 where
  pub step : Bytea D → Bool → Bytea D → D → D → Option (Bytea D)
  pub merge : Bytea D → Bytea D → Option (Bytea D)

pub record Row (D : Type 0) : Type 0 where
  pub ex : StringVal D
  pub label : Bool

module _ {D : Type 0} where
  unfoldable pub init : StringVal D → StringVal D
  init model = record model { is_null = true }

  -- The model that a step starts from: seeded from the last pass, if there was one.
  abbrev seeded : StringVal D → StringVal D → Option (StringVal D)
  seeded prev_model model =
      if model.is_null
      then (if prev_model.is_null
          then some (record model { is_null = false })
          else clone prev_model)
      else some model

  unfoldable pub update :
      Learner D → StringVal D → D → D → Row D → StringVal D → Option (StringVal D)
  unfolding clone
  update l prev_model step_size mu row model = do
    seed ← seeded prev_model model
    modela ← l.step (to_bytea row.ex) row.label (to_bytea seed) step_size mu
    some (record seed { ptr = modela.str; len = modela.len })

  unfoldable pub merge : Learner D → StringVal D → StringVal D → Option (StringVal D)
  unfolding clone
  merge l src dst =
      if src.is_null
      then some dst
      else (if dst.is_null
          then clone src
          else (l.merge (to_bytea src) (to_bytea dst) >>= λ b.
              some (record dst { ptr = b.str; len = b.len })))

  unfoldable pub finalize : StringVal D → StringVal D
  finalize model = model

  -- One pass over the rows of a group.
  unfoldable pub run :
      Learner D → StringVal D → D → D → List (Row D) → StringVal D → Option (StringVal D)
  unfolding update
  run l prev_model step_size mu [] model = some model
  run l prev_model step_size mu (row ∷ rows) model =
      update l prev_model step_size mu row model >>= run l prev_model step_size mu rows

  -- A buffer of exactly `n` doubles.
  abbrev pub Holds : ℕ → Option (List D) → ℕ → Type 0
  Holds n p len = (xs : List D) × (p ≡ some xs) × (length xs ≡ n) × (len ≡ n * double_size)

  abbrev pub HoldsModel : ℕ → StringVal D → Type 0
  HoldsModel n v = (v.is_null ≡ false) × Holds n v.ptr v.len

  -- What the aggregate needs of `Step` and `Merge`: they keep the dimension, and do not fault.
  pub record IsLearner (l : Learner D) : Type 0 where
    pub step_first :
        (n : ℕ) (ex : Bytea D) (y : Bool) (len : ℕ) (step_size mu : D)
        → Holds n ex.str ex.len
        → (m : Bytea D) × (l.step ex y (record { str = none; len = len }) step_size mu ≡ some m)
          × Holds n m.str m.len
    pub step_next :
        (n : ℕ) (ex : Bytea D) (y : Bool) (model : Bytea D) (step_size mu : D)
        → Holds n ex.str ex.len
        → Holds n model.str model.len
        → (m : Bytea D) × (l.step ex y model step_size mu ≡ some m) × Holds n m.str m.len
    pub merge_models :
        (n : ℕ) (src dst : Bytea D)
        → Holds n src.str src.len
        → Holds n dst.str dst.len
        → (m : Bytea D) × (l.merge src dst ≡ some m) × Holds n m.str m.len
