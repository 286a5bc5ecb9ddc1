-- ===== src/Base/Slices.antt =====
-- Lists that agree at every index, the cells of `take`, `drop` and `++`, and `memcpy`.
use Prim.Native.Nat.{ℕ, zero, suc, ◌+◌, ◌-◌, ◌≤◌, ◌<◌}
use mathlib.Core.Path.{◌≡◌, refl, ap, sym, ◌∙◌}
use mathlib.Core.Bool.{false}
use mathlib.Core.Option.{Option, some, some-injective}
use mathlib.Core.List.{List, [], ◌∷◌, ◌++◌}
use native.Mathlib.Decide.{dec_lt}
use native.Mathlib.Omega.{arith}
use madlibport.Base.Lists.{
  length, get_elem?, take, drop, get_elem?-some, length-take, length-drop, length-append,
}
use madlibport.Base.Cells.{update_cells, update_cells_lem, in_range, AppliedTo-in, AppliedTo-out}

module _ {ℓ} {A : Type ℓ} where
  -- Lists of one length with the same elements below it are equal.
  pub list_ext :
      (xs ys : List A)
      → length xs ≡ length ys
      → ((i : ℕ) → i < length xs → get_elem? xs i ≡ get_elem? ys i)
      → xs ≡ ys
  list_ext [] [] e h = refl
  list_ext [] (y ∷ ys) e h = absurd (omega arith)
  list_ext (x ∷ xs) [] e h = absurd (omega arith)
  list_ext (x ∷ xs) (y ∷ ys) e h =
      let same : x ≡ y = some-injective _ _ (h 0 (omega arith)) in
      let rest : xs ≡ ys = list_ext xs ys (omega arith) (λ i b. h (suc i) (omega arith)) in
      ap (λ z. z ∷ xs) same ∙ ap (◌∷◌ y) rest

  pub get_elem?-drop : (n i : ℕ) (xs : List A) → get_elem? (drop n xs) i ≡ get_elem? xs (n + i)
  get_elem?-drop zero i xs = let e : 0 + i ≡ i = omega arith in rw e
  get_elem?-drop (suc n) i [] = refl
  get_elem?-drop (suc n) i (x ∷ xs) =
      let e : suc n + i ≡ suc (n + i) = omega arith in rw e (get_elem?-drop n i xs)

  pub get_elem?-take : (n i : ℕ) (xs : List A) → i < n → get_elem? (take n xs) i ≡ get_elem? xs i
  get_elem?-take zero i xs h = absurd (omega arith)
  get_elem?-take (suc n) i [] h = refl
  get_elem?-take (suc n) zero (x ∷ xs) h = refl
  get_elem?-take (suc n) (suc i) (x ∷ xs) h = get_elem?-take n i xs (omega arith)

  pub drop-drop : (m n : ℕ) (xs : List A) → drop n (drop m xs) ≡ drop (m + n) xs
  drop-drop zero n xs = let e : 0 + n ≡ n = omega arith in rw e
  drop-drop (suc m) zero [] = let e : suc m + 0 ≡ suc m = omega arith in rw e
  drop-drop (suc m) (suc n) [] = let e : suc m + suc n ≡ suc (m + suc n) = omega arith in rw e
  drop-drop (suc m) n (x ∷ xs) =
      let e : suc m + n ≡ suc (m + n) = omega arith in rw e (drop-drop m n xs)

  pub get_elem?-append :
      (xs ys : List A) (i : ℕ) → i < length xs → get_elem? (xs ++ ys) i ≡ get_elem? xs i
  get_elem?-append [] ys i h = absurd (omega arith)
  get_elem?-append (x ∷ xs) ys zero h = refl
  get_elem?-append (x ∷ xs) ys (suc i) h = get_elem?-append xs ys i (omega arith)

  pub get_elem?-append_right :
      (xs ys : List A) (i : ℕ)
      → length xs ≤ i
      → get_elem? (xs ++ ys) i ≡ get_elem? ys (i - length xs)
  get_elem?-append_right [] ys i h = let e : i - 0 ≡ i = omega arith in rw e
  get_elem?-append_right (x ∷ xs) ys zero h = absurd (omega arith)
  get_elem?-append_right (x ∷ xs) ys (suc i) h =
      let e : suc i - suc (length xs) ≡ i - length xs = omega arith in
      rw e (get_elem?-append_right xs ys i (omega arith))

  pub drop-append : (xs ys : List A) → drop (length xs) (xs ++ ys) ≡ ys
  drop-append [] ys = refl
  drop-append (x ∷ xs) ys = drop-append xs ys

  pub drop_all : (n : ℕ) (xs : List A) → length xs ≤ n → drop n xs ≡ []
  drop_all zero [] h = refl
  drop_all (suc n) [] h = refl
  drop_all zero (x ∷ xs) h = absurd (omega arith)
  drop_all (suc n) (x ∷ xs) h = drop_all n xs (omega arith)

  -- `memcpy(dst + at, src + from, len)`: `none` where a cell is outside its array.
  abbrev pub memcpy : List A → ℕ → List A → ℕ → ℕ → Option (List A)
  memcpy dst at src from len = update_cells at len (λ _ j _. get_elem? src (from + j)) dst

  -- What `memcpy` leaves in the array it writes.
  pub record IsCopied (dst : List A) (at : ℕ) (src : List A) (from len : ℕ) (out : List A)
      : Type ℓ where
    pub same_length : length out ≡ length dst
    pub inside : (j : ℕ) → j < len → get_elem? out (at + j) ≡ get_elem? src (from + j)
    pub outside : (i : ℕ) → in_range at len i ≡ false → get_elem? out i ≡ get_elem? dst i

  pub memcpy_lem :
      (dst : List A) (at : ℕ) (src : List A) (from len : ℕ)
      → at + len ≤ length dst
      → from + len ≤ length src
      → (out : List A) × (memcpy dst at src from len ≡ some out) × IsCopied dst at src from len out
  memcpy_lem dst at src from len h k =
      let (out, e, p) =
        update_cells_lem at len (λ _ j _. get_elem? src (from + j)) dst (λ ys j u b c. refl) h
          (λ j u b c. get_elem?-some src (from + j) (omega arith)) in
      (
        out,
        e,
        record {
          same_length = p.same_length;
          inside = λ j b.
              let (u, eu) = get_elem?-some dst (at + j) (omega arith) in
              AppliedTo-in _ at len dst out p j u b eu;
          outside = AppliedTo-out _ at len dst out p;
        },
      )

  -- A whole new array that is filled by one `memcpy`.
  pub memcpy_whole :
      (dst src : List A) (from len : ℕ)
      → length dst ≡ len
      → from + len ≤ length src
      → memcpy dst 0 src from len ≡ some (take len (drop from src))
  memcpy_whole dst src from len h k =
      let (out, e, p) = memcpy_lem dst 0 src from len (omega arith) k in
      let cut : length (take len (drop from src)) ≡ len =
        length-take len (drop from src) (omega (arith, length-drop from src)) in
      e
      ∙ ap some (
          list_ext out (take len (drop from src)) (p.same_length ∙ h ∙ sym cut) (λ i b.
            let zero_add : 0 + i ≡ i = omega arith in
            let below : i < len = omega (arith, p.same_length) in
            ap (get_elem? out) (sym zero_add)
            ∙ p.inside i below
            ∙ sym (get_elem?-drop from i src)
            ∙ sym (get_elem?-take len i (drop from src) below)))

  -- The first cells of an array, up to the end of what was copied into it.
  pub take-IsCopied :
      (dst : List A) (at : ℕ) (src : List A) (len : ℕ) (out : List A)
      → at + len ≤ length dst
      → len ≤ length src
      → IsCopied dst at src 0 len out
      → take (at + len) out ≡ take at dst ++ take len src
  take-IsCopied dst at src len out h k c =
      let whole : length (take (at + len) out) ≡ at + len =
        length-take (at + len) out (omega (arith, c.same_length)) in
      let first : length (take at dst) ≡ at = length-take at dst (omega arith) in
      let second : length (take len src) ≡ len = length-take len src k in
      list_ext (take (at + len) out) (take at dst ++ take len src)
        (omega (arith, length-append (take at dst) (take len src)))
        λ i b. elim (dec_lt i at) [
          | yes before ↦
              let out_of : in_range at len i ≡ false = ground arith in
              get_elem?-take (at + len) i out (omega arith)
              ∙ c.outside i out_of
              ∙ sym (get_elem?-take at i dst before)
              ∙ sym (get_elem?-append (take at dst) (take len src) i (omega arith))
          | no after ↦
              let back : at + (i - at) ≡ i = omega arith in
              let shift : i - length (take at dst) ≡ i - at = omega arith in
              let from : 0 + (i - at) ≡ i - at = omega arith in
              get_elem?-take (at + len) i out (omega arith)
              ∙ ap (get_elem? out) (sym back)
              ∙ c.inside (i - at) (omega arith)
              ∙ ap (get_elem? src) from
              ∙ sym (get_elem?-take len (i - at) src (omega arith))
              ∙ ap (get_elem? (take len src)) (sym shift)
              ∙ sym (get_elem?-append_right (take at dst) (take len src) i (omega arith))
        ]
