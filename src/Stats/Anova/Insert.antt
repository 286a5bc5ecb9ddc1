-- ===== src/Stats/Anova/Insert.antt =====
-- A new element between the others, in the same array or in a larger one.
use madlibport.Base.{
  ℕ, ◌+◌, ◌-◌, ◌≤◌, ◌<◌, ◌≡◌, sym, ◌∙◌, ap, true, false, some, List, arith, length, get_elem?, ◌==◌,
  in_range, set?-some, length-set?, get_elem?-set?, memcpy_lem, IsCopied,
}
use madlibport.Stats.Anova.Step.{insert_at, insert_into}

-- The array `ys` has the `n` elements of `xs`, and `x` between them.
pub record IsInserted {A : Type 0} (at n : ℕ) (x : A) (xs ys : List A) : Type 0 where
  pub before : (i : ℕ) → i < at → get_elem? ys i ≡ get_elem? xs i
  pub here : get_elem? ys at ≡ some x
  pub after : (i : ℕ) → at ≤ i → i < n → get_elem? ys (i + 1) ≡ get_elem? xs i

module _ {A : Type 0} (at n : ℕ) (x : A) (xs : List A) (within : at ≤ n) where
  pub insert_at-IsInserted :
      n < length xs
      → (ys : List A) × (insert_at at n x xs ≡ some ys)
        × (length ys ≡ length xs)
        × IsInserted at n x xs ys
  unfolding insert_at
  insert_at-IsInserted room =
      let (m, e, c) = memcpy_lem xs (at + 1) xs at (n - at) (omega arith) (omega arith) in
      let (ys, e') = set?-some m at x (omega (arith, c.same_length)) in
      let g = λ (i : ℕ). get_elem?-set? m at i x e' in
      (
        ys,
        rw e e',
        length-set? m at x e' ∙ c.same_length,
        record {
          before = λ i h.
              let other : (at == i) ≡ false = ground arith in
              let out : in_range (at + 1) (n - at) i ≡ false = ground arith in
              g i ∙ rw other (c.outside i out);
          here = let self : (at == at) ≡ true = ground arith in g at ∙ rw self;
          after = λ i lo hi.
              let other : (at == i + 1) ≡ false = ground arith in
              g (i + 1) ∙ rw other (shifted m c i lo hi);
        },
      )
    where
      shifted :
          (m : List A)
          → IsCopied xs (at + 1) xs at (n - at) m
          → (i : ℕ) → at ≤ i
          → i < n
          → get_elem? m (i + 1) ≡ get_elem? xs i
      shifted m c i lo hi =
          let left : at + 1 + (i - at) ≡ i + 1 = omega arith in
          let right : at + (i - at) ≡ i = omega arith in
          ap (get_elem? m) (sym left) ∙ c.inside (i - at) (omega arith) ∙ ap (get_elem? xs) right

  pub insert_into-IsInserted :
      (fresh : List A)
      → n ≤ length xs
      → n < length fresh
      → (ys : List A) × (insert_into at n x xs fresh ≡ some ys)
        × (length ys ≡ length fresh)
        × IsInserted at n x xs ys
  unfolding insert_into
  insert_into-IsInserted fresh fits room =
      let (l, e₀, c₀) = memcpy_lem fresh 0 xs 0 at (omega arith) (omega arith) in
      let (m, e, c) =
        memcpy_lem l (at + 1) xs at (n - at) (omega (arith, c₀.same_length)) (omega arith) in
      let (ys, e') = set?-some m at x (omega (arith, c.same_length, c₀.same_length)) in
      let g = λ (i : ℕ). get_elem?-set? m at i x e' in
      (
        ys,
        rw (e₀, e) e',
        length-set? m at x e' ∙ c.same_length ∙ c₀.same_length,
        record {
          before = λ i h.
              let other : (at == i) ≡ false = ground arith in
              let out : in_range (at + 1) (n - at) i ≡ false = ground arith in
              let z : 0 + i ≡ i = omega arith in
              g i
              ∙ rw other (c.outside i out)
              ∙ ap (get_elem? l) (sym z)
              ∙ c₀.inside i h
              ∙ ap (get_elem? xs) z;
          here = let self : (at == at) ≡ true = ground arith in g at ∙ rw self;
          after = λ i lo hi.
              let other : (at == i + 1) ≡ false = ground arith in
              g (i + 1) ∙ rw other (shifted l m c i lo hi);
        },
      )
    where
      shifted :
          (l m : List A)
          → IsCopied l (at + 1) xs at (n - at) m
          → (i : ℕ) → at ≤ i
          → i < n
          → get_elem? m (i + 1) ≡ get_elem? xs i
      shifted l m c i lo hi =
          let left : at + 1 + (i - at) ≡ i + 1 = omega arith in
          let right : at + (i - at) ≡ i = omega arith in
          ap (get_elem? m) (sym left) ∙ c.inside (i - at) (omega arith) ∙ ap (get_elem? xs) right
