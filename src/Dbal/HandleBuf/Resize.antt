-- ===== src/Dbal/HandleBuf/Resize.antt =====
-- What a resize leaves in the buffer.
use madlibport.Base.{
  ℕ, ◌+◌, ◌-◌, ◌≤◌, ◌<◌, ◌≡◌, refl, sym, ◌∙◌, ap, true, false, some, arith, List, length, get_elem?,
  set?, replicate, ltb, ◌==◌, if◌then◌else◌, for_loop-inv_zero, get_elem?-some, set?-some,
  length-set?, get_elem?-set?, length-replicate, ℕ_discrete, Returns,
}
use madlibport.Dbal.HandleBuf.{Buf, size, copy_byte, copy_bytes, fill_bytes, buf_resize}

-- `new` has `len` bytes of `source` at `to`, and is `old` elsewhere.
record IsCopied (source : List ℕ) (from to len : ℕ) (old new : List ℕ) : Type 0 where
  sized : length new ≡ length old
  inside : (i : ℕ) → i < len → get_elem? new (to + i) ≡ get_elem? source (from + i)
  below : (i : ℕ) → i < to → get_elem? new i ≡ get_elem? old i
  behind : (i : ℕ) → to + len ≤ i → get_elem? new i ≡ get_elem? old i

copy_bytes-IsCopied :
    (source : List ℕ) (from to len : ℕ) (target : List ℕ)
    → from + len ≤ length source
    → to + len ≤ length target
    → (new : List ℕ) × (copy_bytes source from to len target ≡ some new)
      × IsCopied source from to len target new
unfolding copy_bytes
copy_bytes-IsCopied source from to len target hs ht =
    for_loop-inv_zero (λ k new. IsCopied source from to k target new) (copy_byte source from to) len
      target
      (λ k new hk p.
        let (v, ev) = get_elem?-some source (from + k) (omega arith) in
        let (new', e) = set?-some new (to + k) v (omega (arith, p.sized)) in
        let g = λ (i : ℕ). get_elem?-set? new (to + k) i v e in
        (
          new',
          rw ev e,
          record {
            sized = length-set? new (to + k) v e ∙ p.sized;
            inside = λ i hi. elim (ℕ_discrete k i) [
              | yes here ↦
                  let on : (to + k == to + i) ≡ true = ground arith in
                  g (to + i) ∙ rw on (sym ev ∙ ap (λ (n : ℕ). get_elem? source (from + n)) here)
              | no there ↦
                  let off : (to + k == to + i) ≡ false = ground arith in
                  g (to + i) ∙ rw off (p.inside i (omega arith))
            ];
            below = λ i hi.
                let off : (to + k == i) ≡ false = ground arith in g i ∙ rw off (p.below i hi);
            behind = λ i hi.
                let off : (to + k == i) ≡ false = ground arith in
                g i ∙ rw off (p.behind i (omega arith));
          },
        ))
      (record {
        sized = refl;
        inside = λ i h. absurd (omega arith);
        below = λ i h. refl;
        behind = λ i h. refl;
      })

record IsFilled (from len : ℕ) (old new : List ℕ) : Type 0 where
  sized : length new ≡ length old
  inside : (i : ℕ) → from ≤ i → i < from + len → get_elem? new i ≡ some 0
  below : (i : ℕ) → i < from → get_elem? new i ≡ get_elem? old i
  behind : (i : ℕ) → from + len ≤ i → get_elem? new i ≡ get_elem? old i

fill_bytes-IsFilled :
    (from len : ℕ) (target : List ℕ)
    → from + len ≤ length target
    → (new : List ℕ) × (fill_bytes from len target ≡ some new) × IsFilled from len target new
unfolding fill_bytes
fill_bytes-IsFilled from len target h =
    for_loop-inv_zero (λ k new. IsFilled from k target new) (λ i t. set? t (from + i) 0) len target
      (λ k new hk p.
        let (new', e) = set?-some new (from + k) 0 (omega (arith, p.sized)) in
        let g = λ (i : ℕ). get_elem?-set? new (from + k) i 0 e in
        (
          new',
          e,
          record {
            sized = length-set? new (from + k) 0 e ∙ p.sized;
            inside = λ i lo hi. elim (ℕ_discrete (from + k) i) [
              | yes here ↦ let on : (from + k == i) ≡ true = ground arith in g i ∙ rw on
              | no there ↦
                  let off : (from + k == i) ≡ false = ground arith in
                  g i ∙ rw off (p.inside i lo (omega arith))
            ];
            below = λ i hi.
                let off : (from + k == i) ≡ false = ground arith in g i ∙ rw off (p.below i hi);
            behind = λ i hi.
                let off : (from + k == i) ≡ false = ground arith in
                g i ∙ rw off (p.behind i (omega arith));
          },
        ))
      (record {
        sized = refl;
        inside = λ i lo hi. absurd (omega arith);
        below = λ i h. refl;
        behind = λ i h. refl;
      })

-- `delta` zeros have come in at `pivot`, or at the end if that is before.
pub record IsGrown (pivot delta : ℕ) (b b' : Buf) : Type 0 where
  pub sized : size b' ≡ size b + delta
  pub same_pos : b'.pos ≡ b.pos
  pub before : (i : ℕ) → i < pivot → i < size b → get_elem? b'.bytes i ≡ get_elem? b.bytes i
  pub zeros :
      (i : ℕ) → pivot ≤ i → i < pivot + delta → pivot ≤ size b → get_elem? b'.bytes i ≡ some 0
  pub after :
      (i : ℕ) → pivot ≤ i → i < size b → get_elem? b'.bytes (i + delta) ≡ get_elem? b.bytes i

-- The three writes together.
IsGrown-of :
    (pivot second delta : ℕ) (b : Buf) (fresh m₁ m₂ m₃ : List ℕ)
    → second ≡ (if ltb (size b) pivot then size b else pivot)
    → length fresh ≡ size b + delta
    → IsCopied b.bytes 0 0 second fresh m₁
    → IsCopied b.bytes second (second + delta) (size b - second) m₁ m₂
    → IsFilled second delta m₂ m₃
    → IsGrown pivot delta b (record { bytes = m₃; pos = b.pos })
IsGrown-of pivot second delta b fresh m₁ m₂ m₃ es ef p₁ p₂ p₃ = record {
  sized = omega (arith, p₁.sized, p₂.sized, p₃.sized);
  same_pos = refl;
  before = λ i hi hb.
      let low : i < second = ground arith in
      let origin : 0 + i ≡ i = omega arith in
      p₃.below i low
      ∙ p₂.below i (omega arith)
      ∙ ap (get_elem? m₁) (sym origin)
      ∙ p₁.inside i low
      ∙ ap (get_elem? b.bytes) origin;
  zeros = λ i lo hi hp.
      let same : second ≡ pivot = ground arith in p₃.inside i (omega arith) (omega arith);
  after = λ i lo hi.
      let same : second ≡ pivot = ground arith in
      let there : second + delta + (i - second) ≡ i + delta = omega arith in
      let here : second + (i - second) ≡ i = omega arith in
      p₃.behind (i + delta) (omega arith)
      ∙ ap (get_elem? m₂) (sym there)
      ∙ p₂.inside (i - second) (omega arith)
      ∙ ap (get_elem? b.bytes) here;
}

-- A buffer that is resized to a larger size has its bytes before the pivot where they were, the
-- others moved by the difference, and zeros in between; its cursor stays.
pub buf_resize-IsGrown :
    (in_size in_pivot : ℕ) (b : Buf)
    → size b < in_size
    → Returns (IsGrown in_pivot (in_size - size b) b) (buf_resize in_size in_pivot b)
unfolding buf_resize
buf_resize-IsGrown in_size in_pivot b h =
    let second = if ltb (size b) in_pivot then size b else in_pivot in
    let delta = in_size - size b in
    let small : second ≤ size b = ground arith in
    let fresh : List ℕ = replicate in_size 0 in
    let whole : length fresh ≡ in_size = length-replicate in_size 0 in
    let (m₁, e₁, p₁) = copy_bytes-IsCopied b.bytes 0 0 second fresh (omega arith) (omega arith) in
    let (m₂, e₂, p₂) =
      copy_bytes-IsCopied b.bytes second (second + delta) (size b - second) m₁ (omega arith)
        (omega (arith, p₁.sized)) in
    let (m₃, e₃, p₃) = fill_bytes-IsFilled second delta m₂ (omega (arith, p₁.sized, p₂.sized)) in
    let other : (in_size == size b) ≡ false = ground arith in
    let grows : ltb in_size (size b) ≡ false = ground arith in
    rw (other, grows, e₁, e₂, e₃)
      (IsGrown-of in_pivot second delta b fresh m₁ m₂ m₃ refl (omega arith) p₁ p₂ p₃)
