-- ===== src/Dbal/DynamicStruct/Layout.antt =====
-- Where the members of a struct lie.
use madlibport.Base.{
  ℕ, ◌+◌, ◌-◌, ◌*◌, ◌%◌, ◌^◌, ◌≤◌, ◌≡◌, refl, ap, true, false, none, some, arith, List, [], ◌∷◌,
  ltb, leb, if◌then◌else◌,
}
use madlibport.Base.Outcome.{ok}
use madlibport.Dbal.HandleBuf.{size}
use madlibport.Dbal.ByteStream.{
  Alignment, by_one, by_two, by_four, by_eight, by_sixteen, width, Stream, tell, align_pos,
}
use madlibport.Dbal.ByteStream.Align.{IsAligned, align_pos-IsAligned}
use madlibport.Dbal.ByteStream.Read.{at, width_bound, read-ok}
use madlibport.Dbal.DynamicStruct.{Member, rebind, read_member, bind_members}

abbrev pub bytes_of : Member → ℕ
bytes_of m = m.count * m.type_size

-- A bound on the bytes of the members, with their padding.
abbrev pub weight : List Member → ℕ
weight [] = 0
weight (m ∷ ms) = bytes_of m + 16 + weight ms

abbrev pub layout_end : List Member → ℕ → ℕ
layout_end [] p = p
layout_end (m ∷ ms) p = layout_end ms (align_pos m.alignment p + bytes_of m)

abbrev pub place : ℕ → ℕ → List Member → List Member
place size p [] = []
place size p (m ∷ ms) =
    rebind m (
      if leb (bytes_of m) (size - align_pos m.alignment p)
      then some (align_pos m.alignment p)
      else none)
    ∷ place size (align_pos m.alignment p + bytes_of m) ms

pub layout_end-place :
    (size p q : ℕ) (ms : List Member) → layout_end (place size p ms) q ≡ layout_end ms q
layout_end-place size p q [] = refl
layout_end-place size p q (m ∷ ms) =
    layout_end-place size (align_pos m.alignment p + bytes_of m)
      (align_pos m.alignment q + bytes_of m) ms

pub place-place :
    (size' size p q : ℕ) (ms : List Member) → place size' q (place size p ms) ≡ place size' q ms
place-place size' size p q [] = refl
place-place size' size p q (m ∷ ms) =
    ap
      (λ rest.
        rebind m (
          if leb (bytes_of m) (size' - align_pos m.alignment q)
          then some (align_pos m.alignment q)
          else none)
        ∷ rest)
      (place-place size' size (align_pos m.alignment p + bytes_of m)
        (align_pos m.alignment q + bytes_of m) ms)

pub weight-place : (size p : ℕ) (ms : List Member) → weight (place size p ms) ≡ weight ms
weight-place size p [] = refl
weight-place size p (m ∷ ms) =
    omega (arith, weight-place size (align_pos m.alignment p + bytes_of m) ms)

-- The members follow one another: each pointer is aligned, behind the bytes of the member before,
-- and its bytes are in the buffer.
abbrev pub Placed : ℕ → ℕ → List Member → Type 0
Placed size p [] = Unit
Placed size p (m ∷ ms) =
    (start : ℕ) × IsAligned m.alignment p start
    × (m.pointer ≡ some start)
    × (start + bytes_of m ≤ size)
    × Placed size (start + bytes_of m) ms

pub layout_end_bound :
    (ms : List Member) (p : ℕ)
    → p + weight ms + 16 ≤ 2 ^ 63
    → (p ≤ layout_end ms p) × (layout_end ms p ≤ p + weight ms)
layout_end_bound [] p h = (omega arith, omega arith)
layout_end_bound (m ∷ ms) p h =
    let small = width_bound m.alignment in
    let q = align_pos-IsAligned m.alignment p (omega arith) in
    let (lo, hi) =
      layout_end_bound ms (align_pos m.alignment p + bytes_of m) (omega (arith, q.least)) in
    (omega (arith, q.above), omega (arith, q.least))

pub place-Placed :
    (size : ℕ) (ms : List Member) (p : ℕ)
    → p + weight ms + 16 ≤ 2 ^ 63
    → layout_end ms p ≤ size
    → Placed size p (place size p ms)
place-Placed size [] p h fits = tt
place-Placed size (m ∷ ms) p h fits =
    let small = width_bound m.alignment in
    let q = align_pos-IsAligned m.alignment p (omega arith) in
    let start = align_pos m.alignment p in
    let room : start + bytes_of m + weight ms + 16 ≤ 2 ^ 63 = omega (arith, q.least) in
    let (lo, hi) = layout_end_bound ms (start + bytes_of m) room in
    let there : leb (bytes_of m) (size - start) ≡ true = ground arith in
    (start, q, rw there, omega arith, place-Placed size ms (start + bytes_of m) room fits)

pub aligned_sixteen : (a : Alignment) (n : ℕ) → n % 16 ≡ 0 → n % width a ≡ 0
aligned_sixteen by_one n h = omega arith
aligned_sixteen by_two n h = omega arith
aligned_sixteen by_four n h = omega arith
aligned_sixteen by_eight n h = omega arith
aligned_sixteen by_sixteen n h = h

-- Outside a dry run, `bind` gives each member its place.
pub bind_members-place :
    (ms : List Member) (s : Stream)
    → s.address % 16 ≡ 0
    → s.dry_run ≡ 0
    → tell s + weight ms + 16 ≤ 2 ^ 63
    → bind_members ms s ≡ ok (place (size s.buf) (tell s) ms, at (layout_end ms (tell s)) s)
unfolding bind_members read_member
bind_members-place [] s ha hd h = refl
bind_members-place (m ∷ ms) s ha hd h =
    let start = align_pos m.alignment (tell s) in
    let small = width_bound m.alignment in
    let q = align_pos-IsAligned m.alignment (tell s) (omega arith) in
    let e =
      read-ok m.alignment m.type_size m.count s (aligned_sixteen m.alignment s.address ha)
        (omega arith) in
    let wet : ltb 0 s.dry_run ≡ false = ground arith in
    let rest = bind_members-place ms (at (start + bytes_of m) s) ha hd (omega (arith, q.least)) in
    rw (e, wet, rest)
