-- ===== src/Dbal/ByteStream/Read.antt =====
-- What a read returns, and where it leaves the cursor.
use madlibport.Base.{
  ℕ, ◌+◌, ◌-◌, ◌*◌, ◌%◌, ◌^◌, ◌≤◌, ◌<◌, ◌≡◌, refl, true, Option, none, some, arith, ltb, leb, ◌==◌,
  if◌then◌else◌,
}
use madlibport.Base.Int.{pos}
use madlibport.Base.Outcome.{ok}
use madlibport.Dbal.HandleBuf.{size, buf_seek}
use madlibport.Dbal.ByteStream.{
  Alignment, by_one, by_two, by_four, by_eight, by_sixteen, width, SeekDir, from_current, Stream,
  tell, available, base_pos, align_pos, seek, read,
}
use madlibport.Dbal.ByteStream.Align.{IsAligned, align_pos-IsAligned}

-- The stream with its cursor at `p`.
abbrev pub at : ℕ → Stream → Stream
at p s = record {
  address = s.address;
  buf = record { bytes = s.buf.bytes; pos = p };
  dry_run = s.dry_run;
}

pub width_bound : (a : Alignment) → width a ≤ 16
width_bound by_one = omega arith
width_bound by_two = omega arith
width_bound by_four = omega arith
width_bound by_eight = omega arith
width_bound by_sixteen = omega arith

-- What `seek` returns.
abbrev pub told : ℕ → Stream → ℕ
told q s = if ltb (size s.buf) q then 2 ^ 64 - 1 else q

pub seek-at :
    (a : Alignment) (n : ℕ) (dir : SeekDir) (s : Stream)
    → s.address % width a ≡ 0
    → base_pos dir s + n + 16 ≤ 2 ^ 64
    → seek a (pos n) dir s
      ≡ ok (told (align_pos a (base_pos dir s + n)) s, at (align_pos a (base_pos dir s + n)) s)
unfolding seek buf_seek
seek-at a n dir s ha h =
    let inside : (base_pos dir s + n) % 2 ^ 64 ≡ base_pos dir s + n = omega arith in
    let passes : (s.address % width a == 0) ≡ true = ground arith in rw (passes, inside)

pub align_pos-by_one : (p : ℕ) → p < 2 ^ 64 → align_pos by_one p ≡ p
align_pos-by_one p h =
    let q = align_pos-IsAligned by_one p (omega arith) in omega (arith, q.above, q.least)

-- The pointer and the cursor behind it, for `len` bytes at `start`.
pub record IsRead (a : Alignment) (len : ℕ) (s : Stream) (start : ℕ) (pointer : Option ℕ)
    (s' : Stream) : Type 0 where
  pub aligned : IsAligned a (tell s) start
  pub moved : s' ≡ at (start + len) s
  pub pointed : pointer ≡ (if leb len (size s.buf - start) then some start else none)

pub read-ok :
    (a : Alignment) (type_size count : ℕ) (s : Stream)
    → s.address % width a ≡ 0
    → tell s + count * type_size + 16 ≤ 2 ^ 63
    → read a type_size count s
      ≡ ok (
        if leb (count * type_size) (size s.buf - align_pos a (tell s))
            then some (align_pos a (tell s))
            else none,
        at (align_pos a (tell s) + count * type_size) s,
      )
unfolding read
read-ok a type_size count s ha h =
    let small = width_bound a in
    let start = align_pos a (tell s) in
    let len = count * type_size in
    let q = align_pos-IsAligned a (tell s) (omega arith) in
    let below = q.least in
    let none_added : tell s + 0 ≡ tell s = omega arith in
    let e = seek-at a 0 from_current s ha (omega arith) in
    let e' = seek-at by_one len from_current (at start s) (omega arith) (omega arith) in
    let short : len % 2 ^ 64 ≡ len = omega arith in
    let positive : ltb len (2 ^ 63) ≡ true = ground arith in
    let end = align_pos-by_one (start + len) (omega arith) in
    let left : available (at start s) ≡ size s.buf - start = ground arith in
    rw (e, none_added, short, positive, e', end, left)

-- If the buffer lies at an aligned address and the position stays below 2^63, a read is at the next
-- aligned position: it returns that position if the bytes are there, else NULL, and moves the cursor
-- behind the bytes in both cases.
pub read-IsRead :
    (a : Alignment) (type_size count : ℕ) (s : Stream)
    → s.address % width a ≡ 0
    → tell s + count * type_size + 16 ≤ 2 ^ 63
    → (start : ℕ) × (pointer : Option ℕ) × (s' : Stream) × (read a type_size count s
        ≡ ok (pointer, s'))
      × IsRead a (count * type_size) s start pointer s'
read-IsRead a type_size count s ha h =
    let small = width_bound a in
    (
      _,
      _,
      _,
      read-ok a type_size count s ha h,
      record {
        aligned = align_pos-IsAligned a (tell s) (omega arith);
        moved = refl;
        pointed = refl;
      },
    )
