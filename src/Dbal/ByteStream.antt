-- ===== src/Dbal/ByteStream.antt =====
-- ByteStream_impl.hpp: typed reads from a buffer, and dry runs.
pub mod Align
pub mod Read
pub mod DryRuns
use madlibport.Base.{
  ℕ, zero, suc, ◌+◌, ◌-◌, ◌*◌, ◌/◌, ◌%◌, ◌^◌, Bool, true, false, not, Option, none, some, length,
  ltb, leb, ◌==◌, if◌then◌else◌,
}
use madlibport.Base.Int.{ℤ, pos, negsuc}
use madlibport.Base.Outcome.{Outcome, ok, throws, ◌>>=◌, ◌>>◌, reject}
use madlibport.Dbal.HandleBuf.{Buf, size, buf_seek}

-- The alignments of `ByteStreamDefaultTypeTraits`.
pub data Alignment : Type 0 where
  by_one by_two by_four by_eight by_sixteen : Alignment

abbrev pub width : Alignment → ℕ
width by_one = 1
width by_two = 2
width by_four = 4
width by_eight = 8
width by_sixteen = 16

pub data SeekDir : Type 0 where
  from_begin from_current from_end : SeekDir

pub data StreamError : Type 0 where
  improperly_aligned non_positive_dry_run out_of_bounds : StreamError

-- `address` is where the bytes of the buffer lie in memory.
pub record Stream : Type 0 where
  pub address : ℕ
  pub buf : Buf
  pub dry_run : ℕ

abbrev pub tell : Stream → ℕ
tell s = s.buf.pos

abbrev pub available : Stream → ℕ
available s = if ltb (size s.buf) (tell s) then 0 else size s.buf - tell s

-- `rdstate`: whether the end-of-file bit is set.
abbrev pub eof : Stream → Bool
eof s = not (leb (tell s) (size s.buf))

abbrev pub base_pos : SeekDir → Stream → ℕ
base_pos from_begin s = 0
base_pos from_current s = tell s
base_pos from_end s = size s.buf

abbrev pub add_offset : ℕ → ℤ → ℕ
add_offset p (pos n) = (p + n) % 2 ^ 64
add_offset p (negsuc n) = if ltb p (suc n) then 0 else p - suc n

-- `((p - 1) & ~(Alignment - 1)) + Alignment`; for a power of two the mask clears the remainder.
unfoldable pub align_pos : Alignment → ℕ → ℕ
align_pos a p =
    ((p + (2 ^ 64 - 1)) % 2 ^ 64 - (p + (2 ^ 64 - 1)) % 2 ^ 64 % width a + width a) % 2 ^ 64

abbrev pub move_to : ℕ → Stream → ℕ × Stream
move_to p s =
    let r = buf_seek p s.buf in
    (r.0, record { address = s.address; buf = r.1; dry_run = s.dry_run })

unfoldable pub seek : Alignment → ℤ → SeekDir → Stream → Outcome StreamError (ℕ × Stream)
seek a offset dir s = do
  reject (not (s.address % width a == 0)) improperly_aligned
  ok (move_to (align_pos a (add_offset (base_pos dir s) offset)) s)

-- A `size_t` that is passed as a `std::ptrdiff_t`.
abbrev pub signed : ℕ → ℤ
signed n = if ltb n (2 ^ 63) then pos n else negsuc (2 ^ 64 - n - 1)

-- The pointer that `read` returns, as an offset; `none` is NULL.
unfoldable pub read : Alignment → ℕ → ℕ → Stream → Outcome StreamError (Option ℕ × Stream)
read a type_size count s = do
  (_, s₁) ← seek a (pos 0) from_current s
  let len = count * type_size % 2 ^ 64
  let pointer = if leb len (available s₁) then some (tell s₁) else none
  (_, s₂) ← seek by_one (signed len) from_current s₁
  ok (pointer, s₂)

abbrev pub is_in_dry_run : Stream → Bool
is_in_dry_run s = ltb 0 s.dry_run

unfoldable pub enter_dry_run : Stream → Stream
enter_dry_run s = record { address = s.address; buf = s.buf; dry_run = s.dry_run + 1 }

unfoldable pub leave_dry_run : Stream → Outcome StreamError Stream
leave_dry_run s = do
  reject (not (ltb 0 s.dry_run)) non_positive_dry_run
  ok (record { address = s.address; buf = s.buf; dry_run = s.dry_run - 1 })

-- The guard object `DryRun`: its flag `mIsIn`, next to the stream that it refers to.
unfoldable pub guard_start : Stream → Bool × Stream
guard_start s = (true, enter_dry_run s)

unfoldable pub guard_leave : Bool × Stream → Outcome StreamError (Bool × Stream)
guard_leave g = elim g.0 [ true ↦ leave_dry_run g.1 >>= λ s. ok (false, s) | false ↦ ok g ]

-- The destructor.
unfoldable pub guard_end : Bool × Stream → Outcome StreamError Stream
guard_end g = guard_leave g >>= λ h. ok h.1
