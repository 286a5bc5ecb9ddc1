-- ===== src/Dbal/HandleBuf.antt =====
-- ByteStreamHandleBuf_impl.hpp: a byte string with a cursor.
pub mod Resize
use madlibport.Base.{
  ℕ, zero, suc, ◌+◌, ◌-◌, ◌^◌, Option, none, some, List, length, get_elem?, set?, replicate, ltb,
  leb, ◌==◌, ◌>>=◌, if◌then◌else◌, for_loop,
}

pub record Buf : Type 0 where
  pub bytes : List ℕ
  pub pos : ℕ

-- The constructor that allocates zeros.
unfoldable pub buf_of_size : ℕ → Buf
buf_of_size size = record { bytes = replicate size 0; pos = 0 }

abbrev pub size : Buf → ℕ
size b = length b.bytes

-- The cursor moves also when the result says that the position is invalid.
unfoldable pub buf_seek : ℕ → Buf → ℕ × Buf
buf_seek in_pos b =
    (if ltb (size b) in_pos then 2 ^ 64 - 1 else in_pos, record { bytes = b.bytes; pos = in_pos })

-- `std::copy` of `len` bytes between two memories.
abbrev pub copy_byte : List ℕ → ℕ → ℕ → ℕ → List ℕ → Option (List ℕ)
copy_byte source from to i target = do v ← get_elem? source (from + i); set? target (to + i) v

unfoldable pub copy_bytes : List ℕ → ℕ → ℕ → ℕ → List ℕ → Option (List ℕ)
copy_bytes source from to len target = for_loop 0 len (copy_byte source from to) target

-- `std::fill` with zeros.
unfoldable pub fill_bytes : ℕ → ℕ → List ℕ → Option (List ℕ)
fill_bytes from len target = for_loop 0 len (λ i t. set? t (from + i) 0) target

-- A smaller size makes `delta` negative, and `std::fill` is called with an end before its start.
unfoldable pub buf_resize : ℕ → ℕ → Buf → Option Buf
buf_resize in_size in_pivot b =
    if in_size == size b then some b else if ltb in_size (size b) then none else (do
      let second = if ltb (size b) in_pivot then size b else in_pivot
      let delta = in_size - size b
      m₁ ← copy_bytes b.bytes 0 0 second (replicate in_size 0)
      m₂ ← copy_bytes b.bytes second (second + delta) (size b - second) m₁
      m₃ ← fill_bytes second delta m₂
      some (record { bytes = m₃; pos = b.pos }))
