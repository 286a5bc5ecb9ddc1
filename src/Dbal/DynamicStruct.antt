-- ===== src/Dbal/DynamicStruct.antt =====
-- DynamicStruct_impl.hpp: a struct whose members are references into a byte stream.
pub mod Layout
pub mod Initialize
pub mod SetSize
pub mod Resize
use madlibport.Base.{
  ℕ, ◌+◌, ◌-◌, ◌^◌, ◌%◌, Bool, true, false, Option, none, some, List, [], ◌∷◌, if◌then◌else◌, ◌==◌,
  length,
}
use madlibport.Base.Int.{pos}
use madlibport.Base.Outcome.{Outcome, ok, throws, ◌>>=◌, ◌>>◌, reject, unless_fault}
use madlibport.Dbal.HandleBuf.{Buf, size, buf_of_size, buf_resize, copy_bytes}
use madlibport.Dbal.ByteStream.{
  Alignment, by_one, by_sixteen, from_begin, from_current, StreamError, out_of_bounds, Stream, tell,
  eof, seek, signed, read, is_in_dry_run, guard_start, guard_leave, guard_end,
}

-- A reference to `count` values of a type.
pub record Member : Type 0 where
  pub alignment : Alignment
  pub type_size : ℕ
  pub count : ℕ
  pub pointer : Option ℕ

-- The members in the order in which `bind` reads them, and the range of the struct.
pub record Struct : Type 0 where
  pub members : List Member
  pub begin : ℕ
  pub end : ℕ
  pub size_is_locked : Bool

abbrev pub rebind : Member → Option ℕ → Member
rebind m loc = record {
  alignment = m.alignment;
  type_size = m.type_size;
  count = m.count;
  pointer = loc;
}

-- `operator>>`: in a dry run the reference stays as it is.
unfoldable pub read_member : Member → Stream → Outcome StreamError (Member × Stream)
read_member m s = do
  (loc, s₁) ← read m.alignment m.type_size m.count s
  ok (if is_in_dry_run s₁ then m else rebind m loc, s₁)

unfoldable pub bind_members : List Member → Stream → Outcome StreamError (List Member × Stream)
bind_members [] s = ok ([], s)
bind_members (m ∷ ms) s = do
  (m', s₁) ← read_member m s
  (ms', s₂) ← bind_members ms s₁
  ok (m' ∷ ms', s₂)

-- `bindToStream`, for a mutable struct.
unfoldable pub bind_to_stream : Struct → Stream → Outcome StreamError (Struct × Stream)
bind_to_stream t s = do
  (_, s₁) ← seek by_sixteen (pos 0) from_current s
  let begin = tell s₁
  let size = (t.end + 2 ^ 64 - t.begin) % 2 ^ 64
  (members, s₂) ← bind_members t.members s₁
  (_, s₃) ←
      (if t.size_is_locked
        then seek by_one (signed ((begin + size) % 2 ^ 64)) from_begin s₂
        else seek by_sixteen (pos 0) from_current s₂)
  let dry = is_in_dry_run s₃
  ok (
    record {
      members = members;
      begin = if dry then t.begin else begin;
      end = if dry then t.end else tell s₃;
      size_is_locked = t.size_is_locked;
    },
    s₃,
  )

-- The branch of `initialize` for a buffer that is too short: it is replaced by zeros, which the
-- allocator puts at the address `fresh`.
unfoldable pub refit : ℕ → Bool → Struct → Stream → Outcome StreamError (Struct × Stream)
refit fresh false t s = ok (t, s)
refit fresh true t s = do
  (_, s₁) ←
      seek by_one (pos 0) from_begin
        (record { address = fresh; buf = buf_of_size (tell s); dry_run = s.dry_run })
  (t₁, s₂) ← bind_to_stream t s₁
  reject (eof s₂) out_of_bounds
  ok (t₁, s₂)

unfoldable pub initialize : ℕ → Struct → Stream → Outcome StreamError (Struct × Stream)
initialize fresh t s = do
  (_, s₁) ← seek by_one (pos 0) from_begin s
  (t₁, s₂) ← bind_to_stream t s₁
  refit fresh (eof s₂) t₁ s₂

abbrev pub struct_size : Struct → ℕ
struct_size t = (t.end + 2 ^ 64 - t.begin) % 2 ^ 64

-- `setSize` of the struct at the root: the buffer is resized at the end of the struct, into memory at
-- the address `fresh`, and the struct is bound again.
unfoldable pub set_size : ℕ → ℕ → Struct → Stream → Outcome StreamError (Struct × Stream)
set_size fresh in_size t s = if struct_size t == in_size then ok (t, s) else (do
  buf ←
      unless_fault
        (buf_resize ((size s.buf + in_size + 2 ^ 64 - struct_size t) % 2 ^ 64) t.end s.buf)
  (_, s₁) ←
      seek by_one (pos 0) from_begin (record { address = fresh; buf = buf; dry_run = s.dry_run })
  (t₁, s₂) ← bind_to_stream t s₁
  reject (eof s₂) out_of_bounds
  ok (t₁, s₂))

abbrev with_size : ℕ → Struct → Struct
with_size in_size t = record {
  members = t.members;
  begin = t.begin;
  end = (t.begin + in_size) % 2 ^ 64;
  size_is_locked = t.size_is_locked;
}

-- `resize`: the size is that of a dry run, whose guard is left at its end.
unfoldable pub resize : ℕ → Struct → Stream → Outcome StreamError (Struct × Stream)
unfolding set_size
resize fresh t s = do
  (_, s₁) ← seek by_one (signed t.begin) from_begin s
  let g = guard_start s₁
  (t₁, s₂) ← bind_to_stream t g.1
  g₁ ← guard_leave (g.0, s₂)
  (_, s₃) ← seek by_sixteen (pos 0) from_current g₁.1
  let in_size = (tell s₃ + 2 ^ 64 - t.begin) % 2 ^ 64
  (t₂, s₄) ← set_size fresh in_size t₁ s₃
  s₅ ← guard_end (g₁.0, s₄)
  ok (with_size in_size t₂, s₅)

-- `copy` from a struct whose bytes are given. Each of the two resizes can move the buffer.
unfoldable pub copy : ℕ → ℕ → List ℕ → Struct → Stream → Outcome StreamError (Struct × Stream)
unfolding set_size resize
copy fresh fresh' other t s = do
  (t₁, s₁) ←
      (if struct_size t == length other
        then ok (t, s)
        else set_size fresh (length other) t s >>= λ r.
            ok (record (with_size (length other) r.0) { size_is_locked = true }, r.1))
  bytes ← unless_fault (copy_bytes other 0 t₁.begin (struct_size t₁) s₁.buf.bytes)
  resize fresh' (record t₁ { size_is_locked = false })
      (record s₁ { buf = record s₁.buf { bytes = bytes } })
