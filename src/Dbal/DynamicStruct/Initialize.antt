-- ===== src/Dbal/DynamicStruct/Initialize.antt =====
-- `initialize`, and where the members of the struct then lie.
use madlibport.Base.{
  ℕ, ◌+◌, ◌%◌, ◌^◌, ◌≤◌, ◌≡◌, refl, ◌∙◌, ap, true, false, not, arith, List, ltb, leb, Bool-cases,
  inl, inr, replicate, length-replicate,
}
use madlibport.Base.Outcome.{ok}
use madlibport.Dbal.HandleBuf.{size, buf_of_size}
use madlibport.Dbal.ByteStream.{
  by_one, by_sixteen, from_begin, from_current, Stream, tell, eof, align_pos,
}
use madlibport.Dbal.ByteStream.Align.{align_pos-IsAligned}
use madlibport.Dbal.ByteStream.Read.{at, seek-at, align_pos-by_one}
use madlibport.Dbal.DynamicStruct.{Member, Struct, bind_to_stream, refit, initialize}
use madlibport.Dbal.DynamicStruct.Layout.{
  weight, layout_end, place, layout_end-place, place-place, weight-place, Placed, layout_end_bound,
  place-Placed, bind_members-place,
}

pub origin : (p : ℕ) → p ≡ 0 → align_pos by_sixteen (p + 0) ≡ 0
unfolding align_pos
origin p h = rw h

-- The end of a struct that starts at 0.
abbrev pub struct_end : List Member → ℕ
struct_end ms = align_pos by_sixteen (layout_end ms 0)

abbrev pub placed_struct : ℕ → Struct → Struct
placed_struct size t = record {
  members = place size 0 t.members;
  begin = 0;
  end = struct_end t.members;
  size_is_locked = false;
}

pub bind_to_stream-start :
    (t : Struct) (s : Stream)
    → s.address % 16 ≡ 0
    → s.dry_run ≡ 0
    → tell s ≡ 0
    → t.size_is_locked ≡ false
    → weight t.members + 64 ≤ 2 ^ 62
    → bind_to_stream t s ≡ ok (placed_struct (size s.buf) t, at (struct_end t.members) s)
unfolding bind_to_stream
bind_to_stream-start t s ha hd hp hl hw =
    let first = seek-at by_sixteen 0 from_current s ha (omega arith) in
    let members = bind_members-place t.members (at 0 s) ha hd (omega arith) in
    let (lo, hi) = layout_end_bound t.members 0 (omega arith) in
    let last = seek-at by_sixteen 0 from_current (at (layout_end t.members 0) s) ha (omega arith) in
    let none_added : layout_end t.members 0 + 0 ≡ layout_end t.members 0 = omega arith in
    let wet : ltb 0 s.dry_run ≡ false = ground arith in
    rw (first, origin (tell s) hp, members, hl, last, none_added, wet)

-- The second binding gives the members the same places.
bind_again :
    (old : ℕ) (t : Struct) (s : Stream)
    → s.address % 16 ≡ 0
    → s.dry_run ≡ 0
    → weight t.members + 64 ≤ 2 ^ 62
    → bind_to_stream (placed_struct old t) (at 0 s)
      ≡ ok (placed_struct (size s.buf) t, at (struct_end t.members) s)
bind_again old t s ha hd hw =
    let same_end = ap (align_pos by_sixteen) (layout_end-place old 0 0 t.members) in
    let same = place-place (size s.buf) old 0 0 t.members in
    bind_to_stream-start (placed_struct old t) (at 0 s) ha hd refl refl
      (omega (arith, weight-place old 0 t.members))
    ∙ rw (same_end, same)

-- The struct starts at 0 and ends in the buffer, its members are placed in between, and the buffer
-- is the one from before if that was long enough.
pub record Initialized (t t' : Struct) (s s' : Stream) : Type 0 where
  pub starts : t'.begin ≡ 0
  pub ends : t'.end ≤ size s'.buf
  pub placed : Placed (size s'.buf) 0 t'.members
  pub kept : struct_end t.members ≤ size s.buf → s'.buf.bytes ≡ s.buf.bytes

-- If the buffers lie at addresses divisible by 16, the stream is in no dry run, the size of the
-- struct is not locked and its members, with 16 bytes for each, stay 64 bytes below 2^62, initializing it throws no
-- error: afterwards the pointer of each member is aligned, behind the member before, and its bytes
-- are in the buffer; the buffer is replaced only if it was too short.
pub initialize-Initialized :
    (fresh : ℕ) (t : Struct) (s : Stream)
    → s.address % 16 ≡ 0
    → fresh % 16 ≡ 0
    → s.dry_run ≡ 0
    → t.size_is_locked ≡ false
    → weight t.members + 64 ≤ 2 ^ 62
    → (t' : Struct) × (s' : Stream) × (initialize fresh t s ≡ ok (t', s')) × Initialized t t' s s'
unfolding initialize refit buf_of_size
initialize-Initialized fresh t s ha hf hd hl hw =
    let first = seek-at by_one 0 from_begin s (omega arith) (omega arith) in
    let zero_pos : align_pos by_one (0 + 0) ≡ 0 = align_pos-by_one 0 (omega arith) in
    let bound = bind_to_stream-start t (at 0 s) ha hd refl hl hw in
    let (lo, hi) = layout_end_bound t.members 0 (omega arith) in
    let q = align_pos-IsAligned by_sixteen (layout_end t.members 0) (omega arith) in
    let total = struct_end t.members in
    elim (Bool-cases (leb total (size s.buf))) [
      | inl fits ↦
          let at_end : eof (at total (at 0 s)) ≡ false = ap not fits in
          (
            placed_struct (size s.buf) t,
            at total s,
            rw (first, zero_pos, bound, at_end),
            record {
              starts = refl;
              ends = ground arith;
              placed =
                  place-Placed (size s.buf) t.members 0 (omega arith) (ground (arith, q.above));
              kept = λ _. refl;
            },
          )
      | inr short ↦
          let at_end : eof (at total (at 0 s)) ≡ true = ap not short in
          let s₃ : Stream = record {
            address = fresh;
            buf = record { bytes = replicate total 0; pos = 0 };
            dry_run = s.dry_run;
          } in
          let again = seek-at by_one 0 from_begin s₃ (omega arith) (omega arith) in
          let whole : size s₃.buf ≡ total = length-replicate total 0 in
          let bound' = bind_again (size s.buf) t s₃ hf hd hw in
          let fits' : leb total (size s₃.buf) ≡ true = ground arith in
          let at_end' : eof (at total s₃) ≡ false = ap not fits' in
          (
            placed_struct (size s₃.buf) t,
            at total s₃,
            rw (first, zero_pos, bound, at_end, again, zero_pos, bound', at_end'),
            record {
              starts = refl;
              ends = omega arith;
              placed =
                  place-Placed (size s₃.buf) t.members 0 (omega arith) (omega (arith, q.above));
              kept = λ h. absurd (ground arith);
            },
          )
    ]
