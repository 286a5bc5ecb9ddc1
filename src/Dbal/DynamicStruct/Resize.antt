-- ===== src/Dbal/DynamicStruct/Resize.antt =====
-- `resize` of a struct whose members have grown.
use madlibport.Base.{
  ℕ, ◌+◌, ◌-◌, ◌%◌, ◌^◌, ◌≤◌, ◌<◌, ◌≡◌, refl, ◌∙◌, ap, true, false, some, arith, List, ltb,
  get_elem?,
}
use madlibport.Base.Int.{pos}
use madlibport.Base.Outcome.{ok}
use madlibport.Dbal.HandleBuf.{size}
use madlibport.Dbal.ByteStream.{
  by_one, by_sixteen, from_begin, from_current, Stream, tell, align_pos, guard_start, guard_leave,
  guard_end, enter_dry_run, leave_dry_run, seek, signed,
}
use madlibport.Dbal.ByteStream.Align.{align_pos-IsAligned}
use madlibport.Dbal.ByteStream.Read.{at, told, seek-at, align_pos-by_one}
use madlibport.Dbal.DynamicStruct.{Member, Struct, bind_to_stream, set_size, with_size, resize}
use madlibport.Dbal.DynamicStruct.Layout.{
  weight, layout_end, Placed, layout_end_bound, place-Placed,
}
use madlibport.Dbal.DynamicStruct.Initialize.{struct_end, placed_struct}
use madlibport.Dbal.DynamicStruct.SetSize.{
  bind_to_stream_dry, align_again, Outgrown, set_size-IsGrown,
}

-- The struct is at the beginning of the buffer, up to the end of its members, which are placed in
-- it; zeros have come in at its old end.
pub record Resized (t t' : Struct) (s s' : Stream) : Type 0 where
  pub starts : t'.begin ≡ 0
  pub ends : t'.end ≡ struct_end t.members
  pub placed : Placed (size s'.buf) 0 t'.members
  pub in_buffer : t'.end ≤ size s'.buf
  pub same_dry_run : s'.dry_run ≡ s.dry_run
  pub sized : size s'.buf ≡ size s.buf + (t'.end - t.end)
  pub before : (i : ℕ) → i < t.end → get_elem? s'.buf.bytes i ≡ get_elem? s.buf.bytes i
  pub zeros : (i : ℕ) → t.end ≤ i → i < t'.end → get_elem? s'.buf.bytes i ≡ some 0
  pub after :
      (i : ℕ)
      → t.end ≤ i
      → i < size s.buf
      → get_elem? s'.buf.bytes (i + (t'.end - t.end)) ≡ get_elem? s.buf.bytes i

-- The calls that `resize` makes, in its order.
resize_by :
    (fresh : ℕ) (t : Struct) (s : Stream) {p q r : ℕ} {s₁ s₂ s₃ s₄ s' : Stream} {t₁ t₂ : Struct}
    → seek by_one (signed t.begin) from_begin s ≡ ok (p, s₁)
    → bind_to_stream t (enter_dry_run s₁) ≡ ok (t₁, s₂)
    → leave_dry_run s₂ ≡ ok s₃
    → seek by_sixteen (pos 0) from_current s₃ ≡ ok (q, s₄)
    → (tell s₄ + 2 ^ 64 - t.begin) % 2 ^ 64 ≡ r
    → set_size fresh r t₁ s₄ ≡ ok (t₂, s')
    → resize fresh t s ≡ ok (with_size r t₂, s')
unfolding resize guard_start guard_leave guard_end
resize_by fresh t s e₁ e₂ e₃ e₄ e₅ e₆ = rw (e₁, e₂, e₃, e₄, e₅, e₆)

enter_leave : (p : ℕ) (s : Stream) → leave_dry_run (at p (enter_dry_run s)) ≡ ok (at p s)
unfolding enter_dry_run leave_dry_run
enter_leave p s =
    let inside : ltb 0 (s.dry_run + 1) ≡ true = ground arith in
    let back : s.dry_run + 1 - 1 ≡ s.dry_run = omega arith in rw (inside, back)

dry_bind :
    (fresh : ℕ) (t : Struct) (s : Stream)
    → Outgrown fresh t s
    → bind_to_stream t (enter_dry_run (at 0 s))
      ≡ ok (record t { size_is_locked = false }, at (struct_end t.members) (enter_dry_run s))
unfolding enter_dry_run
dry_bind fresh t s h =
    bind_to_stream_dry t (enter_dry_run (at 0 s)) h.old_aligned (omega arith) refl h.unlocked
      h.small

struct_end_bound : (ms : List Member) → weight ms + 64 ≤ 2 ^ 62 → struct_end ms < 2 ^ 62
struct_end_bound ms h =
    let (lo, hi) = layout_end_bound ms 0 (omega arith) in
    let q = align_pos-IsAligned by_sixteen (layout_end ms 0) (omega arith) in omega (arith, q.least)

seek_end :
    (fresh : ℕ) (t : Struct) (s : Stream)
    → Outgrown fresh t s
    → (q : ℕ) × (seek by_sixteen (pos 0) from_current (at (struct_end t.members) s)
        ≡ ok (q, at (struct_end t.members) s))
seek_end fresh t s h =
    let (lo, hi) = layout_end_bound t.members 0 (omega (arith, h.small)) in
    let q = align_pos-IsAligned by_sixteen (layout_end t.members 0) (omega (arith, h.small)) in
    let small = struct_end_bound t.members h.small in
    let same = align_again (struct_end t.members) q.multiple (omega arith) in
    (
      told (struct_end t.members) s,
      seek-at by_sixteen 0 from_current (at (struct_end t.members) s) h.old_aligned (omega arith)
          ∙ ap (λ n. ok (told n s, at n s)) same,
    )

-- A struct at the beginning of its buffer whose members, after a change of their counts, end behind
-- it: with buffers at addresses divisible by 16, outside a dry run, and with bytes and members that stay
-- below 2^62, resizing it throws no error. The struct then ends where its members do, each of them is
-- aligned, behind the one before and in the buffer; the bytes before the old end are as they were, those
-- behind it come after the new one, and there are zeros in between.
pub resize-Resized :
    (fresh : ℕ) (t : Struct) (s : Stream)
    → Outgrown fresh t s
    → (t' : Struct) × (s' : Stream) × (resize fresh t s ≡ ok (t', s')) × Resized t t' s s'
resize-Resized fresh t s h =
    let total = struct_end t.members in
    let small = struct_end_bound t.members h.small in
    let t₁ : Struct = record t { size_is_locked = false } in
    let zero_pos : align_pos by_one (0 + 0) ≡ 0 = align_pos-by_one 0 (omega arith) in
    let first : seek by_one (signed t.begin) from_begin s ≡ ok (told 0 s, at 0 s) =
      ap (λ n. seek by_one (signed n) from_begin s) h.starts
      ∙ seek-at by_one 0 from_begin s (omega arith) (omega arith)
      ∙ ap (λ n. ok (told n s, at n s)) zero_pos in
    let (q, last) = seek_end fresh t s h in
    let whole : (total + 2 ^ 64 - t.begin) % 2 ^ 64 ≡ total = omega (arith, h.starts) in
    let (b, e, p) = set_size-IsGrown fresh t₁ (at total s) (record {
      old_aligned = h.old_aligned;
      new_aligned = h.new_aligned;
      wet = h.wet;
      starts = h.starts;
      unlocked = refl;
      small = h.small;
      inside = h.inside;
      more = h.more;
      few_bytes = h.few_bytes;
    }) in
    let (lo, hi) = layout_end_bound t.members 0 (omega (arith, h.small)) in
    let aligned =
      align_pos-IsAligned by_sixteen (layout_end t.members 0) (omega (arith, h.small)) in
    let ends : (0 + total) % 2 ^ 64 ≡ total = omega arith in
    (
      with_size total (placed_struct (size b) t₁),
      at total (record s { address = fresh; buf = b }),
      resize_by fresh t s first (dry_bind fresh t s h) (enter_leave total s) last whole e,
      record {
        starts = refl;
        ends = ends;
        placed =
            place-Placed (size b) t.members 0 (omega (arith, h.small))
              (omega (arith, p.sized, aligned.above, h.inside, h.more));
        in_buffer = omega (arith, ends, p.sized, h.inside, h.more);
        same_dry_run = refl;
        sized = omega (arith, ends, p.sized);
        before = λ i below. p.before i below (omega (arith, h.inside));
        zeros = λ i above below. p.zeros i above (omega (arith, ends, h.more)) h.inside;
        after = λ i above below.
            ap (λ n. get_elem? b.bytes (i + (n - t.end))) ends ∙ p.after i above below;
      },
    )
