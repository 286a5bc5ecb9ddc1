-- ===== src/Dbal/DynamicStruct/SetSize.antt =====
-- `bindToStream` in a dry run, and `setSize` to a larger size.
use madlibport.Base.{
  ℕ, ◌+◌, ◌-◌, ◌%◌, ◌^◌, ◌≤◌, ◌<◌, ◌≡◌, refl, ◌∙◌, ap, subst, true, false, not, Option, none, some,
  arith, List, [], ◌∷◌, ltb, leb, ◌==◌, Returns,
}
use madlibport.Base.Outcome.{ok}
use madlibport.Dbal.HandleBuf.{Buf, size, buf_resize}
use madlibport.Dbal.HandleBuf.Resize.{IsGrown, buf_resize-IsGrown}
use madlibport.Dbal.ByteStream.{
  by_one, by_sixteen, from_begin, from_current, Stream, tell, eof, align_pos,
}
use madlibport.Dbal.ByteStream.Align.{align_pos-IsAligned}
use madlibport.Dbal.ByteStream.Read.{at, seek-at, align_pos-by_one, read-ok, width_bound}
use madlibport.Dbal.DynamicStruct.{
  Member, Struct, read_member, bind_members, bind_to_stream, struct_size, set_size,
}
use madlibport.Dbal.DynamicStruct.Layout.{
  weight, bytes_of, layout_end, layout_end_bound, aligned_sixteen,
}
use madlibport.Dbal.DynamicStruct.Initialize.{
  origin, struct_end, placed_struct, bind_to_stream-start,
}

-- In a dry run the members stay as they are, and the cursor moves all the same.
bind_members_dry :
    (ms : List Member) (s : Stream)
    → s.address % 16 ≡ 0
    → 0 < s.dry_run
    → tell s + weight ms + 16 ≤ 2 ^ 63
    → bind_members ms s ≡ ok (ms, at (layout_end ms (tell s)) s)
unfolding bind_members read_member
bind_members_dry [] s ha hd h = refl
bind_members_dry (m ∷ ms) s ha hd h =
    let start = align_pos m.alignment (tell s) in
    let small = width_bound m.alignment in
    let q = align_pos-IsAligned m.alignment (tell s) (omega arith) in
    let e =
      read-ok m.alignment m.type_size m.count s (aligned_sixteen m.alignment s.address ha)
        (omega arith) in
    let dry : ltb 0 s.dry_run ≡ true = ground arith in
    let rest = bind_members_dry ms (at (start + bytes_of m) s) ha hd (omega (arith, q.least)) in
    rw (e, dry, rest)

pub bind_to_stream_dry :
    (t : Struct) (s : Stream)
    → s.address % 16 ≡ 0
    → 0 < s.dry_run
    → tell s ≡ 0
    → t.size_is_locked ≡ false
    → weight t.members + 64 ≤ 2 ^ 62
    → bind_to_stream t s ≡ ok (record t { size_is_locked = false }, at (struct_end t.members) s)
unfolding bind_to_stream
bind_to_stream_dry t s ha hd hp hl hw =
    let first = seek-at by_sixteen 0 from_current s ha (omega arith) in
    let members = bind_members_dry t.members (at 0 s) ha hd (omega arith) in
    let (lo, hi) = layout_end_bound t.members 0 (omega arith) in
    let last = seek-at by_sixteen 0 from_current (at (layout_end t.members 0) s) ha (omega arith) in
    let none_added : layout_end t.members 0 + 0 ≡ layout_end t.members 0 = omega arith in
    let dry : ltb 0 s.dry_run ≡ true = ground arith in
    rw (first, origin (tell s) hp, members, hl, last, none_added, dry)

pub align_again : (p : ℕ) → p % 16 ≡ 0 → p < 2 ^ 63 → align_pos by_sixteen (p + 0) ≡ p
unfolding align_pos
align_again p h b = omega arith

returned : {A : Type 0} (P : A → Type 0) (o : Option A) → Returns P o → (a : A) × (o ≡ some a) × P a
returned P none h = absurd h
returned P (some a) h = (a, refl, h)

grow :
    (in_size pivot : ℕ) (b : Buf)
    → size b < in_size
    → (b' : Buf) × (buf_resize in_size pivot b ≡ some b') × IsGrown pivot (in_size - size b) b b'
grow in_size pivot b h =
    returned (IsGrown pivot (in_size - size b) b) (buf_resize in_size pivot b)
      (buf_resize-IsGrown in_size pivot b h)

struct_size_lem : (t : Struct) → t.begin ≡ 0 → t.end < 2 ^ 64 → struct_size t ≡ t.end
struct_size_lem t hb h = omega arith

-- `setSize`, by the buffer that it leaves.
set_size_by :
    (fresh : ℕ) (t : Struct) (s : Stream) (b : Buf)
    → fresh % 16 ≡ 0
    → s.dry_run ≡ 0
    → t.size_is_locked ≡ false
    → weight t.members + 64 ≤ 2 ^ 62
    → struct_end t.members ≤ size b
    → (struct_size t == struct_end t.members) ≡ false
    → buf_resize ((size s.buf + struct_end t.members + 2 ^ 64 - struct_size t) % 2 ^ 64) t.end s.buf
      ≡ some b
    → set_size fresh (struct_end t.members) t s
      ≡ ok (
        placed_struct (size b) t,
        at (struct_end t.members) (record s { address = fresh; buf = b }),
      )
unfolding set_size
set_size_by fresh t s b hf hd hl hw fits other e =
    let s₁ : Stream = record { address = fresh; buf = b; dry_run = s.dry_run } in
    let first = seek-at by_one 0 from_begin s₁ (omega arith) (omega arith) in
    let zero_pos : align_pos by_one (0 + 0) ≡ 0 = align_pos-by_one 0 (omega arith) in
    let bound = bind_to_stream-start t (at 0 s₁) hf hd refl hl hw in
    let inside : leb (struct_end t.members) (size b) ≡ true = ground arith in
    let at_end : eof (at (struct_end t.members) s₁) ≡ false = ap not inside in
    rw (other, e, first, zero_pos, bound, at_end)

-- A struct at the beginning of a buffer that is too short for its members.
pub record Outgrown (fresh : ℕ) (t : Struct) (s : Stream) : Type 0 where
  pub old_aligned : s.address % 16 ≡ 0
  pub new_aligned : fresh % 16 ≡ 0
  pub wet : s.dry_run ≡ 0
  pub starts : t.begin ≡ 0
  pub unlocked : t.size_is_locked ≡ false
  pub small : weight t.members + 64 ≤ 2 ^ 62
  pub inside : t.end ≤ size s.buf
  pub more : t.end < struct_end t.members
  pub few_bytes : size s.buf < 2 ^ 62

pub set_size-IsGrown :
    (fresh : ℕ) (t : Struct) (s : Stream)
    → Outgrown fresh t s
    → (b : Buf) × (set_size fresh (struct_end t.members) t s
        ≡ ok (
          placed_struct (size b) t,
          at (struct_end t.members) (record s { address = fresh; buf = b }),
        ))
      × IsGrown t.end (struct_end t.members - t.end) s.buf b
set_size-IsGrown fresh t s h =
    let total = struct_end t.members in
    let (lo, hi) = layout_end_bound t.members 0 (omega (arith, h.small)) in
    let q = align_pos-IsAligned by_sixteen (layout_end t.members 0) (omega (arith, h.small)) in
    let bounded : total < 2 ^ 63 = omega (arith, q.least, h.small) in
    let whole : struct_size t ≡ t.end =
      struct_size_lem t h.starts (omega (arith, h.inside, h.few_bytes)) in
    let other : (t.end == total) ≡ false = ground (arith, h.more) in
    let same_sum : (size s.buf + total + 2 ^ 64 - struct_size t) % 2 ^ 64
        ≡ size s.buf + total - t.end =
      omega (arith, whole, h.inside, h.more, h.few_bytes) in
    let delta : size s.buf + total - t.end - size s.buf ≡ total - t.end = omega (arith, h.more) in
    let (b, e, p) = grow (size s.buf + total - t.end) t.end s.buf (omega (arith, h.more)) in
    (
      b,
      set_size_by fresh t s b h.new_aligned h.wet h.unlocked h.small
          (omega (arith, p.sized, h.inside)) (rw whole other)
          (ap (λ n. buf_resize n t.end s.buf) same_sum ∙ e),
      subst (λ n. IsGrown t.end n s.buf b) delta p,
    )
