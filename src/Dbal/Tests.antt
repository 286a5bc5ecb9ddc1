-- ===== src/Dbal/Tests.antt =====
-- Small runs of the byte streams.
use madlibport.Base.{
  ℕ, ◌≡◌, refl, false, Option, none, some, [], ◌∷◌, arith, replicate, Returns, for_loop,
}
use madlibport.Base.Outcome.{ok}
use madlibport.Dbal.HandleBuf.{Buf, buf_resize, copy_bytes, fill_bytes}
use madlibport.Dbal.HandleBuf.Resize.{IsGrown, buf_resize-IsGrown}
use madlibport.Dbal.ByteStream.{Stream, by_eight, by_two, align_pos, read}
use madlibport.Dbal.ByteStream.Read.{IsRead, read-IsRead}
use madlibport.Dbal.DynamicStruct.{Struct, initialize, resize}
use madlibport.Dbal.DynamicStruct.Resize.{Resized, resize-Resized}
use madlibport.Dbal.DynamicStruct.Initialize.{Initialized, initialize-Initialized}

abbrev three_bytes : Buf
three_bytes = record { bytes = 7 ∷ 8 ∷ 9 ∷ []; pos = 1 }

abbrev small_stream : Stream
small_stream = record { address = 32; buf = three_bytes; dry_run = 0 }

-- A member of two shorts, then a double.
abbrev two_members : Struct
two_members = record {
  members =
      record { alignment = by_two; type_size = 2; count = 2; pointer = none }
      ∷ record { alignment = by_eight; type_size = 8; count = 1; pointer = none }
      ∷ [];
  begin = 0;
  end = 0;
  size_is_locked = false;
}

-- Bytes come in behind the first; a buffer cannot be made smaller.
resize_run :
    (buf_resize 5 1 three_bytes ≡ some (record { bytes = 7 ∷ 0 ∷ 0 ∷ 8 ∷ 9 ∷ []; pos = 1 }))
    × (buf_resize 2 1 three_bytes ≡ none)
unfolding buf_resize copy_bytes fill_bytes for_loop
resize_run = (refl, refl)

buf_resize-IsGrown_example : Returns (IsGrown 1 2 three_bytes) (buf_resize 5 1 three_bytes)
buf_resize-IsGrown_example = buf_resize-IsGrown 5 1 three_bytes (omega arith)

abbrev SmallRead : Type 0
SmallRead =
    (start : ℕ) × (pointer : Option ℕ) × (s' : Stream) × (read by_two 2 1 small_stream
      ≡ ok (pointer, s'))
    × IsRead by_two 2 small_stream start pointer s'

read-IsRead_example : SmallRead
read-IsRead_example = read-IsRead by_two 2 1 small_stream (omega arith) (omega arith)

abbrev SmallInit : Type 0
SmallInit =
    (t' : Struct) × (s' : Stream) × (initialize 64 two_members small_stream ≡ ok (t', s'))
    × Initialized two_members t' small_stream s'

initialize-Initialized_example : SmallInit
initialize-Initialized_example =
    initialize-Initialized 64 two_members small_stream (omega arith) (omega arith) refl refl
      (omega arith)

-- The second member has got a second double since the struct was bound.
abbrev one_double_more : Struct
one_double_more = record {
  members =
      record { alignment = by_two; type_size = 2; count = 2; pointer = some 0 }
      ∷ record { alignment = by_eight; type_size = 8; count = 2; pointer = some 8 }
      ∷ [];
  begin = 0;
  end = 16;
  size_is_locked = false;
}

abbrev bound_stream : Stream
bound_stream = record {
  address = 32;
  buf = record { bytes = replicate 16 5; pos = 16 };
  dry_run = 0;
}

abbrev SmallResize : Type 0
SmallResize =
    (t' : Struct) × (s' : Stream) × (resize 64 one_double_more bound_stream ≡ ok (t', s'))
    × Resized one_double_more t' bound_stream s'

resize-Resized_example : SmallResize
unfolding align_pos
resize-Resized_example = resize-Resized 64 one_double_more bound_stream (record {
  old_aligned = omega arith;
  new_aligned = omega arith;
  wet = refl;
  starts = refl;
  unlocked = refl;
  small = omega arith;
  inside = omega arith;
  more = omega arith;
  few_bytes = omega arith;
})
