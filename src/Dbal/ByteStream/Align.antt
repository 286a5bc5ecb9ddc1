-- ===== src/Dbal/ByteStream/Align.antt =====
-- How a position is aligned.
use madlibport.Base.{ℕ, ◌+◌, ◌%◌, ◌^◌, ◌≤◌, ◌<◌, ◌≡◌, arith}
use madlibport.Dbal.ByteStream.{
  Alignment, by_one, by_two, by_four, by_eight, by_sixteen, width, align_pos,
}

-- `q` is the least multiple of the alignment that is not below `p`.
pub record IsAligned (a : Alignment) (p q : ℕ) : Type 0 where
  pub multiple : q % width a ≡ 0
  pub above : p ≤ q
  pub least : q < p + width a

-- A position that leaves room for one alignment below 2^64 is aligned to the least multiple of the
-- alignment that is not below it.
pub align_pos-IsAligned :
    (a : Alignment) (p : ℕ) → p + width a ≤ 2 ^ 64 → IsAligned a p (align_pos a p)
unfolding align_pos
align_pos-IsAligned by_one p h = record {
  multiple = omega arith;
  above = omega arith;
  least = omega arith;
}
align_pos-IsAligned by_two p h = record {
  multiple = omega arith;
  above = omega arith;
  least = omega arith;
}
align_pos-IsAligned by_four p h = record {
  multiple = omega arith;
  above = omega arith;
  least = omega arith;
}
align_pos-IsAligned by_eight p h = record {
  multiple = omega arith;
  above = omega arith;
  least = omega arith;
}
align_pos-IsAligned by_sixteen p h = record {
  multiple = omega arith;
  above = omega arith;
  least = omega arith;
}
