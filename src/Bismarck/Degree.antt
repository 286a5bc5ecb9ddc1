-- ===== src/Bismarck/Degree.antt =====
-- src/degree.h: an array of counts that grows to the largest index seen. Where the source hands a
-- pointer to `CoerceBytea`, which takes a value, the value pointed to is meant.
pub mod Counts
mod Tests
use madlibport.Base.{
  ℕ, zero, suc, ◌+◌, ◌%◌, ◌^◌, Bool, Option, none, some, List, [], ◌∷◌, ◌++◌, length, get_elem?,
  set?, take, replicate, ltb, leb, if◌then◌else◌, ◌>>=◌, for_loop, ◌-◌, ◌*◌, ◌&&◌,
}

-- `bytea` as its array of `uint64_t`; NULL is the empty array.
abbrev pub Degrees : Type 0
Degrees = List ℕ

unfoldable pub deg_init : Degrees
deg_init = []

-- The new block is installed only where there was an old one to copy. `BismarckAllocate` computes the
-- size in bytes as a `size_t`: where it does not fit, or the old counts do not, the block is written
-- out of bounds.
unfoldable pub deg_realloc : Degrees → ℕ → Option Degrees
deg_realloc m len =
    if ltb (8 * len) (2 ^ 64) && leb (length m) len
    then some (if ltb 0 (length m) then m ++ replicate (len - length m) 0 else m)
    else none

-- `n+1` and `d[n]++`, in 64 bits.
unfoldable pub deg_update : Degrees → ℕ → Option Degrees
unfolding deg_realloc
deg_update m n = do
  d ← if leb (length m) n then deg_realloc m ((n + 1) % 2 ^ 64) else some m
  u ← get_elem? d n
  set? d n ((u + 1) % 2 ^ 64)

abbrev pub add_degree : Degrees → ℕ → Degrees → Option Degrees
add_degree s i d = do u ← get_elem? d i; v ← get_elem? s i; set? d i ((u + v) % 2 ^ 64)

unfoldable pub deg_merge : Degrees → Degrees → Option Degrees
unfolding deg_realloc
deg_merge m dst = do
  d ← if ltb (length dst) (length m) then deg_realloc dst (length m) else some dst
  for_loop 0 (length m) (add_degree m) d

unfoldable pub deg_final : Degrees → Degrees
deg_final m = m

-- One update for each index in a list.
unfoldable pub deg_run : List ℕ → Degrees → Option Degrees
deg_run [] m = some m
deg_run (n ∷ ns) m = deg_update m n >>= deg_run ns
