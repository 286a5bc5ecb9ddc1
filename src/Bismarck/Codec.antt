-- ===== src/Bismarck/Codec.antt =====
-- src/bismarckarray.cc: reads of an array, and its encoding in letters. Memory is bytes, little
-- endian; a `double` is the bit pattern in eight of them. The two conversions between `float` and
-- `double` are the compiler's, and enter as arguments on bit patterns.
pub mod RoundTrip
pub mod Get
mod Tests
use madlibport.Base.{
  ℕ, zero, suc, ◌+◌, ◌-◌, ◌*◌, ◌/◌, ◌%◌, ◌^◌, Bool, Option, none, some, List, [], ◌∷◌, ◌++◌, length,
  get_elem?, take, drop, ltb, if◌then◌else◌, ◌>>=◌,
}

-- The pattern in a list of bytes, and the bytes of a pattern.
unfoldable pub word_of_bytes : List ℕ → ℕ
word_of_bytes [] = 0
word_of_bytes (b ∷ bs) = b + 256 * word_of_bytes bs

unfoldable pub bytes_of_word : ℕ → ℕ → List ℕ
bytes_of_word zero w = []
bytes_of_word (suc n) w = w % 256 ∷ bytes_of_word n (w / 256)

-- `97 + ((f >> (4 * k)) & 0xF)` for k = 0, …: the letters of a pattern, from its lowest digit.
unfoldable pub letters : ℕ → ℕ → List ℕ
letters zero f = []
letters (suc n) f = (97 + f % 16) ∷ letters n (f / 16)

-- `(c - 97) & 0xF`, computed in `int`.
abbrev pub digit_of_letter : ℕ → ℕ
digit_of_letter c = (c + 256 - 97) % 16

-- `for (k = 7; k >= 0; k--) f = (f << 4) | digit`, in 32 bits: the low four bits are free, so
-- that `|` is a sum.
unfoldable pub digits_word : List ℕ → ℕ
digits_word [] = 0
digits_word (c ∷ cs) = digits_word cs * 16 % 2 ^ 32 + digit_of_letter c

-- The loop of `inplace_dub_encode` over `n` doubles; bytes behind them are left.
unfoldable pub inplace_dub_encode : (ℕ → ℕ) → ℕ → List ℕ → List ℕ
inplace_dub_encode to_float zero arr = arr
inplace_dub_encode to_float (suc n) arr =
    letters 8 (to_float (word_of_bytes (take 8 arr))) ++ inplace_dub_encode to_float n (drop 8 arr)

-- The loop of `inplace_dub_decode` over `slots` groups of eight bytes; a last group that is not
-- whole is a read past the end.
unfoldable pub decode_slots : (ℕ → ℕ) → ℕ → List ℕ → Option (List ℕ)
decode_slots to_double zero arr = some []
decode_slots to_double (suc n) arr =
    let rest = decode_slots to_double n (drop 8 arr) in
    if ltb (length arr) 8
    then none
    else (rest >>= λ bytes. some (bytes_of_word 8 (to_double (digits_word (take 8 arr))) ++ bytes))

-- `for (i = 0; i < len; i += 8)` makes as many rounds as there are groups, whole or not.
unfoldable pub inplace_dub_decode : (ℕ → ℕ) → List ℕ → Option (List ℕ)
inplace_dub_decode to_double arr = decode_slots to_double ((length arr + 7) / 8) arr

unfoldable pub encode_array : (ℕ → ℕ) → List ℕ → List ℕ
encode_array to_float arr = inplace_dub_encode to_float (length arr / 8) arr

unfoldable pub decode_array : (ℕ → ℕ) → List ℕ → Option (List ℕ)
decode_array to_double arr = inplace_dub_decode to_double arr

-- `ToArray`: the bytes of the doubles, in order.
unfoldable pub to_array : List ℕ → List ℕ
to_array [] = []
to_array (w ∷ ws) = bytes_of_word 8 w ++ to_array ws

-- `darr[i]`; there is no check of the index.
unfoldable pub array_get : ℕ → List ℕ → Option ℕ
array_get i arr =
    if ltb (length arr) (8 * i + 8) then none else some (word_of_bytes (take 8 (drop (8 * i) arr)))
