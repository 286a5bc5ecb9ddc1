-- ===== src/Bismarck/Codec/Tests.antt =====
-- Runs of the array codec, and its theorems at concrete inputs. The conversions keep the lower half
-- of a pattern.
use madlibport.Base.{ℕ, ◌%◌, ◌^◌, ◌<◌, ◌≡◌, refl, ◌↔◌, some, List, [], ◌∷◌, arith}
use madlibport.Bismarck.Codec.{
  encode_array, decode_array, inplace_dub_encode, inplace_dub_decode, decode_slots, letters,
  digits_word, word_of_bytes, bytes_of_word, to_array,
}
use madlibport.Bismarck.Codec.RoundTrip.{decode_array-encode_array, decode_array-some_iff}

narrow : ℕ → ℕ
narrow w = w % 2 ^ 32

widen : ℕ → ℕ
widen f = f

narrow_fits : (w : ℕ) → narrow w < 2 ^ 32
unfolding narrow
narrow_fits w = omega arith

abbrev words : List ℕ
words = 0x3f800000 ∷ 0xdeadbeef ∷ []

encode_run :
    encode_array narrow (to_array (0x3f80001b ∷ []))
    ≡ 108 ∷ 98 ∷ 97 ∷ 97 ∷ 97 ∷ 105 ∷ 112 ∷ 100 ∷ []
unfolding encode_array inplace_dub_encode letters word_of_bytes to_array bytes_of_word narrow
encode_run = refl

decode_run : decode_array widen (encode_array narrow (to_array words)) ≡ some (to_array words)
unfolding encode_array inplace_dub_encode letters word_of_bytes to_array bytes_of_word narrow
    decode_array inplace_dub_decode decode_slots digits_word widen
decode_run = refl

decode_array-encode_array_example :
    decode_array widen (encode_array narrow (to_array words))
    ≡ some (to_array (widen (narrow 0x3f800000) ∷ widen (narrow 0xdeadbeef) ∷ []))
decode_array-encode_array_example =
    decode_array-encode_array narrow widen narrow_fits words (omega arith, (omega arith, tt))

decode_array-some_iff_example :
    ((bs : List ℕ) × (decode_array widen (97 ∷ 97 ∷ 97 ∷ []) ≡ some bs)) ↔ (◌≡◌ {A = ℕ} 3 0)
decode_array-some_iff_example = decode_array-some_iff narrow widen (97 ∷ 97 ∷ 97 ∷ [])
