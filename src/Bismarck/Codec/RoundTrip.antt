-- ===== src/Bismarck/Codec/RoundTrip.antt =====
-- Arrays of doubles as bytes: the letters of an encoding, and what decoding gives back.
use mathlib.Core.List.{map}
use madlibport.Base.{
  ℕ, zero, suc, ◌+◌, ◌*◌, ◌/◌, ◌%◌, ◌^◌, ◌≤◌, ◌<◌, ◌≡◌, refl, ◌↔◌, ap, none, some, List, [], ◌∷◌,
  ◌++◌, arith, length, take, drop, ltb, All, length-append, All-append, length-drop, Bool-cases,
  inl, inr, ℕ_discrete, ltb-false, false,
}
use madlibport.Bismarck.Codec.{
  word_of_bytes, bytes_of_word, letters, digits_word, inplace_dub_encode, decode_slots,
  inplace_dub_decode, encode_array, decode_array, to_array,
}

-- The letters 'a' to 'p'.
abbrev pub IsLetter : ℕ → Type 0
IsLetter c = (97 ≤ c) × (c ≤ 112)

length-letters : (n f : ℕ) → length (letters n f) ≡ n
unfolding letters
length-letters zero f = refl
length-letters (suc n) f = omega (arith, length-letters n (f / 16))

letters-IsLetter : (n f : ℕ) → All IsLetter (letters n f)
unfolding letters
letters-IsLetter zero f = tt
letters-IsLetter (suc n) f = ((omega arith, omega arith), letters-IsLetter n (f / 16))

digits_word-letters : (f : ℕ) → f < 2 ^ 32 → digits_word (letters 8 f) ≡ f
unfolding letters digits_word
digits_word-letters f h = omega arith

pub length-bytes_of_word : (n w : ℕ) → length (bytes_of_word n w) ≡ n
unfolding bytes_of_word
length-bytes_of_word zero w = refl
length-bytes_of_word (suc n) w = omega (arith, length-bytes_of_word n (w / 256))

pub word_of_bytes-bytes_of_word : (w : ℕ) → w < 2 ^ 64 → word_of_bytes (bytes_of_word 8 w) ≡ w
unfolding word_of_bytes bytes_of_word
word_of_bytes-bytes_of_word w h = omega arith

module _ {ℓ} {A : Type ℓ} where
  pub take_append : (n : ℕ) (xs ys : List A) → length xs ≡ n → take n (xs ++ ys) ≡ xs
  take_append zero [] ys h = refl
  take_append zero (x ∷ xs) ys h = absurd (omega arith)
  take_append (suc n) [] ys h = absurd (omega arith)
  take_append (suc n) (x ∷ xs) ys h = ap (◌∷◌ x) (take_append n xs ys (omega arith))

  pub drop_append : (n : ℕ) (xs ys : List A) → length xs ≡ n → drop n (xs ++ ys) ≡ ys
  drop_append zero [] ys h = refl
  drop_append zero (x ∷ xs) ys h = absurd (omega arith)
  drop_append (suc n) [] ys h = absurd (omega arith)
  drop_append (suc n) (x ∷ xs) ys h = drop_append n xs ys (omega arith)

length-to_array : (ws : List ℕ) → length (to_array ws) ≡ 8 * length ws
unfolding to_array
length-to_array [] = omega arith
length-to_array (w ∷ ws) = omega (
  arith,
  length-append {0} (bytes_of_word 8 w) (to_array ws),
  length-bytes_of_word 8 w,
  length-to_array ws,
)

module _ (to_float to_double : ℕ → ℕ) where
  -- The letters of each double, in order.
  abbrev encoded : List ℕ → List ℕ
  encoded [] = []
  encoded (w ∷ ws) = letters 8 (to_float w) ++ encoded ws

  inplace_dub_encode-to_array :
      (ws : List ℕ)
      → All (λ w. w < 2 ^ 64) ws
      → inplace_dub_encode to_float (length ws) (to_array ws) ≡ encoded ws
  unfolding inplace_dub_encode to_array
  inplace_dub_encode-to_array [] h = refl
  inplace_dub_encode-to_array (w ∷ ws) h = rw (
    take_append 8 (bytes_of_word 8 w) (to_array ws) (length-bytes_of_word 8 w),
    drop_append 8 (bytes_of_word 8 w) (to_array ws) (length-bytes_of_word 8 w),
    word_of_bytes-bytes_of_word w h.0,
    inplace_dub_encode-to_array ws h.1,
  )

  encode_array-to_array :
      (ws : List ℕ) → All (λ w. w < 2 ^ 64) ws → encode_array to_float (to_array ws) ≡ encoded ws
  unfolding encode_array
  encode_array-to_array ws h =
      let size : length (to_array ws) / 8 ≡ length ws = omega (arith, length-to_array ws) in
      rw size (inplace_dub_encode-to_array ws h)

  length-encoded : (ws : List ℕ) → length (encoded ws) ≡ 8 * length ws
  length-encoded [] = omega arith
  length-encoded (w ∷ ws) = omega (
    arith,
    length-append {0} (letters 8 (to_float w)) (encoded ws),
    length-letters 8 (to_float w),
    length-encoded ws,
  )

  -- A `double` after its conversion to `float` and back.
  abbrev pub rounded : ℕ → ℕ
  rounded w = to_double (to_float w)

  decode_slots-encoded :
      ((w : ℕ) → to_float w < 2 ^ 32)
      → (ws : List ℕ)
      → decode_slots to_double (length ws) (encoded ws) ≡ some (to_array (map rounded ws))
  unfolding decode_slots to_array
  decode_slots-encoded narrow [] = refl
  decode_slots-encoded narrow (w ∷ ws) =
      let ls = letters 8 (to_float w) in
      let room : ltb (length (ls ++ encoded ws)) 8 ≡ false =
        ltb-false _ 8
          (omega (arith, length-append {0} ls (encoded ws), length-letters 8 (to_float w))) in
      rw (
        room,
        take_append 8 ls (encoded ws) (length-letters 8 (to_float w)),
        drop_append 8 ls (encoded ws) (length-letters 8 (to_float w)),
        digits_word-letters (to_float w) (narrow w),
        decode_slots-encoded narrow ws,
      )

  -- Where the conversion to `float` gives a 32-bit pattern, decoding the encoding of an array of
  -- doubles gives the array of the doubles rounded to `float`, and never reads past its end.
  pub decode_array-encode_array :
      ((w : ℕ) → to_float w < 2 ^ 32)
      → (ws : List ℕ) → All (λ w. w < 2 ^ 64) ws
      → decode_array to_double (encode_array to_float (to_array ws))
        ≡ some (to_array (map rounded ws))
  unfolding decode_array inplace_dub_decode
  decode_array-encode_array narrow ws h =
      let slots : (length (encoded ws) + 7) / 8 ≡ length ws = omega (arith, length-encoded ws) in
      rw (encode_array-to_array ws h, slots) (decode_slots-encoded narrow ws)

  encoded-IsLetter : (ws : List ℕ) → All IsLetter (encoded ws)
  encoded-IsLetter [] = tt
  encoded-IsLetter (w ∷ ws) =
      All-append IsLetter (letters 8 (to_float w)) (encoded ws) (letters-IsLetter 8 (to_float w))
        (encoded-IsLetter ws)

  -- The encoding of an array of doubles has as many bytes as the array, and each is a letter from
  -- 'a' to 'p'.
  pub encode_array-IsLetter :
      (ws : List ℕ)
      → All (λ w. w < 2 ^ 64) ws
      → All IsLetter (encode_array to_float (to_array ws))
        × (length (encode_array to_float (to_array ws)) ≡ length (to_array ws))
  encode_array-IsLetter ws h =
      rw (encode_array-to_array ws h)
        (encoded-IsLetter ws, omega (arith, length-encoded ws, length-to_array ws))

  decode_slots_whole :
      (n : ℕ) (arr : List ℕ)
      → length arr ≡ 8 * n
      → (bs : List ℕ) × (decode_slots to_double n arr ≡ some bs)
  unfolding decode_slots
  decode_slots_whole zero arr h = ([], refl)
  decode_slots_whole (suc n) arr h =
      let (bs, e) = decode_slots_whole n (drop 8 arr) (omega (arith, length-drop {0} 8 arr)) in
      (
        bytes_of_word 8 (to_double (digits_word (take 8 arr))) ++ bs,
        rw (ltb-false (length arr) 8 (omega arith), e),
      )

  decode_slots_short :
      (n : ℕ) (arr : List ℕ) → length arr < 8 * n → decode_slots to_double n arr ≡ none
  unfolding decode_slots
  decode_slots_short zero arr h = absurd (omega arith)
  decode_slots_short (suc n) arr h = elim (Bool-cases (ltb (length arr) 8)) [
    | inl short ↦ rw short
    | inr room ↦ rw (room, decode_slots_short n (drop 8 arr) (ground (arith, length-drop 8 arr)))
  ]

  -- Decoding stays within its buffer exactly when the length is a multiple of eight; otherwise the
  -- last round reads past the end.
  pub decode_array-some_iff :
      (arr : List ℕ)
      → ((bs : List ℕ) × (decode_array to_double arr ≡ some bs)) ↔ (length arr % 8 ≡ 0)
  unfolding decode_array inplace_dub_decode
  decode_array-some_iff arr = (
    λ (bs, e). elim (ℕ_discrete (length arr % 8) 0) [
      | yes p ↦ p
      | no p ↦ absurd (cc (decode_slots_short ((length arr + 7) / 8) arr (omega arith)))
    ],
    λ whole. decode_slots_whole ((length arr + 7) / 8) arr (omega arith),
  )
