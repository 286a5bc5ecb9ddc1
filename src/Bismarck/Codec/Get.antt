-- ===== src/Bismarck/Codec/Get.antt =====
-- Reading the doubles of an array of bytes.
use madlibport.Base.{
  ℕ, zero, suc, ◌+◌, ◌*◌, ◌^◌, ◌<◌, ◌≡◌, ◌∙◌, ap, sym, lt→ltb, none, some, List, [], ◌∷◌, ◌++◌,
  arith, length, get_elem?, drop, ltb, All, length-append, drop-drop, ltb-false, false,
}
use madlibport.Bismarck.Codec.{bytes_of_word, to_array, array_get}
use madlibport.Bismarck.Codec.RoundTrip.{
  length-bytes_of_word, word_of_bytes-bytes_of_word, take_append, drop_append,
}

array_get_short : (i : ℕ) (arr : List ℕ) → length arr < 8 * i + 8 → array_get i arr ≡ none
unfolding array_get
array_get_short i arr h = rw (lt→ltb _ _ h)

array_get_first :
    (w : ℕ) (arr : List ℕ) → w < 2 ^ 64 → array_get 0 (bytes_of_word 8 w ++ arr) ≡ some w
unfolding array_get
array_get_first w arr h =
    let room : ltb (length (bytes_of_word 8 w ++ arr)) 8 ≡ false =
      ltb-false _ 8
        (omega (arith, length-append {0} (bytes_of_word 8 w) arr, length-bytes_of_word 8 w)) in
    rw (
      room,
      take_append 8 (bytes_of_word 8 w) arr (length-bytes_of_word 8 w),
      word_of_bytes-bytes_of_word w h,
    )

array_get-append :
    (i : ℕ) (bs arr : List ℕ) → length bs ≡ 8 → array_get (suc i) (bs ++ arr) ≡ array_get i arr
unfolding array_get
array_get-append i bs arr h =
    let cells : drop (8 * suc i) (bs ++ arr) ≡ drop (8 * i) arr =
      ap (λ k. drop k (bs ++ arr)) (omega arith)
      ∙ sym (drop-drop 8 (8 * i) (bs ++ arr))
      ∙ ap (drop (8 * i)) (drop_append 8 bs arr h) in
    let room : ltb (length (bs ++ arr)) (8 * suc i + 8) ≡ ltb (length arr) (8 * i + 8) =
      ground (arith, length-append bs arr) in
    rw (cells, room)

-- Reading the doubles of an array gives back what `ToArray` wrote, and a read past the last one is
-- out of bounds.
pub array_get-to_array :
    (ws : List ℕ) (i : ℕ) → All (λ w. w < 2 ^ 64) ws → array_get i (to_array ws) ≡ get_elem? ws i
unfolding to_array
array_get-to_array [] i h = array_get_short i [] (omega arith)
array_get-to_array (w ∷ ws) zero h = array_get_first w (to_array ws) h.0
array_get-to_array (w ∷ ws) (suc i) h =
    array_get-append i (bytes_of_word 8 w) (to_array ws) (length-bytes_of_word 8 w)
    ∙ array_get-to_array ws i h.1
