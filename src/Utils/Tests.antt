-- ===== src/Utils/Tests.antt =====
-- The least power of two for five.
use madlibport.Base.{ℕ, ◌+◌, ◌^◌, ◌≤◌, ◌<◌, ◌≡◌, refl, arith}
use madlibport.Utils.PowerOfTwo.{next_power_of_two, set_lower, shift_right, next_power_of_two_lem}

five_run : next_power_of_two 16 5 ≡ 8
unfolding next_power_of_two set_lower shift_right
five_run = refl

next_power_of_two_lem_example :
    (e : ℕ) × (next_power_of_two 16 5 ≡ 2 ^ e) × (5 ≤ 2 ^ e) × (2 ^ e < 5 + 5)
next_power_of_two_lem_example = next_power_of_two_lem 15 5 (omega arith) (omega arith)
