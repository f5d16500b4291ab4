-- ===== src/Base/Floats.antt =====
-- `float64(x)` of an int64, as the integer that it stands for: 53 bits, rounded to the nearest such
-- number, to the even one between two.
use Prim.Native.Nat.{ℕ, zero, suc, ◌+◌, ◌*◌, ◌/◌, ◌%◌, ◌^◌, ◌<◌}
use mathlib.Core.Path.{◌≡◌, ap}
use mathlib.Core.Bool.{◌&&◌, ◌||◌}
use native.Mathlib.Omega.{arith}
use placitum_keeper.Base.Tests.{ltb, ◌==◌, if◌then◌else◌}
use placitum_keeper.Base.Int.{ℤ, pos, negsuc, neg_of}

-- How often a number is halved until 53 bits hold it; an int64 has 64 bits, so the fuel is 11.
unfoldable pub halvings : ℕ → ℕ → ℕ
halvings zero n = 0
halvings (suc f) n = let more = suc (halvings f (n / 2)) in if ltb n (2 ^ 53) then 0 else more

-- The multiple of `u` next to `n`.
unfoldable pub round_even : ℕ → ℕ → ℕ
round_even n u =
    let q = n / u in
    let r = n % u in if ltb (2 * r) u || (2 * r == u && (q % 2) == 0) then q * u else (q + 1) * u

unfoldable pub float_magnitude : ℕ → ℕ
unfolding halvings round_even
float_magnitude n = round_even n (2 ^ halvings 11 n)

unfoldable pub float_of : ℤ → ℤ
unfolding float_magnitude
float_of (pos n) = pos (float_magnitude n)
float_of (negsuc n) = neg_of (float_magnitude (suc n))

float_magnitude_small : (n : ℕ) → n < 2 ^ 53 → float_magnitude n ≡ n
unfolding float_magnitude halvings round_even
float_magnitude_small n h = ground arith

-- A time in milliseconds that 53 bits hold is kept exactly.
pub float_of_small : (n : ℕ) → n < 2 ^ 53 → float_of (pos n) ≡ pos n
unfolding float_of
float_of_small n h = ap pos (float_magnitude_small n h)
