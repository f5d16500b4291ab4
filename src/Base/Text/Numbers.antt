-- ===== src/Base/Text/Numbers.antt =====
-- What strconv and encoding/hex read of what they wrote.
use Prim.Native.Nat.{ℕ, zero, suc, ◌+◌, ◌-◌, ◌*◌, ◌/◌, ◌%◌, ◌^◌, ◌<◌}
use mathlib.Core.Path.{◌≡◌, refl, ap, ◌∙◌}
use mathlib.Core.Bool.{true, false}
use mathlib.Core.Option.{Option, none, some}
use mathlib.Core.Logic.{inl, inr}
use mathlib.Core.List.{[], ◌∷◌, ◌++◌}
use native.Mathlib.Omega.{arith}
use native.Mathlib.Nat.{pow-suc}
use placitum_keeper.Base.Tests.{Str, ltb, Bool-cases}
use placitum_keeper.Base.Int.{ℤ, pos, negsuc, IsInt64}
use placitum_keeper.Base.Text.{
  is_digit, parse_digits, parse_nat, parse_int, in_range, format_digits, format_nat, format_int,
}

abbrev pub parse_more : Option ℕ → Str → Option ℕ
parse_more none s = none
parse_more (some n) s = parse_digits n s

parse_digits-append :
    (acc : ℕ) (s t : Str) → parse_digits acc (s ++ t) ≡ parse_more (parse_digits acc s) t
unfolding parse_digits
parse_digits-append acc [] t = refl
parse_digits-append acc (c ∷ s) t = ground (arith, parse_digits-append (acc * 10 + (c - 48)) s t)

last_digit : (n d : ℕ) → d < 10 → parse_digits n ((d + 48) ∷ []) ≡ some (n * 10 + d)
unfolding parse_digits
last_digit n d h = ground arith

-- The number is read back after nothing.
parse_digits-format_digits :
    (k n : ℕ) → n < 10 ^ suc k → parse_digits 0 (format_digits k n) ≡ some n
unfolding format_digits
parse_digits-format_digits zero n h = ground (arith, last_digit 0 n)
parse_digits-format_digits (suc k) n h = elim (Bool-cases (ltb n 10)) [
  | inl e ↦ rw e (ground (arith, last_digit 0 n))
  | inr e ↦ rw e (
      parse_digits-append 0 (format_digits k (n / 10)) ((n % 10 + 48) ∷ [])
      ∙ ap (λ o. parse_more o ((n % 10 + 48) ∷ []))
          (parse_digits-format_digits k (n / 10) (omega (arith, pow-suc 10 (suc k))))
      ∙ last_digit (n / 10) (n % 10) (omega arith)
      ∙ ap some (omega arith))
]

-- A text that starts with a digit.
abbrev pub StartsDigit : Str → Type 0
StartsDigit [] = ⊥
StartsDigit (c ∷ s) = is_digit c ≡ true

StartsDigit-append : (s t : Str) → StartsDigit s → StartsDigit (s ++ t)
StartsDigit-append [] t h = absurd h
StartsDigit-append (c ∷ s) t h = h

format_digits-StartsDigit : (k n : ℕ) → n < 10 ^ suc k → StartsDigit (format_digits k n)
unfolding format_digits
format_digits-StartsDigit zero n h = ground arith
format_digits-StartsDigit (suc k) n h = elim (Bool-cases (ltb n 10)) [
  | inl e ↦ rw e (ground arith)
  | inr e ↦ rw e (
      StartsDigit-append (format_digits k (n / 10)) _
        (format_digits-StartsDigit k (n / 10) (omega (arith, pow-suc 10 (suc k)))))
]

parse_nat_digits : (s : Str) → StartsDigit s → parse_nat s ≡ parse_digits 0 s
unfolding parse_nat
parse_nat_digits [] h = absurd h
parse_nat_digits (c ∷ s) h = refl

-- FormatUint of a uint64 is read back.
pub parse_nat-format_nat : (n : ℕ) → n < 2 ^ 64 → parse_nat (format_nat n) ≡ some n
unfolding format_nat
parse_nat-format_nat n h =
    parse_nat_digits (format_digits 19 n) (format_digits-StartsDigit 19 n (omega arith))
    ∙ parse_digits-format_digits 19 n (omega arith)

parse_int_digits : (s : Str) → StartsDigit s → parse_int s ≡ in_range false (parse_nat s)
unfolding parse_int
parse_int_digits [] h = absurd h
parse_int_digits (c ∷ s) h = ground arith

-- FormatInt of an int64 is read back.
pub parse_int-format_int : (x : ℤ) → IsInt64 x → parse_int (format_int x) ≡ some x
unfolding format_int
parse_int-format_int (pos n) h =
    parse_int_digits (format_nat n)
      (unfold format_nat in format_digits-StartsDigit 19 n (omega arith))
    ∙ ap (in_range false) (parse_nat-format_nat n (omega arith))
    ∙ ground arith
parse_int-format_int (negsuc n) h =
    unfold parse_int in
    (ap (in_range true) (parse_nat-format_nat (suc n) (omega arith)) ∙ ground arith)
