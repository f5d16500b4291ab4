-- ===== src/Base/Text.antt =====
-- What the program uses of Go's strings, strconv and encoding/hex, on bytes.
pub mod Numbers
use placitum_keeper.Base.Tests.{Str, ltb, leb, ◌==◌, if◌then◌else◌}
use placitum_keeper.Base.Lists.{length}
use placitum_keeper.Base.Int.{ℤ, pos, negsuc}
use Prim.Native.Nat.{ℕ, zero, suc, ◌+◌, ◌-◌, ◌*◌, ◌/◌, ◌%◌, ◌^◌}
use mathlib.Core.Bool.{Bool, true, false, ◌&&◌}
use mathlib.Core.Option.{Option, none, some}
use mathlib.Core.List.{List, [], ◌∷◌, ◌++◌, map, reverse}

-- The UTF-8 forms of the runes that unicode.IsSpace accepts.
abbrev pub space_forms : List Str
space_forms =
    (9 ∷ [])
    ∷ (10 ∷ [])
    ∷ (11 ∷ [])
    ∷ (12 ∷ [])
    ∷ (13 ∷ [])
    ∷ (32 ∷ [])
    ∷ (0xc2 ∷ 0x85 ∷ [])
    ∷ (0xc2 ∷ 0xa0 ∷ [])
    ∷ (0xe1 ∷ 0x9a ∷ 0x80 ∷ [])
    ∷ (0xe2 ∷ 0x80 ∷ 0x80 ∷ [])
    ∷ (0xe2 ∷ 0x80 ∷ 0x81 ∷ [])
    ∷ (0xe2 ∷ 0x80 ∷ 0x82 ∷ [])
    ∷ (0xe2 ∷ 0x80 ∷ 0x83 ∷ [])
    ∷ (0xe2 ∷ 0x80 ∷ 0x84 ∷ [])
    ∷ (0xe2 ∷ 0x80 ∷ 0x85 ∷ [])
    ∷ (0xe2 ∷ 0x80 ∷ 0x86 ∷ [])
    ∷ (0xe2 ∷ 0x80 ∷ 0x87 ∷ [])
    ∷ (0xe2 ∷ 0x80 ∷ 0x88 ∷ [])
    ∷ (0xe2 ∷ 0x80 ∷ 0x89 ∷ [])
    ∷ (0xe2 ∷ 0x80 ∷ 0x8a ∷ [])
    ∷ (0xe2 ∷ 0x80 ∷ 0xa8 ∷ [])
    ∷ (0xe2 ∷ 0x80 ∷ 0xa9 ∷ [])
    ∷ (0xe2 ∷ 0x80 ∷ 0xaf ∷ [])
    ∷ (0xe2 ∷ 0x81 ∷ 0x9f ∷ [])
    ∷ (0xe3 ∷ 0x80 ∷ 0x80 ∷ [])
    ∷ []

unfoldable pub strip_prefix : Str → Str → Option Str
strip_prefix [] s = some s
strip_prefix (p ∷ ps) [] = none
strip_prefix (p ∷ ps) (c ∷ s) = let rest = strip_prefix ps s in if p == c then rest else none

unfoldable pub strip_any : List Str → Str → Option Str
unfolding strip_prefix
strip_any [] s = none
strip_any (p ∷ ps) s = elim (strip_prefix p s) [ some r ↦ some r | none ↦ strip_any ps s ]

-- Each round takes a byte at least, so the length is fuel enough.
unfoldable pub trim_front : ℕ → List Str → Str → Str
unfolding strip_any
trim_front zero forms s = s
trim_front (suc f) forms s = elim (strip_any forms s) [ some r ↦ trim_front f forms r | none ↦ s ]

-- strings.TrimSpace.
unfoldable pub trim_space : Str → Str
unfolding trim_front
trim_space s =
    let a = trim_front (length s) space_forms s in
    reverse (trim_front (length a) (map reverse space_forms) (reverse a))

abbrev pub is_digit : ℕ → Bool
is_digit c = leb 48 c && leb c 57

-- The decimal digits of a text after `acc`.
unfoldable pub parse_digits : ℕ → Str → Option ℕ
parse_digits acc [] = some acc
parse_digits acc (c ∷ cs) =
    let rest = parse_digits (acc * 10 + (c - 48)) cs in if is_digit c then rest else none

-- strconv.ParseUint(s, 10, 64), with no bound on the number: each caller checks its range.
unfoldable pub parse_nat : Str → Option ℕ
unfolding parse_digits
parse_nat [] = none
parse_nat (c ∷ cs) = parse_digits 0 (c ∷ cs)

abbrev pub in_range : Bool → Option ℕ → Option ℤ
in_range negative none = none
in_range true (some zero) = some (pos 0)
in_range true (some (suc n)) = if ltb n (2 ^ 63) then some (negsuc n) else none
in_range false (some n) = if ltb n (2 ^ 63) then some (pos n) else none

-- strconv.ParseInt(s, 10, 64); `none` is any of its errors.
unfoldable pub parse_int : Str → Option ℤ
unfolding parse_nat
parse_int [] = none
parse_int (c ∷ cs) =
    if c == 43
    then in_range false (parse_nat cs)
    else (if c == 45 then in_range true (parse_nat cs) else in_range false (parse_nat (c ∷ cs)))

-- The digits of a number below 10 ^ (k + 1).
unfoldable pub format_digits : ℕ → ℕ → Str
format_digits zero n = (n + 48) ∷ []
format_digits (suc k) n =
    let more = format_digits k (n / 10) ++ ((n % 10 + 48) ∷ []) in
    if ltb n 10 then (n + 48) ∷ [] else more

-- strconv.FormatUint(n, 10): a uint64 has twenty digits at most.
unfoldable pub format_nat : ℕ → Str
unfolding format_digits
format_nat n = format_digits 19 n

-- strconv.FormatInt(x, 10).
unfoldable pub format_int : ℤ → Str
unfolding format_nat
format_int (pos n) = format_nat n
format_int (negsuc n) = 45 ∷ format_nat (suc n)

unfoldable pub hex_digit : ℕ → ℕ
hex_digit d = if ltb d 10 then d + 48 else d + 87

-- hex.EncodeToString, and the verb %x of a byte slice.
unfoldable pub hex_encode : List ℕ → Str
unfolding hex_digit
hex_encode [] = []
hex_encode (b ∷ bs) = hex_digit (b / 16) ∷ hex_digit (b % 16) ∷ hex_encode bs

-- base64.StdEncoding: six bits to a character, with padding.
unfoldable pub base64_char : ℕ → ℕ
base64_char d =
    if ltb d 26
    then d + 65
    else (if ltb d 52 then d + 71 else (if ltb d 62 then d - 4 else (if d == 62 then 43 else 47)))

unfoldable pub base64 : List ℕ → Str
unfolding base64_char
base64 [] = []
base64 (a ∷ []) = base64_char (a / 4) ∷ base64_char (a % 4 * 16) ∷ 61 ∷ 61 ∷ []
base64 (a ∷ b ∷ []) =
    base64_char (a / 4) ∷ base64_char (a % 4 * 16 + b / 16) ∷ base64_char (b % 16 * 4) ∷ 61 ∷ []
base64 (a ∷ b ∷ c ∷ s) =
    base64_char (a / 4)
    ∷ base64_char (a % 4 * 16 + b / 16)
    ∷ base64_char (b % 16 * 4 + c / 64)
    ∷ base64_char (c % 64)
    ∷ base64 s
