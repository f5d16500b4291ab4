-- ===== src/Store/Meta/RoundTrip.antt =====
-- What parseMeta of internal/state/state.go reads of what metaFields wrote.
use placitum_keeper.Base.{
  ℕ, zero, suc, ◌+◌, ◌*◌, ◌/◌, ◌%◌, ◌^◌, ◌<◌, ◌≡◌, refl, ap, ◌∙◌, Option, some, none, Str, List, [],
  ◌∷◌, ◌++◌, length, str_eq, All, reverse, codes, arith,
}
use placitum_keeper.Base.Bytes.{IsByte, length-reverse}
use placitum_keeper.Base.Int.{IsInt64}
use placitum_keeper.Base.Maps.{Map, lookup}
use placitum_keeper.Base.Text.{hex_digit, hex_encode, format_int, format_nat}
use placitum_keeper.Base.Text.Numbers.{parse_nat-format_nat, parse_int-format_int}
use placitum_keeper.Store.Meta.{
  Meta, hex_value, parse_hex_digits, parse_hex, parse_uint, hex_decode, below_u64, parse_meta,
  meta_fields,
}
use placitum_keeper.Wire.Frames.{hex, hex_low}
use mathlib.Core.List.{reverse-cons}
use native.Mathlib.Nat.{pow-suc}

abbrev parse_hex_more : Option ℕ → Str → Option ℕ
parse_hex_more none s = none
parse_hex_more (some n) s = parse_hex_digits n s

parse_hex_digits-append :
    (acc : ℕ) (s t : Str)
    → parse_hex_digits acc (s ++ t) ≡ parse_hex_more (parse_hex_digits acc s) t
unfolding parse_hex_digits
parse_hex_digits-append acc [] t = refl
parse_hex_digits-append acc (c ∷ s) t =
    elim (hex_value c)
      as (λ o.
        (elim o as (λ _. Option ℕ) [
          | none ↦ none
          | some d ↦ parse_hex_digits (acc * 16 + d) (s ++ t)
        ])
        ≡ parse_hex_more
            (elim o as (λ _. Option ℕ) [ none ↦ none | some d ↦ parse_hex_digits (acc * 16 + d) s ])
            t) [ none ↦ refl | some d ↦ parse_hex_digits-append (acc * 16 + d) s t ]

hex_value-hex_digit : (d : ℕ) → d < 16 → hex_value (hex_digit d) ≡ some d
unfolding hex_value hex_digit
hex_value-hex_digit d h = ground arith

last_hex : (n d : ℕ) → d < 16 → parse_hex_digits n (hex_digit d ∷ []) ≡ some (n * 16 + d)
unfolding parse_hex_digits
last_hex n d h = rw (parse_hex_digits, hex_value-hex_digit d h)

parse_hex_digits-hex_low :
    (k n : ℕ) → n < 16 ^ k → parse_hex_digits 0 (reverse (hex_low k n)) ≡ some n
unfolding hex_low
parse_hex_digits-hex_low zero n h = unfold parse_hex_digits in ap some (omega arith)
parse_hex_digits-hex_low (suc k) n h =
    ap (parse_hex_digits 0) (reverse-cons (hex_digit (n % 16)) (hex_low k (n / 16)))
    ∙ parse_hex_digits-append 0 (reverse (hex_low k (n / 16))) (hex_digit (n % 16) ∷ [])
    ∙ ap (λ o. parse_hex_more o (hex_digit (n % 16) ∷ []))
        (parse_hex_digits-hex_low k (n / 16) (omega (arith, pow-suc 16 k)))
    ∙ last_hex (n / 16) (n % 16) (omega arith)
    ∙ ap some (omega arith)

length-hex_low : (k n : ℕ) → length (hex_low k n) ≡ k
unfolding hex_low
length-hex_low zero n = refl
length-hex_low (suc k) n = ap suc (length-hex_low k (n / 16))

parse_hex_digits_of : (s : Str) → 0 < length s → parse_hex s ≡ below_u64 (parse_hex_digits 0 s)
unfolding parse_hex
parse_hex_digits_of [] h = absurd (omega arith)
parse_hex_digits_of (c ∷ s) h = refl

pub parse_hex-hex : (n : ℕ) → n < 2 ^ 64 → parse_hex (hex n) ≡ some n
unfolding hex
parse_hex-hex n h =
    parse_hex_digits_of (reverse (hex_low 16 n))
      (omega (arith, length-reverse (hex_low 16 n), length-hex_low 16 n))
    ∙ ap below_u64 (parse_hex_digits-hex_low 16 n (omega arith))
    ∙ ground arith

pub hex_decode-hex_encode : (bs : List ℕ) → All IsByte bs → hex_decode (hex_encode bs) ≡ some bs
unfolding hex_decode hex_encode
hex_decode-hex_encode [] h = refl
hex_decode-hex_encode (b ∷ bs) h =
    rw
      (
        hex_decode,
        hex_value-hex_digit (b / 16) (omega (arith, h.0)),
        hex_value-hex_digit (b % 16) (omega arith),
        hex_decode-hex_encode bs h.1,
      )
      (ap (λ x. some (x ∷ bs)) (omega arith))

pub parse_uint-format_nat : (n : ℕ) → n < 2 ^ 64 → parse_uint (format_nat n) ≡ some n
unfolding parse_uint
parse_uint-format_nat n h = rw (parse_nat-format_nat n h) (ground arith)

-- A meta whose fields have the widths of the program's types.
pub record IsMeta (m : Meta) : Type 0 where
  pub type : IsInt64 m.type
  pub epoch : m.epoch < 2 ^ 64
  pub key : (length m.key ≡ 16) × All IsByte m.key
  pub seq : m.seq < 2 ^ 64
  pub hash : m.hash < 2 ^ 64

-- Every field of the meta reads as metaFields wrote it.
pub record Writes (f : Map Str) (m : Meta) : Type 0 where
  pub id : lookup (codes "id") f ≡ some m.id
  pub type : lookup (codes "type") f ≡ some (format_int m.type)
  pub epoch : lookup (codes "epoch") f ≡ some (hex m.epoch)
  pub key : lookup (codes "key") f ≡ some (hex_encode m.key)
  pub seq : lookup (codes "seq") f ≡ some (format_nat m.seq)
  pub hash : lookup (codes "hash") f ≡ some (hex m.hash)

pub meta_fields-Writes : (m : Meta) → Writes (meta_fields m) m
unfolding meta_fields lookup str_eq
meta_fields-Writes m = record {
  id = refl;
  type = refl;
  epoch = refl;
  key = refl;
  seq = refl;
  hash = refl;
}

-- A hash with the fields of a meta, among any others, is read as that meta.
pub parse_meta_written : (f : Map Str) (m : Meta) → Writes f m → IsMeta m → parse_meta f ≡ some m
unfolding parse_meta
parse_meta_written f m w i =
    rw
      (
        w.type,
        w.epoch,
        w.key,
        w.seq,
        w.hash,
        w.id,
        parse_int-format_int m.type i.type,
        parse_hex-hex m.epoch i.epoch,
        hex_decode-hex_encode m.key i.key.1,
        i.key.0,
        parse_uint-format_nat m.seq i.seq,
        parse_hex-hex m.hash i.hash,
      )
      refl
