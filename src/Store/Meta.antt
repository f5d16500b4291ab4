-- ===== src/Store/Meta.antt =====
-- The keys and the meta fields of internal/state/state.go.
pub mod RoundTrip
use placitum_keeper.Base.{
  ℕ, ◌+◌, ◌-◌, ◌*◌, ◌^◌, ◌&&◌, Option, some, none, Str, if◌then◌else◌, ltb, leb, ◌==◌, List, [],
  ◌∷◌, ◌++◌, length, codes,
}
use placitum_keeper.Base.Maps.{Map, lookup}
use placitum_keeper.Base.Text.{parse_int, parse_nat, format_int, format_nat, hex_encode}
use placitum_keeper.Sets.Types.{SetType}
use placitum_keeper.Wire.Frames.{hex}

unfoldable pub set_key : Str → Str
set_key name = codes "waf:set:" ++ name

unfoldable pub why_key : Str → Str
why_key name = codes "waf:set:" ++ (name ++ codes ":why")

unfoldable pub meta_key : Str → Str
meta_key name = codes "waf:set:" ++ (name ++ codes ":meta")

unfoldable pub diff_key : Str → ℕ → Str
unfolding format_nat
diff_key name seq = codes "waf:diff:" ++ (name ++ (codes ":" ++ format_nat seq))

unfoldable pub snap_key : Str → ℕ → ℕ → Str
unfolding format_nat hex
snap_key name epoch seq =
    codes "waf:snap:" ++ (name ++ (codes ":" ++ (hex epoch ++ (codes ":" ++ format_nat seq))))

pub record Meta : Type 0 where
  pub id : Str
  pub type : SetType
  pub epoch : ℕ
  pub key : List ℕ
  pub seq : ℕ
  pub hash : ℕ

-- metaFields, as the fields of a hash.
unfoldable pub meta_fields : Meta → Map Str
unfolding format_int hex hex_encode format_nat
meta_fields m =
    (codes "id", m.id)
    ∷ (codes "type", format_int m.type)
    ∷ (codes "epoch", hex m.epoch)
    ∷ (codes "key", hex_encode m.key)
    ∷ (codes "seq", format_nat m.seq)
    ∷ (codes "hash", hex m.hash)
    ∷ []

-- A missing field reads as the empty text.
abbrev pub text_or_empty : Option Str → Str
text_or_empty (some v) = v
text_or_empty none = []

abbrev pub field : Map Str → Str → Str
field f name = text_or_empty (lookup name f)

unfoldable pub hex_value : ℕ → Option ℕ
hex_value c =
    if leb 48 c && leb c 57
    then some (c - 48)
    else (if leb 97 c && leb c 102
        then some (c - 87)
        else (if leb 65 c && leb c 70 then some (c - 55) else none))

unfoldable pub parse_hex_digits : ℕ → Str → Option ℕ
unfolding hex_value
parse_hex_digits acc [] = some acc
parse_hex_digits acc (c ∷ cs) = elim (hex_value c) [
  | none ↦ none
  | some d ↦ parse_hex_digits (acc * 16 + d) cs
]

abbrev pub below_u64 : Option ℕ → Option ℕ
below_u64 none = none
below_u64 (some n) = if ltb n (2 ^ 64) then some n else none

-- strconv.ParseUint(s, 16, 64) and strconv.ParseUint(s, 10, 64).
unfoldable pub parse_hex : Str → Option ℕ
unfolding parse_hex_digits
parse_hex [] = none
parse_hex (c ∷ cs) = below_u64 (parse_hex_digits 0 (c ∷ cs))

unfoldable pub parse_uint : Str → Option ℕ
unfolding parse_nat
parse_uint s = below_u64 (parse_nat s)

-- hex.DecodeString.
unfoldable pub hex_decode : Str → Option (List ℕ)
unfolding hex_value
hex_decode [] = some []
hex_decode (a ∷ []) = none
hex_decode (a ∷ b ∷ s) = elim (hex_value a) [
  | none ↦ none
  | some x ↦ elim (hex_value b) [
    | none ↦ none
    | some y ↦ elim (hex_decode s) [ none ↦ none | some bs ↦ some ((x * 16 + y) ∷ bs) ]
  ]
]

abbrev pub of_length : ℕ → Option (List ℕ) → Option (List ℕ)
of_length n none = none
of_length n (some bs) = if length bs == n then some bs else none

infixl 5 ◌>>=◌
abbrev ◌>>=◌ {ℓ κ} : {A : Type ℓ} {B : Type κ} → Option A → (A → Option B) → Option B
none >>= f = none
some a >>= f = f a

-- parseMeta; `none` is any of its errors.
unfoldable pub parse_meta : Map Str → Option Meta
unfolding parse_int parse_hex parse_uint hex_decode lookup
parse_meta f = do
  t ← parse_int (field f (codes "type"))
  epoch ← parse_hex (field f (codes "epoch"))
  key ← of_length 16 (hex_decode (field f (codes "key")))
  seq ← parse_uint (field f (codes "seq"))
  hash ← parse_hex (field f (codes "hash"))
  some (record {
    id = field f (codes "id");
    type = t;
    epoch = epoch;
    key = key;
    seq = seq;
    hash = hash;
  })
