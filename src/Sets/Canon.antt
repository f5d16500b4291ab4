-- ===== src/Sets/Canon.antt =====
-- internal/set/canon.go: the canonical form of a value.
use placitum_keeper.Base.{ℕ, some, none, Str, if◌then◌else◌, ltb, ◌==◌, ◌||◌, length, codes, str_eq}
use placitum_keeper.Base.Int.{eqb_ℤ}
use placitum_keeper.Base.Results.{Result, ok, err}
use placitum_keeper.Base.Text.{trim_space, parse_int, format_int, hex_encode}
use placitum_keeper.Sets.Netip.{
  Addr, Prefix, Library, zero_prefix, unmap, is_4_in_6, bit_len, prefix_from, masked,
}
use placitum_keeper.Sets.Material.{material_prefix}
use placitum_keeper.Sets.Types.{SetType, type_string, type_cidr, type_numeric}

abbrev pub value_max : ℕ
value_max = 255

pub data CanonError : Type 0 where
  err_empty err_too_long err_type : CanonError

-- `CanonPrefix` of internal/set/material.go and canon.go: the canonical text, and the prefix.
abbrev pub CanonResult : Type 0
CanonResult = Result CanonError (Str × Prefix)

-- TypeOf.
unfoldable pub type_of : Str → SetType
type_of catalog =
    if str_eq catalog (codes "ip")
      || (str_eq catalog (codes "ipv4") || str_eq catalog (codes "cidr"))
    then type_cidr
    else (if str_eq catalog (codes "numeric") then type_numeric else type_string)

module _ (lib : Library) where
  unfoldable pub md5_hex : Str → Str
  unfolding hex_encode
  md5_hex v = hex_encode (lib.md5_sum v)

  canon_addr : Addr → Str × Prefix
  unfolding prefix_from
  canon_addr a =
      let b = if is_4_in_6 a then unmap a else a in
      let p = prefix_from b (bit_len b) in (lib.prefix_string p, p)

  unfoldable pub canon_cidr : Str → CanonResult
  unfolding masked material_prefix canon_addr
  canon_cidr v = elim (lib.parse_prefix v) [
    | some p ↦ ok (lib.prefix_string (masked p), material_prefix (masked p))
    | none ↦ elim (lib.parse_addr v) [ some a ↦ ok (canon_addr a) | none ↦ err err_type ]
  ]

  -- The switch on the set's type.
  unfoldable pub canon_typed : SetType → Str → CanonResult
  unfolding canon_cidr parse_int format_int
  canon_typed t v =
      if eqb_ℤ t type_cidr
      then canon_cidr v
      else (if eqb_ℤ t type_numeric
          then (elim (parse_int v) [
            | some n ↦ ok (format_int n, zero_prefix)
            | none ↦ err err_type
          ])
          else ok (v, zero_prefix))

  unfoldable pub canon_prefix : SetType → Str → CanonResult
  unfolding canon_typed trim_space
  canon_prefix t raw =
      let v = trim_space raw in
      if length v == 0
      then err err_empty
      else (if ltb value_max (length v) then err err_too_long else canon_typed t v)

  abbrev first_of_canon : CanonResult → Result CanonError Str
  first_of_canon (ok (v, p)) = ok v
  first_of_canon (err e) = err e

  unfoldable pub canon : SetType → Str → Result CanonError Str
  unfolding canon_prefix
  canon t raw = first_of_canon (canon_prefix t raw)
