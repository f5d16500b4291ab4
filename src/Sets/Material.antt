-- ===== src/Sets/Material.antt =====
-- internal/set/material.go: the bytes of a value that are hashed.
pub mod Width
use placitum_keeper.Base.{
  ℕ, ◌-◌, ◌&&◌, Option, some, none, Str, if◌then◌else◌, leb, List, [], ◌∷◌, bit_xor,
}
use placitum_keeper.Base.Int.{eqb_ℤ}
use placitum_keeper.Sets.Netip.{
  Prefix, Library, is_4, is_4_in_6, unmap, bit_len, prefix_from, is_valid, masked, bits_byte, as_4,
  as_16,
}
use placitum_keeper.Sets.SipHash.{sip_hash_bytes}
use placitum_keeper.Sets.Types.{SetType, type_cidr}

-- An IPv4-mapped prefix of 96 bits or more becomes an IPv4 prefix; `p.Bits()` is 96 or more
-- exactly if `bits_plus_one` is 97 or more.
unfoldable pub material_prefix : Prefix → Prefix
unfolding masked prefix_from
material_prefix p =
    if is_4_in_6 p.addr && leb 97 p.bits_plus_one
    then masked (prefix_from (unmap p.addr) (p.bits_plus_one - 1 - 96))
    else (if is_valid p then masked (prefix_from p.addr (p.bits_plus_one - 1)) else masked p)

unfoldable pub prefix_material : Prefix → List ℕ
unfolding as_4 as_16
prefix_material p =
    if is_4 p.addr then 4 ∷ bits_byte p ∷ as_4 p.addr else 6 ∷ bits_byte p ∷ as_16 p.addr

module _ (lib : Library) where
  -- ParsePrefix of material.go.
  unfoldable pub parse_prefix : Str → Option Prefix
  unfolding material_prefix prefix_from
  parse_prefix value = elim (lib.parse_prefix value) [
    | some p ↦ some (material_prefix p)
    | none ↦ elim (lib.parse_addr value) [
      | some a ↦ some (prefix_from (unmap a) (bit_len (unmap a)))
      | none ↦ none
    ]
  ]

  unfoldable pub material : SetType → Str → List ℕ
  unfolding parse_prefix prefix_material
  material t value =
      if eqb_ℤ t type_cidr
      then (elim (parse_prefix value) [ some p ↦ prefix_material p | none ↦ value ])
      else value

  unfoldable pub hash_value : List ℕ → SetType → Str → ℕ
  unfolding material
  hash_value k t value = sip_hash_bytes k (material t value)

  hash_values_from : List ℕ → SetType → ℕ → List Str → ℕ
  hash_values_from k t h [] = h
  hash_values_from k t h (v ∷ vs) = hash_values_from k t (bit_xor h (hash_value k t v)) vs

  unfoldable pub hash_values : List ℕ → SetType → List Str → ℕ
  unfolding hash_values_from
  hash_values k t values = hash_values_from k t 0 values
