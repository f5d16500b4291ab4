-- ===== src/Sets/Material/Width.antt =====
-- The bytes that internal/set/material.go hashes, and the hash of a value.
use placitum_keeper.Base.{ℕ, ◌^◌, ◌<◌, Str, List, All, arith, inl, inr, Bool-cases, Option-cases}
use placitum_keeper.Base.Bytes.{IsByte, be_bytes-IsByte}
use placitum_keeper.Base.Int.{eqb_ℤ}
use placitum_keeper.Sets.Material.{material, hash_value, parse_prefix, prefix_material}
use placitum_keeper.Sets.Netip.{Library, Prefix, is_4, as_4, as_16, addr_value, value_16}
use placitum_keeper.Sets.SipHash.Width.{sip_hash_bytes-lt}
use placitum_keeper.Sets.Types.{SetType, type_cidr}

prefix_material-IsByte : (p : Prefix) → All IsByte (prefix_material p)
unfolding prefix_material as_4 as_16
prefix_material-IsByte p = elim (Bool-cases (is_4 p.addr)) [
  | inl e ↦ rw e (omega arith, (omega arith, be_bytes-IsByte 4 (addr_value p.addr)))
  | inr e ↦ rw e (omega arith, (omega arith, be_bytes-IsByte 16 (value_16 p.addr)))
]

module _ (lib : Library) where
  material-IsByte : (t : SetType) (v : Str) → All IsByte v → All IsByte (material lib t v)
  unfolding material
  material-IsByte t v h = elim (Bool-cases (eqb_ℤ t type_cidr)) [
    | inr e ↦ rw e h
    | inl e ↦ rw e (elim (Option-cases (parse_prefix lib v)) [
      | inl f ↦ rw f h
      | inr (p, f) ↦ rw f (prefix_material-IsByte p)
    ])
  ]

  -- The hash of a value, under a key of bytes, fits 64 bits: material gives bytes for any value of bytes,
  -- a text or a prefix, and SipHash keeps its four words below 2^64.
  pub hash_value-lt :
      (k : List ℕ) (t : SetType) (v : Str)
      → All IsByte k
      → All IsByte v
      → hash_value lib k t v < 2 ^ 64
  unfolding hash_value
  hash_value-lt k t v hk hv = sip_hash_bytes-lt k (material lib t v) hk (material-IsByte t v hv)
