-- ===== src/Sets/Netip.antt =====
-- What internal/set and internal/wire use of Go's net/netip: addresses as numbers, prefixes, and
-- the text forms, which are an interface (`Texts`).
use placitum_keeper.Base.{
  ℕ, ◌+◌, ◌-◌, ◌*◌, ◌/◌, ◌%◌, ◌^◌, Bool, true, false, Option, Str, if◌then◌else◌, ltb, leb, ◌==◌,
  List, [],
}
use placitum_keeper.Base.Bytes.{be_bytes, be_value}

-- `zero_addr` is netip.Addr{}; an IPv6 address has a zone, which is mostly empty.
pub data Addr : Type 0 where
  zero_addr : Addr
  v4 : ℕ → Addr
  v6 : ℕ → Str → Addr

-- `bits_plus_one` is 0 in an invalid prefix, as in netip.
pub record Prefix : Type 0 where
  pub addr : Addr
  pub bits_plus_one : ℕ

abbrev pub zero_prefix : Prefix
zero_prefix = record { addr = zero_addr; bits_plus_one = 0 }

abbrev pub bit_len : Addr → ℕ
bit_len zero_addr = 0
bit_len (v4 n) = 32
bit_len (v6 n z) = 128

abbrev pub is_4 : Addr → Bool
is_4 zero_addr = false
is_4 (v4 n) = true
is_4 (v6 n z) = false

-- ::ffff:a.b.c.d
abbrev pub is_4_in_6 : Addr → Bool
is_4_in_6 zero_addr = false
is_4_in_6 (v4 n) = false
is_4_in_6 (v6 n z) = (n / 2 ^ 32) == 0xffff

abbrev pub unmap_v6 : Bool → ℕ → Str → Addr
unmap_v6 true n z = v4 (n % 2 ^ 32)
unmap_v6 false n z = v6 n z

abbrev pub unmap : Addr → Addr
unmap zero_addr = zero_addr
unmap (v4 n) = v4 n
unmap (v6 n z) = unmap_v6 ((n / 2 ^ 32) == 0xffff) n z

abbrev pub without_zone : Addr → Addr
without_zone zero_addr = zero_addr
without_zone (v4 n) = v4 n
without_zone (v6 n z) = v6 n []

abbrev pub is_zero : Addr → Bool
is_zero zero_addr = true
is_zero (v4 n) = false
is_zero (v6 n z) = false

-- The number that an address is.
abbrev pub addr_value : Addr → ℕ
addr_value zero_addr = 0
addr_value (v4 n) = n
addr_value (v6 n z) = n

-- PrefixFrom for bits that are not negative.
unfoldable pub prefix_from : Addr → ℕ → Prefix
prefix_from a bits = record {
  addr = without_zone a;
  bits_plus_one = if is_zero a then 0 else (if leb bits (bit_len a) then bits + 1 else 0);
}

abbrev pub is_valid : Prefix → Bool
is_valid p = ltb 0 p.bits_plus_one

-- The address with all but the first `bits` of its `width` bits cleared.
abbrev pub mask_value : ℕ → ℕ → ℕ → ℕ
mask_value width bits n = n / 2 ^ (width - bits) * 2 ^ (width - bits)

abbrev pub mask_addr : Addr → ℕ → Addr
mask_addr zero_addr bits = zero_addr
mask_addr (v4 n) bits = v4 (mask_value 32 bits n)
mask_addr (v6 n z) bits = v6 (mask_value 128 bits n) z

-- Prefix.Masked; an invalid prefix gives Prefix{}.
unfoldable pub masked : Prefix → Prefix
unfolding prefix_from
masked p =
    if is_valid p
    then prefix_from (mask_addr p.addr (p.bits_plus_one - 1)) (p.bits_plus_one - 1)
    else zero_prefix

-- byte(p.Bits()): Bits is -1 where the prefix is invalid.
abbrev pub bits_byte : Prefix → ℕ
bits_byte p = (p.bits_plus_one + 255) % 256

-- As4 of an IPv4 address, and As16 of any address.
unfoldable pub as_4 : Addr → List ℕ
as_4 a = be_bytes 4 (addr_value a)

abbrev pub value_16 : Addr → ℕ
value_16 zero_addr = 0
value_16 (v4 n) = 0xffff * 2 ^ 32 + n
value_16 (v6 n z) = n

unfoldable pub as_16 : Addr → List ℕ
as_16 a = be_bytes 16 (value_16 a)

unfoldable pub addr_from_4 : List ℕ → Addr
addr_from_4 b = v4 (be_value b)

unfoldable pub addr_from_16 : List ℕ → Addr
addr_from_16 b = v6 (be_value b) []

-- Library functions that are not translated: netip's ParsePrefix, ParseAddr and Prefix.String,
-- and crypto/md5's Sum.
pub record Library : Type 0 where
  pub parse_prefix : Str → Option Prefix
  pub parse_addr : Str → Option Addr
  pub prefix_string : Prefix → Str
  pub md5_sum : Str → List ℕ
