-- ===== src/Sets/SipHash.antt =====
-- internal/set/siphash.go: SipHash-2-4 on uint64 words.
pub mod Width
use placitum_keeper.Base.{
  ℕ, zero, suc, ◌+◌, ◌-◌, ◌*◌, ◌/◌, ◌%◌, ◌^◌, bit_or, bit_xor, List, [], ◌∷◌, length, take, drop,
}
use placitum_keeper.Base.Bytes.{le_value}

pub record Sip : Type 0 where
  pub v0 : ℕ
  pub v1 : ℕ
  pub v2 : ℕ
  pub v3 : ℕ

-- `(x << b) | (x >> (64 - b))`
unfoldable pub rotl : ℕ → ℕ → ℕ
rotl x b = bit_or (x * 2 ^ b % 2 ^ 64) (x / 2 ^ (64 - b))

abbrev pub add64 : ℕ → ℕ → ℕ
add64 a b = (a + b) % 2 ^ 64

-- The first half and the second half of the mixing, in the order of the statements.
sip_half : Sip → Sip
unfolding rotl
sip_half s =
    let a0 = add64 s.v0 s.v1 in
    let a1 = bit_xor (rotl s.v1 13) a0 in
    let b0 = rotl a0 32 in
    let a2 = add64 s.v2 s.v3 in
    let a3 = bit_xor (rotl s.v3 16) a2 in record { v0 = b0; v1 = a1; v2 = a2; v3 = a3 }

sip_other_half : Sip → Sip
unfolding rotl
sip_other_half s =
    let a0 = add64 s.v0 s.v3 in
    let a3 = bit_xor (rotl s.v3 21) a0 in
    let a2 = add64 s.v2 s.v1 in
    let a1 = bit_xor (rotl s.v1 17) a2 in
    let b2 = rotl a2 32 in record { v0 = a0; v1 = a1; v2 = b2; v3 = a3 }

unfoldable pub sip_round : Sip → Sip
unfolding sip_half sip_other_half
sip_round s = sip_other_half (sip_half s)

-- One block: `v3 ^= m`, two rounds, `v0 ^= m`.
unfoldable pub sip_block : ℕ → Sip → Sip
unfolding sip_round
sip_block m s =
    let t = sip_round (sip_round (record s { v3 = bit_xor s.v3 m })) in
    record t { v0 = bit_xor t.v0 m }

-- The loop over the whole blocks of eight bytes; `n` counts those that are left.
unfoldable pub sip_blocks : ℕ → List ℕ → Sip → Sip
unfolding sip_block le_value
sip_blocks zero b s = s
sip_blocks (suc n) b s = sip_blocks n (drop 8 b) (sip_block (le_value (take 8 b)) s)

-- `last |= uint64(b[i]) << (8 * (i - full))` over the bytes after the last whole block.
unfoldable pub sip_tail : ℕ → ℕ → List ℕ → ℕ
sip_tail last shift [] = last
sip_tail last shift (b ∷ bs) = sip_tail (bit_or last (b * 2 ^ shift % 2 ^ 64)) (shift + 8) bs

unfoldable pub sip_init : List ℕ → Sip
unfolding le_value
sip_init k =
    let k0 = le_value (take 8 k) in
    let k1 = le_value (take 8 (drop 8 k)) in
    record {
      v0 = bit_xor k0 0x736f6d6570736575;
      v1 = bit_xor k1 0x646f72616e646f6d;
      v2 = bit_xor k0 0x6c7967656e657261;
      v3 = bit_xor k1 0x7465646279746573;
    }

unfoldable pub sip_finish : Sip → ℕ
unfolding sip_round
sip_finish s =
    let t = sip_round (sip_round (sip_round (sip_round (record s { v2 = bit_xor s.v2 0xff })))) in
    bit_xor (bit_xor (bit_xor t.v0 t.v1) t.v2) t.v3

unfoldable pub sip_hash_bytes : List ℕ → List ℕ → ℕ
unfolding sip_init sip_blocks sip_tail sip_block sip_finish
sip_hash_bytes k b =
    let n = length b in
    let full = n - n % 8 in
    let last = sip_tail (n * 2 ^ 56 % 2 ^ 64) 0 (drop full b) in
    sip_finish (sip_block last (sip_blocks (full / 8) b (sip_init k)))
