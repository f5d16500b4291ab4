-- ===== src/Sets/SipHash/Width.antt =====
-- The hash of internal/set/siphash.go is a word.
use placitum_keeper.Base.{
  ℕ, zero, suc, ◌+◌, ◌-◌, ◌*◌, ◌/◌, ◌%◌, ◌^◌, ◌<◌, bit_or, bit_xor, List, [], ◌∷◌, length, take,
  drop, All, arith,
}
use native.Mathlib.Nat.{pow-suc}
use placitum_keeper.Base.Bits.{xor-lt, or-lt}
use placitum_keeper.Base.Bytes.{IsByte, le_value}
use placitum_keeper.Sets.SipHash.{
  Sip, rotl, add64, sip_half, sip_other_half, sip_round, sip_block, sip_blocks, sip_tail, sip_init,
  sip_finish, sip_hash_bytes,
}

-- Four words.
record AreWords (s : Sip) : Type 0 where
  v0 : s.v0 < 2 ^ 64
  v1 : s.v1 < 2 ^ 64
  v2 : s.v2 < 2 ^ 64
  v3 : s.v3 < 2 ^ 64

-- The parts of a word that is turned round, for the four distances of the source.
rotl-lt :
    (x b c : ℕ) → x < 2 ^ 64 → x / 2 ^ c < 2 ^ 64 → bit_or (x * 2 ^ b % 2 ^ 64) (x / 2 ^ c) < 2 ^ 64
rotl-lt x b c h low = or-lt 64 (x * 2 ^ b % 2 ^ 64) (x / 2 ^ c) (omega arith) low

add64-lt : (a b : ℕ) → add64 a b < 2 ^ 64
add64-lt a b = omega arith

sip_half-AreWords : (s : Sip) → AreWords s → AreWords (sip_half s)
unfolding sip_half rotl
sip_half-AreWords s w = record {
  v0 = rotl-lt (add64 s.v0 s.v1) 32 32 (omega arith) (omega arith);
  v1 = xor-lt 64 _ (add64 s.v0 s.v1) (rotl-lt s.v1 13 51 w.v1 (omega (arith, w.v1))) (omega arith);
  v2 = add64-lt s.v2 s.v3;
  v3 = xor-lt 64 _ (add64 s.v2 s.v3) (rotl-lt s.v3 16 48 w.v3 (omega (arith, w.v3))) (omega arith);
}

sip_other_half-AreWords : (s : Sip) → AreWords s → AreWords (sip_other_half s)
unfolding sip_other_half rotl
sip_other_half-AreWords s w = record {
  v0 = add64-lt s.v0 s.v3;
  v1 = xor-lt 64 _ (add64 s.v2 s.v1) (rotl-lt s.v1 17 47 w.v1 (omega (arith, w.v1))) (omega arith);
  v2 = rotl-lt (add64 s.v2 s.v1) 32 32 (omega arith) (omega arith);
  v3 = xor-lt 64 _ (add64 s.v0 s.v3) (rotl-lt s.v3 21 43 w.v3 (omega (arith, w.v3))) (omega arith);
}

sip_round-AreWords : (s : Sip) → AreWords s → AreWords (sip_round s)
unfolding sip_round
sip_round-AreWords s w = sip_other_half-AreWords (sip_half s) (sip_half-AreWords s w)

sip_block-AreWords : (m : ℕ) (s : Sip) → m < 2 ^ 64 → AreWords s → AreWords (sip_block m s)
unfolding sip_block
sip_block-AreWords m s h w =
    let start : AreWords (record s { v3 = bit_xor s.v3 m }) = record {
      v0 = w.v0;
      v1 = w.v1;
      v2 = w.v2;
      v3 = xor-lt 64 s.v3 m w.v3 h;
    } in
    let t = sip_round-AreWords _ (sip_round-AreWords _ start) in
    record { v0 = xor-lt 64 _ m t.v0 h; v1 = t.v1; v2 = t.v2; v3 = t.v3 }

power_positive : (k : ℕ) → 0 < 256 ^ k
power_positive zero = omega arith
power_positive (suc k) = omega (arith, pow-suc 256 k, power_positive k)

-- Eight bytes are a word.
le_value_lt : (k : ℕ) (bs : List ℕ) → All IsByte bs → le_value (take k bs) < 256 ^ k
unfolding le_value
le_value_lt zero bs h = omega arith
le_value_lt (suc k) [] h = power_positive (suc k)
le_value_lt (suc k) (b ∷ bs) h = omega (arith, h.0, pow-suc 256 k, le_value_lt k bs h.1)

drop-IsByte : (k : ℕ) (bs : List ℕ) → All IsByte bs → All IsByte (drop k bs)
drop-IsByte zero bs h = h
drop-IsByte (suc k) [] h = tt
drop-IsByte (suc k) (b ∷ bs) h = drop-IsByte k bs h.1

sip_blocks-AreWords :
    (n : ℕ) (b : List ℕ) (s : Sip) → All IsByte b → AreWords s → AreWords (sip_blocks n b s)
unfolding sip_blocks
sip_blocks-AreWords zero b s h w = w
sip_blocks-AreWords (suc n) b s h w =
    sip_blocks-AreWords n (drop 8 b) (sip_block (le_value (take 8 b)) s) (drop-IsByte 8 b h)
      (sip_block-AreWords (le_value (take 8 b)) s (le_value_lt 8 b h) w)

sip_tail-lt : (last shift : ℕ) (bs : List ℕ) → last < 2 ^ 64 → sip_tail last shift bs < 2 ^ 64
unfolding sip_tail
sip_tail-lt last shift [] h = h
sip_tail-lt last shift (b ∷ bs) h =
    sip_tail-lt (bit_or last (b * 2 ^ shift % 2 ^ 64)) (shift + 8) bs
      (or-lt 64 last (b * 2 ^ shift % 2 ^ 64) h (omega arith))

sip_init-AreWords : (k : List ℕ) → All IsByte k → AreWords (sip_init k)
unfolding sip_init
sip_init-AreWords k h =
    let k0 = le_value_lt 8 k h in
    let k1 = le_value_lt 8 (drop 8 k) (drop-IsByte 8 k h) in
    record {
      v0 = xor-lt 64 _ 0x736f6d6570736575 k0 (omega arith);
      v1 = xor-lt 64 _ 0x646f72616e646f6d k1 (omega arith);
      v2 = xor-lt 64 _ 0x6c7967656e657261 k0 (omega arith);
      v3 = xor-lt 64 _ 0x7465646279746573 k1 (omega arith);
    }

sip_finish-lt : (s : Sip) → AreWords s → sip_finish s < 2 ^ 64
unfolding sip_finish
sip_finish-lt s w =
    let start : AreWords (record s { v2 = bit_xor s.v2 0xff }) = record {
      v0 = w.v0;
      v1 = w.v1;
      v2 = xor-lt 64 s.v2 0xff w.v2 (omega arith);
      v3 = w.v3;
    } in
    let t =
      sip_round-AreWords _
        (sip_round-AreWords _ (sip_round-AreWords _ (sip_round-AreWords _ start))) in
    xor-lt 64 _ _ (xor-lt 64 _ _ (xor-lt 64 _ _ t.v0 t.v1) t.v2) t.v3

-- The hash of any bytes under any key of bytes fits 64 bits.
pub sip_hash_bytes-lt : (k b : List ℕ) → All IsByte k → All IsByte b → sip_hash_bytes k b < 2 ^ 64
unfolding sip_hash_bytes
sip_hash_bytes-lt k b hk hb =
    let n = length b in
    let full = n - n % 8 in
    sip_finish-lt _ (
      sip_block-AreWords (sip_tail (n * 2 ^ 56 % 2 ^ 64) 0 (drop full b)) _
        (sip_tail-lt (n * 2 ^ 56 % 2 ^ 64) 0 (drop full b) (omega arith))
        (sip_blocks-AreWords (full / 8) b (sip_init k) hb (sip_init-AreWords k hk)))
