-- ===== src/Wire/Pack/RoundTrip.antt =====
-- Unpack reads back what Pack wrote, in internal/wire/pack.go.
use placitum_keeper.Base.{
  ℕ, ◌+◌, ◌%◌, ◌^◌, ◌≤◌, ◌<◌, ◌≡◌, refl, ap, ◌∙◌, Bool, true, false, if◌then◌else◌, List, [], ◌∷◌,
  ◌++◌, length, drop, take-append, drop-append, length-append, arith, inl, inr, Bool-cases,
}
use placitum_keeper.Base.Bytes.{
  le_bytes, le_value, be_bytes, be_value, length-le_bytes, length-be_bytes, le_value-le_bytes,
  be_value-be_bytes,
}
use placitum_keeper.Base.Int.{ℤ, IsInt64, to_u64, to_u64-lt, of_u64-to_u64}
use placitum_keeper.Base.Results.{ok}
use placitum_keeper.Sets.Material.{prefix_material}
use placitum_keeper.Sets.Netip.{Addr, v4, v6, zero_addr, Prefix, zero_prefix, as_4, as_16}
use placitum_keeper.Wire.Pack.{
  PackRecord, append_record, unpack_cidr, unpack_string, unpack_record, has_reasons, reason_bytes,
  read_exp,
}
use mathlib.Core.List.{append_assoc}

-- A prefix that PrefixFrom can give back: in range, and with no zone.
abbrev FitsAddr : Addr → ℕ → Type 0
FitsAddr zero_addr k = ⊥
FitsAddr (v4 n) k = (n < 2 ^ 32) × (0 < k) × (k ≤ 33)
FitsAddr (v6 n z) k = (n < 2 ^ 128) × (z ≡ []) × (0 < k) × (k ≤ 129)

abbrev pub FitsPrefix : Prefix → Type 0
FitsPrefix p = FitsAddr p.addr p.bits_plus_one

-- A record that the format can hold: its fields have the widths of the format.
abbrev pub Fits : Bool → PackRecord → Type 0
Fits true r = IsInt64 r.exp × FitsPrefix r.prefix
Fits false r = IsInt64 r.exp × (length r.value < 2 ^ 16) × (length r.reason < 2 ^ 16)

unpack_v4 :
    (bits n : ℕ) (bytes tail : List ℕ)
    → length bytes ≡ 4
    → be_value bytes ≡ n
    → bits ≤ 32
    → 8 ≤ length tail
    → unpack_cidr (4 ∷ bits ∷ (bytes ++ tail))
      ≡ ok (record { addr = v4 n; bits_plus_one = bits + 1 }, tail)
unfolding unpack_cidr
unpack_v4 bits n bytes tail len value in_range more =
    rw (take-append 4 bytes tail len, drop-append 4 bytes tail len, value)
      (ground (arith, length-append bytes tail))

unpack_v6 :
    (bits n : ℕ) (bytes tail : List ℕ)
    → length bytes ≡ 16
    → be_value bytes ≡ n
    → bits ≤ 128
    → 8 ≤ length tail
    → unpack_cidr (6 ∷ bits ∷ (bytes ++ tail))
      ≡ ok (record { addr = v6 n []; bits_plus_one = bits + 1 }, tail)
unfolding unpack_cidr
unpack_v6 bits n bytes tail len value in_range more =
    rw (take-append 16 bytes tail len, drop-append 16 bytes tail len, value)
      (ground (arith, length-append bytes tail))

unpack_cidr-append :
    (a : Addr) (k : ℕ) (tail : List ℕ)
    → FitsAddr a k
    → 8 ≤ length tail
    → unpack_cidr (prefix_material (record { addr = a; bits_plus_one = k }) ++ tail)
      ≡ ok (record { addr = a; bits_plus_one = k }, tail)
unfolding prefix_material as_4 as_16
unpack_cidr-append zero_addr k tail f h = absurd f
unpack_cidr-append (v4 n) k tail f h =
    unpack_v4 ((k + 255) % 256) n (be_bytes 4 n) tail (length-be_bytes 4 n)
      (be_value-be_bytes 4 n (omega arith)) (omega arith) h
    ∙ ap (λ m. ok (record { addr = v4 n; bits_plus_one = m }, tail)) (omega arith)
unpack_cidr-append (v6 n z) k tail f h =
    unpack_v6 ((k + 255) % 256) n (be_bytes 16 n) tail (length-be_bytes 16 n)
      (be_value-be_bytes 16 n (omega arith)) (omega arith) h
    ∙ ground arith

-- The length before a string is a uint16.
unpack_string-append :
    (more : ℕ) (s tail : List ℕ)
    → length s < 2 ^ 16
    → more ≤ length tail
    → unpack_string more (le_bytes 2 (length s % 2 ^ 16) ++ (s ++ tail)) ≡ ok (s, tail)
unfolding unpack_string
unpack_string-append more s tail h m =
    let n : length s % 2 ^ 16 ≡ length s = omega arith in
    let two = length-le_bytes 2 (length s) in
    let value : le_value (le_bytes 2 (length s)) ≡ length s =
      le_value-le_bytes 2 (length s) (omega arith) in
    rw
      (
        n,
        take-append 2 (le_bytes 2 (length s)) (s ++ tail) two,
        drop-append 2 (le_bytes 2 (length s)) (s ++ tail) two,
        value,
        take-append (length s) s tail refl,
        drop-append (length s) s tail refl,
      )
      (ground (arith, two, length-append (le_bytes 2 (length s)) (s ++ tail), length-append s tail))

read_exp-append :
    (x : ℤ) (tail : List ℕ)
    → IsInt64 x
    → (read_exp (le_bytes 8 (to_u64 x) ++ tail) ≡ x)
      × (drop 8 (le_bytes 8 (to_u64 x) ++ tail) ≡ tail)
read_exp-append x tail h =
    let eight = length-le_bytes 8 (to_u64 x) in
    (
      rw
          (
            take-append 8 (le_bytes 8 (to_u64 x)) tail eight,
            le_value-le_bytes 8 (to_u64 x) (omega (arith, to_u64-lt x)),
          )
          (of_u64-to_u64 x h),
      drop-append 8 (le_bytes 8 (to_u64 x)) tail eight,
    )

-- What a record keeps in a package: its prefix or its value, by the type of the package.
abbrev pub carried : Bool → ℕ → PackRecord → PackRecord
carried true flags r = record { op = r.op; prefix = r.prefix; value = []; exp = r.exp; reason = [] }
carried false flags r = record {
  op = r.op;
  prefix = zero_prefix;
  value = r.value;
  exp = r.exp;
  reason = if has_reasons flags then r.reason else [];
}

pub cidr_record :
    (flags : ℕ) (r : PackRecord) (rest : List ℕ)
    → Fits true r
    → unpack_record 1 flags (append_record 1 flags r ++ rest) ≡ ok (carried true flags r, rest)
unfolding unpack_record append_record
cidr_record flags r rest f =
    let (value, after) = read_exp-append r.exp rest f.0 in
    rw (
      append_assoc (prefix_material r.prefix) (le_bytes 8 (to_u64 r.exp)) rest,
      unpack_cidr-append r.prefix.addr r.prefix.bits_plus_one (le_bytes 8 (to_u64 r.exp) ++ rest)
          f.1
          (omega (
            arith,
            length-append (le_bytes 8 (to_u64 r.exp)) rest,
            length-le_bytes 8 (to_u64 r.exp),
          )),
      value,
      after,
    )

string_tail :
    (flags : ℕ) (r : PackRecord) (rest : List ℕ)
    → (le_bytes 2 (length r.value % 2 ^ 16)
          ++ (r.value ++ (le_bytes 8 (to_u64 r.exp) ++ reason_bytes flags r.reason)))
        ++ rest
      ≡ le_bytes 2 (length r.value % 2 ^ 16)
        ++ (r.value ++ (le_bytes 8 (to_u64 r.exp) ++ (reason_bytes flags r.reason ++ rest)))
string_tail flags r rest = simp append_assoc

pub string_record :
    (flags : ℕ) (r : PackRecord) (rest : List ℕ)
    → Fits false r
    → unpack_record 2 flags (append_record 2 flags r ++ rest) ≡ ok (carried false flags r, rest)
unfolding unpack_record append_record
string_record flags r rest f =
    let tail = reason_bytes flags r.reason ++ rest in
    let (value, after) = read_exp-append r.exp tail f.0 in
    rw
      (
        string_tail flags r rest,
        unpack_string-append 8 r.value (le_bytes 8 (to_u64 r.exp) ++ tail) f.1 (
            omega (
              arith,
              length-append (le_bytes 8 (to_u64 r.exp)) tail,
              length-le_bytes 8 (to_u64 r.exp),
            )),
        value,
        after,
      )
      (elim (Bool-cases (has_reasons flags)) [
        | inl e ↦ rw (
          e,
          append_assoc (le_bytes 2 (length r.reason % 2 ^ 16)) r.reason rest,
          unpack_string-append 0 r.reason rest f.2 (omega arith),
        )
        | inr e ↦ rw e
      ])
