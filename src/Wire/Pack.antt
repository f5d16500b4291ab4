-- ===== src/Wire/Pack.antt =====
-- internal/wire/pack.go. `Unpack` walks `data` by an index; here the part that is not read yet is
-- handed on, so that `pos+n > len(data)` is a test of its length.
pub mod RoundTrip
pub mod Whole
pub mod Order
use placitum_keeper.Base.{
  ℕ, zero, suc, ◌+◌, ◌%◌, ◌^◌, Bool, true, false, not, Option, some, none, Str, if◌then◌else◌, ltb,
  ◌==◌, str_eq, str_lt, List, [], ◌∷◌, ◌++◌, length, take, drop, byte_at, codes, bit_and, map,
}
use placitum_keeper.Base.Bytes.{le_bytes, le_value}
use placitum_keeper.Base.Int.{ℤ, pos, eqb_ℤ, to_u64, of_u64}
use placitum_keeper.Base.Results.{Result, ok, err}
use placitum_keeper.Sets.Material.{parse_prefix, prefix_material}
use placitum_keeper.Sets.Netip.{
  Addr, Prefix, Library, is_4, is_valid, zero_prefix, prefix_from, addr_from_4, addr_from_16,
  bit_len, addr_value,
}
use placitum_keeper.Sets.Types.{SetType, Record, type_cidr}

abbrev pub kind_snapshot : ℕ
kind_snapshot = 1

abbrev pub kind_package : ℕ
kind_package = 2

abbrev pub pack_type_cidr : ℕ
pack_type_cidr = 1

abbrev pub pack_type_string : ℕ
pack_type_string = 2

abbrev pub rec_add : ℕ
rec_add = 1

abbrev pub rec_remove : ℕ
rec_remove = 2

abbrev pub pack_header : ℕ
pack_header = 52

pub data PackError : Type 0 where
  pack_magic pack_version pack_short : PackError
  bad_family : ℕ → PackError
  bad_type : ℕ → PackError

pub record PackHead : Type 0 where
  pub kind : ℕ
  pub type : ℕ
  pub flags : ℕ
  pub epoch : ℕ
  pub seq : ℕ
  pub hash : ℕ
  pub key : List ℕ
  pub count : ℕ

pub record PackRecord : Type 0 where
  pub op : ℕ
  pub prefix : Prefix
  pub value : Str
  pub exp : ℤ
  pub reason : Str

unfoldable pub pack_type : SetType → ℕ
pack_type t = if eqb_ℤ t type_cidr then pack_type_cidr else pack_type_string

unfoldable pub pack_flags : SetType → ℕ
pack_flags t = if eqb_ℤ t type_cidr then 0 else 1

abbrev pub or_zero : Option Prefix → Prefix
or_zero (some p) = p
or_zero none = zero_prefix

-- RecordOf.
unfoldable pub record_of : Library → SetType → ℕ → Record → PackRecord
unfolding parse_prefix
record_of lib t op r = record {
  op = op;
  prefix =
      if eqb_ℤ t type_cidr
      then (if is_valid r.prefix then r.prefix else or_zero (parse_prefix lib r.value))
      else zero_prefix;
  value = r.value;
  exp = r.exp;
  reason = r.reason;
}

-- flags&FlagReasons != 0
abbrev pub has_reasons : ℕ → Bool
has_reasons flags = not (bit_and flags 1 == 0)

unfoldable pub family : Prefix → ℕ
family p = if is_4 p.addr then 4 else 6

-- Addr.Compare(b) < 0: by length, by number, by zone.
abbrev zone_of : Addr → Str
zone_of Addr.zero_addr = []
zone_of (Addr.v4 n) = []
zone_of (Addr.v6 n z) = z

unfoldable pub addr_less : Addr → Addr → Bool
addr_less a b =
    if not (bit_len a == bit_len b)
    then ltb (bit_len a) (bit_len b)
    else (if not (addr_value a == addr_value b)
        then ltb (addr_value a) (addr_value b)
        else str_lt (zone_of a) (zone_of b))

unfoldable pub less : ℕ → PackRecord → PackRecord → Bool
unfolding family addr_less str_lt
less t a b =
    if t == pack_type_cidr
    then (if not (family a.prefix == family b.prefix)
        then ltb (family a.prefix) (family b.prefix)
        else (if not (a.prefix.bits_plus_one == b.prefix.bits_plus_one)
            then ltb a.prefix.bits_plus_one b.prefix.bits_plus_one
            else addr_less a.prefix.addr b.prefix.addr))
    else str_lt a.value b.value

-- sort.Slice by `less`.
unfoldable pub insert_sorted : ℕ → PackRecord → List PackRecord → List PackRecord
unfolding less
insert_sorted t r [] = r ∷ []
insert_sorted t r (x ∷ xs) = if less t r x then r ∷ x ∷ xs else x ∷ insert_sorted t r xs

unfoldable pub sort_records : ℕ → List PackRecord → List PackRecord
unfolding insert_sorted
sort_records t [] = []
sort_records t (r ∷ rs) = insert_sorted t r (sort_records t rs)

unfoldable pub record_size : ℕ → ℕ → PackRecord → ℕ
unfolding family
record_size t flags r =
    if t == pack_type_cidr
    then (if family r.prefix == 4 then 1 + 1 + 1 + 4 + 8 else 1 + 1 + 1 + 16 + 8)
    else 1 + 2 + length r.value + 8 + (if has_reasons flags then 2 + length r.reason else 0)

-- What appendRecord appends.
abbrev pub reason_bytes : ℕ → Str → Str
reason_bytes flags reason =
    if has_reasons flags then le_bytes 2 (length reason % 2 ^ 16) ++ reason else []

unfoldable pub append_record : ℕ → ℕ → PackRecord → List ℕ
unfolding prefix_material
append_record t flags r =
    r.op
    ∷ (if t == pack_type_cidr
        then prefix_material r.prefix ++ le_bytes 8 (to_u64 r.exp)
        else le_bytes 2 (length r.value % 2 ^ 16)
          ++ (r.value ++ (le_bytes 8 (to_u64 r.exp) ++ reason_bytes flags r.reason)))

unfoldable pub append_records : ℕ → ℕ → List PackRecord → List ℕ
unfolding append_record
append_records t flags [] = []
append_records t flags (r ∷ rs) = append_record t flags r ++ append_records t flags rs

-- The header, whose count is the number of records.
unfoldable pub header_bytes : PackHead → ℕ → List ℕ
unfolding le_bytes
header_bytes h count =
    codes "WAFS"
    ++ (1
        ∷ h.kind
        ∷ h.type
        ∷ h.flags
        ∷ (le_bytes 8 h.epoch
            ++ (le_bytes 8 h.seq ++ (le_bytes 8 h.hash ++ (h.key ++ le_bytes 4 (count % 2 ^ 32))))))

unfoldable pub pack : PackHead → List PackRecord → List ℕ
pack h recs =
    let rs = if h.kind == kind_snapshot then sort_records h.type recs else recs in
    header_bytes h (length rs) ++ append_records h.type h.flags rs

-- `case PackTypeCIDR`: the prefix and what follows it.
unfoldable pub unpack_cidr : List ℕ → Result PackError (Prefix × List ℕ)
unfolding prefix_from addr_from_4 addr_from_16
unpack_cidr b =
    let fam = byte_at 0 b in
    let bits = byte_at 1 b in
    let rest = drop 2 b in
    if ltb (length b) 2
    then err pack_short
    else (if fam == 4
        then (if ltb (length rest) 12
            then err pack_short
            else ok (prefix_from (addr_from_4 (take 4 rest)) bits, drop 4 rest))
        else (if fam == 6
            then (if ltb (length rest) 24
                then err pack_short
                else ok (prefix_from (addr_from_16 (take 16 rest)) bits, drop 16 rest))
            else err (bad_family fam)))

-- A string with its length before it, where `more` bytes must follow.
unfoldable pub unpack_string : ℕ → List ℕ → Result PackError (Str × List ℕ)
unfolding le_value
unpack_string more b =
    let n = le_value (take 2 b) in
    let rest = drop 2 b in
    if ltb (length b) 2
    then err pack_short
    else (if ltb (length rest) (n + more) then err pack_short else ok (take n rest, drop n rest))

abbrev pub read_exp : List ℕ → ℤ
read_exp b = of_u64 (le_value (take 8 b))

-- The end of a round: the expiry, and the reason of a string record.
abbrev with_reason :
    PackRecord → Result PackError (Str × List ℕ) → Result PackError (PackRecord × List ℕ)
with_reason r (ok (s, rest)) = ok (record r { reason = s }, rest)
with_reason r (err e) = err e

abbrev finish_cidr : ℕ → Result PackError (Prefix × List ℕ) → Result PackError (PackRecord × List ℕ)
finish_cidr op (ok (p, rest)) =
    ok (record { op = op; prefix = p; value = []; exp = read_exp rest; reason = [] }, drop 8 rest)
finish_cidr op (err e) = err e

abbrev finish_string :
    ℕ → ℕ → Result PackError (Str × List ℕ) → Result PackError (PackRecord × List ℕ)
finish_string flags op (ok (v, rest)) =
    let r : PackRecord = record {
      op = op;
      prefix = zero_prefix;
      value = v;
      exp = read_exp rest;
      reason = [];
    } in
    if has_reasons flags then with_reason r (unpack_string 0 (drop 8 rest)) else ok (r, drop 8 rest)
finish_string flags op (err e) = err e

-- One round of the loop of Unpack.
unfoldable pub unpack_record : ℕ → ℕ → List ℕ → Result PackError (PackRecord × List ℕ)
unfolding unpack_cidr unpack_string le_value of_u64
unpack_record t flags [] = err pack_short
unpack_record t flags (op ∷ b) =
    if t == pack_type_cidr
    then finish_cidr op (unpack_cidr b)
    else (if t == pack_type_string
        then finish_string flags op (unpack_string 8 b)
        else err (bad_type t))

abbrev then_record :
    Result PackError (PackRecord × List ℕ)
    → (List ℕ → Result PackError (List PackRecord))
    → Result PackError (List PackRecord)
then_record (err e) k = err e
then_record (ok (r, rest)) k = elim (k rest) [ ok rs ↦ ok (r ∷ rs) | err e ↦ err e ]

unfoldable pub unpack_records : ℕ → ℕ → ℕ → List ℕ → Result PackError (List PackRecord)
unfolding unpack_record
unpack_records zero t flags b = ok []
unpack_records (suc n) t flags b =
    then_record (unpack_record t flags b) (λ rest. unpack_records n t flags rest)

unfoldable pub unpack_head : List ℕ → PackHead
unfolding le_value
unpack_head b = record {
  kind = byte_at 5 b;
  type = byte_at 6 b;
  flags = byte_at 7 b;
  epoch = le_value (take 8 (drop 8 b));
  seq = le_value (take 8 (drop 16 b));
  hash = le_value (take 8 (drop 24 b));
  key = take 16 (drop 32 b);
  count = le_value (take 4 (drop 48 b));
}

abbrev with_head :
    PackHead → Result PackError (List PackRecord) → Result PackError (PackHead × List PackRecord)
with_head h (ok rs) = ok (h, rs)
with_head h (err e) = err e

unfoldable pub unpack : List ℕ → Result PackError (PackHead × List PackRecord)
unpack b =
    let h = unpack_head b in
    if ltb (length b) pack_header
    then err pack_short
    else (if not (str_eq (take 4 b) (codes "WAFS"))
        then err pack_magic
        else (if not (byte_at 4 b == 1)
            then err pack_version
            else with_head h (unpack_records h.count h.type h.flags (drop pack_header b))))

-- PackRecord.Material.
unfoldable pub pack_material : ℕ → PackRecord → List ℕ
unfolding prefix_material
pack_material t r = if t == pack_type_cidr then prefix_material r.prefix else r.value
