-- ===== src/Wire/Pack/Whole.antt =====
-- Unpack of a whole object that Pack wrote, in internal/wire/pack.go.
use placitum_keeper.Base.{
  ℕ, suc, ◌%◌, ◌^◌, ◌<◌, ◌≡◌, refl, ap, ◌∙◌, true, false, if◌then◌else◌, ltb, ◌==◌, str_eq,
  str_eq_refl, codes, List, [], ◌∷◌, ◌++◌, length, take, drop, byte_at, take-append, drop-append,
  length-append, arith, All, ◌⊎◌, inl, inr, Bool-cases, map,
}
use placitum_keeper.Base.Bytes.{le_bytes, length-le_bytes, le_value-le_bytes}
use placitum_keeper.Base.Results.{ok}
use placitum_keeper.Wire.Pack.{
  PackHead, PackRecord, append_record, append_records, unpack_record, unpack_records, pack, unpack,
  header_bytes, unpack_head, sort_records, insert_sorted, less,
}
use placitum_keeper.Wire.Pack.RoundTrip.{Fits, carried, cidr_record, string_record}
use mathlib.Core.List.{append_assoc}

-- The two types of a package.
abbrev pub IsPackType : ℕ → Type 0
IsPackType t = (t ≡ 1) ⊎ (t ≡ 2)

abbrev pub FitsHead : PackHead → Type 0
FitsHead h =
    IsPackType h.type
    × (h.epoch < 2 ^ 64)
    × (h.seq < 2 ^ 64)
    × (h.hash < 2 ^ 64)
    × (length h.key ≡ 16)

one_record :
    (t flags : ℕ) (r : PackRecord) (rest : List ℕ)
    → IsPackType t
    → Fits (t == 1) r
    → unpack_record t flags (append_record t flags r ++ rest) ≡ ok (carried (t == 1) flags r, rest)
one_record t flags r rest (inl e) f = rw e (cidr_record flags r rest (rw e at f))
one_record t flags r rest (inr e) f = rw e (string_record flags r rest (rw e at f))

unpack_records-append_records :
    (t flags : ℕ) (rs : List PackRecord)
    → IsPackType t
    → All (Fits (t == 1)) rs
    → unpack_records (length rs) t flags (append_records t flags rs)
      ≡ ok (map (carried (t == 1) flags) rs)
unfolding unpack_records append_records
unpack_records-append_records t flags [] k f = refl
unpack_records-append_records t flags (r ∷ rs) k f = rw (
  one_record t flags r (append_records t flags rs) k f.0,
  unpack_records-append_records t flags rs k f.1,
)

module _ (h : PackHead) (n : ℕ) (body : List ℕ) (f : FitsHead h) (small : n < 2 ^ 32) where
  wrapped : n % 2 ^ 32 ≡ n
  wrapped = omega arith

  abbrev tail_bytes : List ℕ
  tail_bytes = h.key ++ le_bytes 4 (n % 2 ^ 32)

  length-tail_bytes : length tail_bytes ≡ 20
  length-tail_bytes =
      omega (arith, length-append h.key (le_bytes 4 (n % 2 ^ 32)), length-le_bytes 4 (n % 2 ^ 32))

  head_back : unpack_head (header_bytes h n ++ body) ≡ record h { count = n }
  unfolding unpack_head header_bytes
  head_back =
      rw (append_assoc h.key, take-append 16 h.key _ f.4, drop-append 16 h.key _ f.4)
        (λ i. record {
          kind = h.kind;
          type = h.type;
          flags = h.flags;
          epoch = le_value-le_bytes 8 h.epoch f.1 i;
          seq = le_value-le_bytes 8 h.seq f.2 i;
          hash = le_value-le_bytes 8 h.hash f.3 i;
          key = h.key;
          count = (le_value-le_bytes 4 (n % 2 ^ 32) (omega arith) ∙ wrapped) i;
        })

  body_back : drop 52 (header_bytes h n ++ body) ≡ body
  unfolding header_bytes
  body_back = drop-append 20 tail_bytes body length-tail_bytes

  long_enough : ltb (length (header_bytes h n ++ body)) 52 ≡ false
  unfolding header_bytes
  long_enough = ground (arith, length-append tail_bytes body, length-tail_bytes)

  magic_back : str_eq (take 4 (header_bytes h n ++ body)) (codes "WAFS") ≡ true
  unfolding header_bytes
  magic_back = str_eq_refl (codes "WAFS")

  version_back : (byte_at 4 (header_bytes h n ++ body) == 1) ≡ true
  unfolding header_bytes
  version_back = refl

-- Sorting keeps what holds of every record, and their number.
All-insert_sorted :
    (P : PackRecord → Type 0) (t : ℕ) (r : PackRecord) (rs : List PackRecord)
    → P r
    → All P rs
    → All P (insert_sorted t r rs)
unfolding insert_sorted
All-insert_sorted P t r [] p h = (p, tt)
All-insert_sorted P t r (x ∷ xs) p h = elim (Bool-cases (less t r x)) [
  | inl e ↦ rw e (p, h)
  | inr e ↦ rw e (h.0, All-insert_sorted P t r xs p h.1)
]

All-sort_records :
    (P : PackRecord → Type 0) (t : ℕ) (rs : List PackRecord) → All P rs → All P (sort_records t rs)
unfolding sort_records
All-sort_records P t [] h = h
All-sort_records P t (r ∷ rs) h =
    All-insert_sorted P t r (sort_records t rs) h.0 (All-sort_records P t rs h.1)

length-insert_sorted :
    (t : ℕ) (r : PackRecord) (rs : List PackRecord)
    → length (insert_sorted t r rs) ≡ suc (length rs)
unfolding insert_sorted
length-insert_sorted t r [] = refl
length-insert_sorted t r (x ∷ xs) = ground (arith, length-insert_sorted t r xs)

pub length-sort_records : (t : ℕ) (rs : List PackRecord) → length (sort_records t rs) ≡ length rs
unfolding sort_records
length-sort_records t [] = refl
length-sort_records t (r ∷ rs) =
    length-insert_sorted t r (sort_records t rs) ∙ ap suc (length-sort_records t rs)

-- The records in the order in which Pack writes them.
abbrev pub written : PackHead → List PackRecord → List PackRecord
written h recs = if h.kind == 1 then sort_records h.type recs else recs

written_lem :
    (h : PackHead) (recs : List PackRecord)
    → All (Fits (h.type == 1)) recs
    → All (Fits (h.type == 1)) (written h recs) × (length (written h recs) ≡ length recs)
written_lem h recs f = elim (Bool-cases (h.kind == 1)) [
  | inl e ↦
      rw e (All-sort_records (Fits (h.type == 1)) h.type recs f, length-sort_records h.type recs)
  | inr e ↦ rw e (f, refl)
]

-- Unpack gives back the header of Pack with the number of records, and of each record what its
-- type carries, in the written order; for a header and fewer than 2^32 records whose fields have
-- the widths of the format.
pub unpack-pack :
    (h : PackHead) (recs : List PackRecord)
    → FitsHead h
    → All (Fits (h.type == 1)) recs
    → length recs < 2 ^ 32
    → unpack (pack h recs)
      ≡ ok (record h { count = length recs }, map (carried (h.type == 1) h.flags) (written h recs))
unfolding pack unpack
unpack-pack h recs fh fr small =
    let rs = written h recs in
    let body = append_records h.type h.flags rs in
    let (fits, len) = written_lem h recs fr in
    let few : length rs < 2 ^ 32 = rw len small in
    rw (
      long_enough h (length rs) body fh few,
      magic_back h (length rs) body fh few,
      version_back h (length rs) body fh few,
      head_back h (length rs) body fh few,
      body_back h (length rs) body fh few,
      unpack_records-append_records h.type h.flags rs fh.0 fits,
      len,
    )
