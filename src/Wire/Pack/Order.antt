-- ===== src/Wire/Pack/Order.antt =====
-- The order of a snapshot's records, and the sizes that Pack allocates, in internal/wire/pack.go.
use placitum_keeper.Base.{
  ℕ, ◌+◌, ◌%◌, ◌^◌, ◌≡◌, refl, true, false, Str, if◌then◌else◌, ◌==◌, str_lt, List, [], ◌∷◌, ◌++◌,
  length, length-append, arith, inl, inr, Bool-cases,
}
use placitum_keeper.Base.Bytes.{le_bytes, length-le_bytes, length-be_bytes}
use placitum_keeper.Base.Int.{to_u64}
use placitum_keeper.Sets.Material.{prefix_material}
use placitum_keeper.Sets.Netip.{Addr, Prefix, addr_value, value_16}
use placitum_keeper.Wire.Pack.{
  PackHead, PackRecord, pack, header_bytes, less, addr_less, family, insert_sorted, sort_records,
  append_record, append_records, record_size, reason_bytes, zone_of,
}
use mathlib.Core.List.{Perm}
use mathlib.Core.List.Perm

str_lt_asym : (a b : Str) → str_lt a b ≡ true → str_lt b a ≡ false
unfolding str_lt
str_lt_asym [] [] h = ground arith
str_lt_asym [] (y ∷ ys) h = refl
str_lt_asym (x ∷ xs) [] h = ground arith
str_lt_asym (x ∷ xs) (y ∷ ys) h = ground (arith, str_lt_asym xs ys)

addr_less_asym : (a b : Addr) → addr_less a b ≡ true → addr_less b a ≡ false
unfolding addr_less
addr_less_asym a b h = ground (arith, str_lt_asym (zone_of a) (zone_of b))

less_asym : (t : ℕ) (a b : PackRecord) → less t a b ≡ true → less t b a ≡ false
unfolding less
less_asym t a b h =
    ground (arith, addr_less_asym a.prefix.addr b.prefix.addr, str_lt_asym a.value b.value)

-- No record is less than the one before it.
abbrev pub IsSorted : ℕ → List PackRecord → Type 0
IsSorted t [] = Unit {0}
IsSorted t (a ∷ []) = Unit {0}
IsSorted t (a ∷ b ∷ rs) = (less t b a ≡ false) × IsSorted t (b ∷ rs)

insert_sorted-IsSorted :
    (t : ℕ) (r : PackRecord) (rs : List PackRecord)
    → IsSorted t rs
    → IsSorted t (insert_sorted t r rs)
unfolding insert_sorted
insert_sorted-IsSorted t r [] h = tt
insert_sorted-IsSorted t r (a ∷ []) h = elim (Bool-cases (less t r a)) [
  | inl e ↦ rw e (less_asym t r a e, tt)
  | inr e ↦ rw e (e, tt)
]
insert_sorted-IsSorted t r (a ∷ b ∷ rs) h = elim (Bool-cases (less t r a)) [
  | inl e ↦ rw e (less_asym t r a e, h)
  | inr e ↦ rw e (elim (Bool-cases (less t r b)) [
    | inl g ↦ rw g (e, (less_asym t r b g, h.1))
    | inr g ↦ rw g (h.0, (rw (g, insert_sorted) at (insert_sorted-IsSorted t r (b ∷ rs) h.1)))
  ])
]

insert_sorted-perm :
    (t : ℕ) (r : PackRecord) (rs : List PackRecord) → Perm (insert_sorted t r rs) (r ∷ rs)
unfolding insert_sorted
insert_sorted-perm t r [] = Perm.refl (r ∷ [])
insert_sorted-perm t r (x ∷ xs) = elim (Bool-cases (less t r x)) [
  | inl e ↦ rw e (Perm.refl (r ∷ x ∷ xs))
  | inr e ↦ rw e (Perm.trans (Perm.cons x (insert_sorted-perm t r xs)) (Perm.swap r x xs))
]

sort_records-perm : (t : ℕ) (rs : List PackRecord) → Perm (sort_records t rs) rs
unfolding sort_records
sort_records-perm t [] = Perm.refl []
sort_records-perm t (r ∷ rs) =
    Perm.trans (insert_sorted-perm t r (sort_records t rs)) (Perm.cons r (sort_records-perm t rs))

sort_records-IsSorted : (t : ℕ) (rs : List PackRecord) → IsSorted t (sort_records t rs)
unfolding sort_records
sort_records-IsSorted t [] = tt
sort_records-IsSorted t (r ∷ rs) =
    insert_sorted-IsSorted t r (sort_records t rs) (sort_records-IsSorted t rs)

-- The records of a snapshot are those of the caller, in an order where none is less than the one
-- before it.
pub sort_records_lem :
    (t : ℕ) (rs : List PackRecord) → Perm (sort_records t rs) rs × IsSorted t (sort_records t rs)
sort_records_lem t rs = (sort_records-perm t rs, sort_records-IsSorted t rs)

length-prefix_material :
    (p : Prefix) → length (prefix_material p) ≡ (if family p == 4 then 6 else 18)
unfolding prefix_material family
length-prefix_material p =
    ground (arith, length-be_bytes 4 (addr_value p.addr), length-be_bytes 16 (value_16 p.addr))

pub length-append_record :
    (t flags : ℕ) (r : PackRecord) → length (append_record t flags r) ≡ record_size t flags r
unfolding append_record record_size
length-append_record t flags r =
    let n = le_bytes 2 (length r.value % 2 ^ 16) in
    let x = le_bytes 8 (to_u64 r.exp) in
    let y = reason_bytes flags r.reason in
    let z = le_bytes 2 (length r.reason % 2 ^ 16) in
    ground (
      arith,
      length-prefix_material r.prefix,
      length-append (prefix_material r.prefix) x,
      length-append n (r.value ++ (x ++ y)),
      length-append r.value (x ++ y),
      length-append x y,
      length-append z r.reason,
      length-le_bytes 8 (to_u64 r.exp),
      length-le_bytes 2 (length r.value % 2 ^ 16),
      length-le_bytes 2 (length r.reason % 2 ^ 16),
    )

abbrev pub sizes : ℕ → ℕ → List PackRecord → ℕ
sizes t flags [] = 0
sizes t flags (r ∷ rs) = record_size t flags r + sizes t flags rs

pub length-append_records :
    (t flags : ℕ) (rs : List PackRecord) → length (append_records t flags rs) ≡ sizes t flags rs
unfolding append_records
length-append_records t flags [] = refl
length-append_records t flags (r ∷ rs) = omega (
  arith,
  length-append (append_record t flags r) (append_records t flags rs),
  length-append_record t flags r,
  length-append_records t flags rs,
)

sizes-insert_sorted :
    (t flags k : ℕ) (r : PackRecord) (rs : List PackRecord)
    → sizes t flags (insert_sorted k r rs) ≡ record_size t flags r + sizes t flags rs
unfolding insert_sorted
sizes-insert_sorted t flags k r [] = refl
sizes-insert_sorted t flags k r (x ∷ xs) = ground (arith, sizes-insert_sorted t flags k r xs)

sizes-sort_records :
    (t flags k : ℕ) (rs : List PackRecord) → sizes t flags (sort_records k rs) ≡ sizes t flags rs
unfolding sort_records
sizes-sort_records t flags k [] = refl
sizes-sort_records t flags k (r ∷ rs) =
    omega
      (arith, sizes-insert_sorted t flags k r (sort_records k rs), sizes-sort_records t flags k rs)

length-header_bytes : (h : PackHead) (n : ℕ) → length h.key ≡ 16 → length (header_bytes h n) ≡ 52
unfolding header_bytes
length-header_bytes h n e =
    ground (arith, length-append h.key (le_bytes 4 (n % 2 ^ 32)), length-le_bytes 4 (n % 2 ^ 32))

-- A package with a key of 16 bytes has the 52 bytes of the header and what recordSize gives for
-- each record, the size that Pack reserves.
pub length-pack :
    (h : PackHead) (recs : List PackRecord)
    → length h.key ≡ 16
    → length (pack h recs) ≡ 52 + sizes h.type h.flags recs
unfolding pack
length-pack h recs e =
    let sorted = sort_records h.type recs in
    ground (
      arith,
      length-append (header_bytes h (length sorted)) (append_records h.type h.flags sorted),
      length-append (header_bytes h (length recs)) (append_records h.type h.flags recs),
      length-header_bytes h (length sorted) e,
      length-header_bytes h (length recs) e,
      length-append_records h.type h.flags sorted,
      length-append_records h.type h.flags recs,
      sizes-sort_records h.type h.flags h.type recs,
    )
