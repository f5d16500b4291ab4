-- ===== src/Keeper/Planner/Room.antt =====
-- The count of new values in the first loop of plan in internal/keeper/keeper.go.
use placitum_keeper.Base.{
  ◌+◌, ◌≤◌, ◌≡◌, refl, ◌∙◌, true, Str, str_eq, str_eq_refl, List, [], ◌∷◌, ◌++◌, length, map, arith,
  inl, inr, Bool-cases, All,
}
use placitum_keeper.Base.Maps.{Map, Distinct, insert, Distinct-insert}
use placitum_keeper.Base.Maps.Keys.{has_key, has_key-insert, length-insert}
use placitum_keeper.Keeper.Planner.{value_of}
use placitum_keeper.Sets.State.{lookup_value, fresh, contains_key}
use placitum_keeper.Sets.Types.{Set, Entry, Record, zero_entry}

-- The keys of a map and some more values.
unfoldable pub note_all : List Str → Map Entry → Map Entry
note_all [] g = g
note_all (v ∷ vs) g = note_all vs (insert v zero_entry g)

has_key-insert_kept :
    (k j : Str) (g : Map Entry) → has_key j g ≡ true → has_key j (insert k zero_entry g) ≡ true
has_key-insert_kept k j g h = has_key-insert k j zero_entry g ∙ ground arith

has_key-insert_self : (k : Str) (g : Map Entry) → has_key k (insert k zero_entry g) ≡ true
has_key-insert_self k g = has_key-insert k k zero_entry g ∙ rw (str_eq_refl k) refl

pub note_all_kept :
    (vs : List Str) (g : Map Entry) (k : Str)
    → has_key k g ≡ true
    → has_key k (note_all vs g) ≡ true
unfolding note_all
note_all_kept [] g k h = h
note_all_kept (v ∷ vs) g k h =
    note_all_kept vs (insert v zero_entry g) k (has_key-insert_kept v k g h)

pub note_all-Distinct : (vs : List Str) (g : Map Entry) → Distinct g → Distinct (note_all vs g)
unfolding note_all
note_all-Distinct [] g d = d
note_all-Distinct (v ∷ vs) g d =
    note_all-Distinct vs (insert v zero_entry g) (Distinct-insert v zero_entry g d)

pub note_all_records :
    (rs : List Record) (g : Map Entry)
    → All (λ r. has_key r.value (note_all (map value_of rs) g) ≡ true) rs
unfolding note_all
note_all_records [] g = tt
note_all_records (r ∷ rs) g =
    let h = insert r.value zero_entry g in
    (
      note_all_kept (map value_of rs) h r.value (has_key-insert_self r.value g),
      note_all_records rs h,
    )

-- The values that were counted, or that the set has, are keys of `g`.
pub record Noted (s : Set) (seen : List Str) (g : Map Entry) : Type 0 where
  pub known : (v : Str) → (lookup_value s v).exists ≡ true → has_key v g ≡ true
  pub counted : (v : Str) → contains_key v seen ≡ true → has_key v g ≡ true

Noted-insert :
    (s : Set) (seen : List Str) (g : Map Entry) (v : Str)
    → Noted s seen g
    → Noted s seen (insert v zero_entry g)
Noted-insert s seen g v h = record {
  known = λ k p. has_key-insert_kept v k g (h.known k p);
  counted = λ k p. has_key-insert_kept v k g (h.counted k p);
}

pub note_all-Noted :
    (s : Set) (seen vs : List Str) (g : Map Entry)
    → Noted s seen g
    → Noted s (vs ++ seen) (note_all vs g)
unfolding note_all
note_all-Noted s seen [] g h = h
note_all-Noted s seen (v ∷ vs) g h =
    let rest = note_all-Noted s seen vs (insert v zero_entry g) (Noted-insert s seen g v h) in
    record {
      known = rest.known;
      counted = λ k p. elim (Bool-cases (str_eq v k)) [
        | inl e ↦
            note_all_kept vs (insert v zero_entry g) k (has_key-insert v k zero_entry g ∙ rw e refl)
        | inr e ↦ rest.counted k (ground arith)
      ];
    }

-- Fresh counts every value that is new.
pub length-note_all :
    (s : Set) (seen vs : List Str) (g : Map Entry)
    → Noted s seen g
    → length (note_all vs g) ≤ length g + fresh s vs seen
unfolding note_all fresh
length-note_all s seen [] g h = omega arith
length-note_all s seen (v ∷ vs) g h =
    let rest = length-note_all s seen vs (insert v zero_entry g) (Noted-insert s seen g v h) in
    let grown = length-insert v zero_entry g in
    elim (Bool-cases (has_key v g)) [
      | inl e ↦ ground (arith, rest, grown)
      | inr e ↦ ground (arith, rest, grown, h.known v, h.counted v)
    ]
