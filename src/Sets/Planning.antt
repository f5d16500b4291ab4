-- ===== src/Sets/Planning.antt =====
-- Set.Plan of internal/set/set.go.
pub mod Overlay
pub mod Steps
pub mod Loop
pub mod Timed
use placitum_keeper.Base.{
  ℕ, ◌+◌, ◌%◌, ◌^◌, Bool, true, false, ◌&&◌, not, Option, some, none, Str, if◌then◌else◌, ◌==◌,
  str_eq, List, [], ◌∷◌, ◌++◌, length, bit_xor,
}
use placitum_keeper.Base.Int.{ℤ, pos, negsuc, ◌+ℤ◌, ltb_ℤ, leb_ℤ, eqb_ℤ}
use placitum_keeper.Base.Maps.{Map, lookup, insert}
use placitum_keeper.Sets.Types.{
  Set, Entry, Record, Delta, Plan, PendEntry, zero_entry, op_add, op_remove,
}
use placitum_keeper.Sets.Netip.{Library}
use placitum_keeper.Sets.State.{Found, lookup_value, hash_of}

pub data From : Type 0 where
  committed batch flight : From

pub record Found3 : Type 0 where
  pub e : Entry
  pub exists : Bool
  pub from : From

abbrev of_found : Found → Found3
of_found f = record { e = f.e; exists = f.exists; from = if f.planned then flight else committed }

abbrev pub found_batch : Option PendEntry → Found → Found3
found_batch (some p) f = record { e = p.e; exists = p.present; from = batch }
found_batch none f = of_found f

abbrev pub is_flight : From → Bool
is_flight committed = false
is_flight batch = false
is_flight flight = true

-- The variables of the loop of Plan.
pub record Draft : Type 0 where
  pub over : Map PendEntry
  pub size : ℤ
  pub hash : ℕ
  pub applied : List Delta
  pub rejected : List Record

-- The closure `lookup` of Plan.
unfoldable pub plan_lookup : Set → Map PendEntry → Str → Found3
unfolding lookup_value
plan_lookup s over v = found_batch (lookup v over) (lookup_value s v)

abbrev pub entry_of : Record → ℕ → Entry
entry_of r h = record { exp = r.exp; origin = r.origin; reason = r.reason; hash = h }

abbrev pub same_fields : Entry → Record → Bool
same_fields cur r =
    eqb_ℤ cur.exp r.exp && (str_eq cur.origin r.origin && str_eq cur.reason r.reason)

-- `s.Def.Limit > 0 && size >= s.Def.Limit`
abbrev pub is_full : ℤ → ℤ → Bool
is_full limit size = ltb_ℤ (pos 0) limit && leb_ℤ limit size

-- The value is written with hash `h`.
abbrev pub put_over : Record → ℕ → Draft → Draft
put_over r h d = record d {
  over = insert r.value (record { e = entry_of r h; present = true; seq = 0 }) d.over;
  applied = d.applied ++ (record { op = op_add; rec = r; hash = h } ∷ []);
}

-- `case OpRemove`; the record of the delta has no expiry.
unfoldable pub plan_remove : Found3 → Record → Draft → Draft
plan_remove f r d = if not f.exists then d else record {
  over = insert r.value (record { e = zero_entry; present = false; seq = 0 }) d.over;
  size = d.size +ℤ negsuc 0;
  hash = bit_xor d.hash f.e.hash;
  applied =
      d.applied
      ++ (record { op = op_remove; rec = record r { exp = pos 0 }; hash = f.e.hash } ∷ []);
  rejected = d.rejected;
}

abbrev pub draft_of : Set → Draft
draft_of s = record {
  over = [];
  size = s.pend_size;
  hash = s.pend_hash;
  applied = [];
  rejected = [];
}

-- `for v, p := range over { p.seq = seq; s.pend[v] = p }`
unfoldable pub merge_over : ℕ → Map PendEntry → Map PendEntry → Map PendEntry
merge_over seq [] pend = pend
merge_over seq ((v, p) ∷ over) pend = insert v (record p { seq = seq }) (merge_over seq over pend)

-- The end of Plan.
unfoldable pub plan_finish : Set → ℕ → Draft → Set × Plan
unfolding merge_over
plan_finish s seq d =
    if length d.applied == 0
    then (s, record { deltas = []; rejected = d.rejected; seq = s.seq; hash = s.hash; gen = s.gen })
    else (
      record s {
        pend = merge_over seq d.over s.pend;
        pend_seq = seq;
        pend_hash = d.hash;
        pend_size = d.size;
      },
      record { deltas = d.applied; rejected = d.rejected; seq = seq; hash = d.hash; gen = s.gen },
    )

module _ (lib : Library) where
  -- `case OpAdd`.
  unfoldable pub plan_add : Set → Found3 → Record → Draft → Draft
  plan_add s f r d =
      if not f.exists
      then (if is_full s.def.limit d.size
          then record d { rejected = d.rejected ++ (r ∷ []) }
          else (let h = hash_of lib s r in
              put_over r h (record d { hash = bit_xor d.hash h; size = d.size +ℤ pos 1 })))
      else (if not (is_flight f.from) && same_fields f.e r then d else put_over r f.e.hash d)

  -- One round of the loop; another operation changes nothing.
  unfoldable pub plan_step : Set → Draft → Delta → Draft
  unfolding plan_add plan_remove plan_lookup
  plan_step s d x =
      let f = plan_lookup s d.over x.rec.value in
      if str_eq x.op op_add
      then plan_add s f x.rec d
      else (if str_eq x.op op_remove then plan_remove f x.rec d else d)

  unfoldable pub plan_loop : Set → Draft → List Delta → Draft
  unfolding plan_step
  plan_loop s d [] = d
  plan_loop s d (x ∷ xs) = plan_loop s (plan_step s d x) xs

  unfoldable pub plan : Set → List Delta → Set × Plan
  unfolding plan_finish plan_loop
  plan s deltas = plan_finish s ((s.pend_seq + 1) % 2 ^ 64) (plan_loop s (draft_of s) deltas)
