-- ===== src/Sets/Committing.antt =====
-- Commit in internal/set/set.go.
pub mod Loop
pub mod Reminders
use placitum_keeper.Base.{
  ℕ, Bool, ◌&&◌, ◌||◌, Option, some, none, Str, if◌then◌else◌, ◌==◌, str_eq, List, [], ◌∷◌, length,
  bit_xor,
}
use placitum_keeper.Base.Int.{ℤ, pos, ltb_ℤ, eqb_ℤ}
use placitum_keeper.Base.Maps.{Map, lookup, insert, erase}
use placitum_keeper.Sets.Types.{Set, Entry, Delta, Plan, PendEntry, Change, op_add, op_remove}
use placitum_keeper.Sets.Heap.{push}
use placitum_keeper.Sets.Planning.{entry_of}

-- The heap is pushed where an earlier expiry would be missed.
abbrev pub needs_push : Option Entry → ℤ → Bool
needs_push none exp = ltb_ℤ (pos 0) exp
needs_push (some cur) exp = ltb_ℤ (pos 0) exp && (eqb_ℤ cur.exp (pos 0) || ltb_ℤ exp cur.exp)

abbrev pub mix_new : Option Entry → ℕ → ℕ → ℕ
mix_new none hash h = bit_xor hash h
mix_new (some cur) hash h = hash

unfoldable pub commit_add : Set → Delta → Set
unfolding push
commit_add s d =
    let cur = lookup d.rec.value s.entries in
    record s {
      hash = mix_new cur s.hash d.hash;
      entries = insert d.rec.value (entry_of d.rec d.hash) s.entries;
      exp =
          if needs_push cur d.rec.exp
          then push (record { value = d.rec.value; exp = d.rec.exp }) s.exp
          else s.exp;
    }

unfoldable pub commit_remove : Set → Delta → Set
commit_remove s d = elim (lookup d.rec.value s.entries) [
  | none ↦ s
  | some cur ↦ record s { entries = erase d.rec.value s.entries; hash = bit_xor s.hash cur.hash }
]

-- The entry of `pend` goes where this plan was the last to write it.
unfoldable pub release : ℕ → Str → Map PendEntry → Map PendEntry
release seq v pend = elim (lookup v pend) [
  | none ↦ pend
  | some q ↦ if q.seq == seq then erase v pend else pend
]

unfoldable pub commit_step : ℕ → Set → Delta → Set
unfolding commit_add commit_remove release
commit_step seq s d =
    let t =
      if str_eq d.op op_add
      then commit_add s d
      else (if str_eq d.op op_remove then commit_remove s d else s) in
    record t { pend = release seq d.rec.value t.pend }

unfoldable pub commit_loop : ℕ → Set → List Delta → Set
unfolding commit_step
commit_loop seq s [] = s
commit_loop seq s (d ∷ ds) = commit_loop seq (commit_step seq s d) ds

unfoldable pub commit_finish : Set → Set
commit_finish s =
    if length s.pend == 0
    then record s { pend_seq = s.seq; pend_hash = s.hash; pend_size = pos (length s.entries) }
    else s

-- Commit: no change for a plan with no delta.
unfoldable pub commit : Set → Plan → ℤ → Set × Option Change
unfolding commit_loop commit_finish
commit s p now =
    if length p.deltas == 0
    then (s, none)
    else (let t = commit_loop p.seq s p.deltas in
        let u = commit_finish (record t { seq = p.seq }) in
        (u, some (record { seq = u.seq; hash = u.hash; at = now; deltas = p.deltas })))
