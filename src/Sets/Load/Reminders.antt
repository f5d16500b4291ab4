-- ===== src/Sets/Load/Reminders.antt =====
-- Load of internal/set/set.go leaves an item in the heap for every entry that ends.
use mathlib.Core.List.{Mem, mem-append_left, mem-append_right, mem-cons_self}
use mathlib.Core.List.Perm
use placitum_keeper.Base.{
  ◌≡◌, refl, true, List, [], ◌∷◌, ◌++◌, arith, inl, inr, Bool-cases, Option-cases, All,
  if◌then◌else◌,
}
use placitum_keeper.Base.Int.{pos, ◌≤ℤ◌, ◌<ℤ◌, ltb_ℤ}
use placitum_keeper.Base.Maps.{lookup, Distinct, Distinct-insert}
use placitum_keeper.Sets.Expiry.Complete.{item}
use placitum_keeper.Sets.Expiry.Cover.{Covered, Covers, ItemFor, Covers-grow, Covers-insert}
use placitum_keeper.Sets.Heap.Down.{init-IsHeap}
use placitum_keeper.Sets.Load.{load, load_loop, load_step}
use placitum_keeper.Sets.Netip.{Library}
use placitum_keeper.Sets.Planning.{entry_of}
use placitum_keeper.Sets.State.{settle, hash_of}
use placitum_keeper.Sets.Types.{Set, Record, ExpItem}

abbrev Reminds : Set → Type 0
Reminds s = Distinct s.entries × Covers s.entries s.exp

-- The items of the array once the record is read.
abbrev listed : Set → Record → List ExpItem
listed s r =
    if ltb_ℤ (pos 0) r.exp then s.exp ++ (record { value = r.value; exp = r.exp } ∷ []) else s.exp

listed_more : (s : Set) (r : Record) (x : ExpItem) → Mem x s.exp → Mem x (listed s r)
listed_more s r x m = elim (Bool-cases (ltb_ℤ (pos 0) r.exp)) [
  | inl e ↦ rw e (mem-append_left _ m)
  | inr e ↦ rw e m
]

listed_own : (s : Set) (r : Record) → pos 0 <ℤ r.exp → ItemFor (listed s r) r.value r.exp
listed_own s r p =
    let ends : ltb_ℤ (pos 0) r.exp ≡ true = ground arith in
    (item r.value r.exp, rw ends (mem-append_right s.exp mem-cons_self), refl, omega arith)

module _ (lib : Library) where
  load_step-Reminds :
      (s : Set) (r : Record) → Reminds s → pos 0 ≤ℤ r.exp → Reminds (load_step lib s r)
  unfolding load_step
  load_step-Reminds s r t low =
      let more = Covers-grow s.entries s.exp (listed s r) t.1 (listed_more s r) in
      elim (Option-cases (lookup r.value s.entries)) [
        | inl e ↦
            rw (load_step, e)
              (
                Distinct-insert r.value _ s.entries t.0,
                Covers-insert s.entries (listed s r) r.value (entry_of r (hash_of lib s r)) more low
                    (listed_own s r),
              )
        | inr (w, e) ↦
            rw (load_step, e)
              (
                Distinct-insert r.value _ s.entries t.0,
                Covers-insert s.entries (listed s r) r.value (entry_of r w.hash) more low
                    (listed_own s r),
              )
      ]

  load_loop-Reminds :
      (s : Set) (rs : List Record)
      → Reminds s
      → All (λ r. pos 0 ≤ℤ r.exp) rs
      → Reminds (load_loop lib s rs)
  unfolding load_loop
  load_loop-Reminds s [] t low = t
  load_loop-Reminds s (r ∷ rs) t low =
      load_loop-Reminds (load_step lib s r) rs (load_step-Reminds s r t low.0) low.1

  -- After Load of records without a negative expiry, whatever the set was, the array is a heap with
  -- an item for every entry that ends.
  pub load-Covered :
      (s : Set) (rs : List Record) → All (λ r. pos 0 ≤ℤ r.exp) rs → Covered (load lib s rs)
  unfolding load settle
  load-Covered s rs low =
      let start : Set = record s { hash = 0; entries = []; exp = [] } in
      let t =
        load_loop-Reminds start rs
          (tt, λ v e found. absurd (unfold lookup in ground (arith, found))) low in
      let h = init-IsHeap (load_loop lib start rs).exp in
      record {
        distinct = t.0;
        heap = h.0;
        covers = Covers-grow _ _ _ t.1 λ x m. (Perm.mem_iff (Perm.symm h.1)).0 m;
      }
