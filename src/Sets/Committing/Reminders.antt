-- ===== src/Sets/Committing/Reminders.antt =====
-- Commit of internal/set/set.go keeps an item in the heap for every entry that ends.
use mathlib.Core.List.{Mem, mem-cons_self, mem-cons_of_mem}
use mathlib.Core.List.Perm
use placitum_keeper.Base.{
  ℕ, ◌≡◌, refl, false, Option, some, none, str_eq, ◌==◌, List, [], ◌∷◌, length, arith, inl, inr,
  Bool-cases, Option-cases, All,
}
use placitum_keeper.Base.Int.{ℤ, pos, ◌≤ℤ◌, ◌<ℤ◌}
use placitum_keeper.Base.Maps.{lookup, Distinct-insert, Distinct-erase}
use placitum_keeper.Sets.Committing.{
  needs_push, commit_add, commit_remove, commit_step, commit_loop, commit_finish, commit,
}
use placitum_keeper.Sets.Expiry.Complete.{item}
use placitum_keeper.Sets.Expiry.Cover.{Covered, ItemFor, Covers-grow, Covers-insert, Covers-erase}
use placitum_keeper.Sets.Heap.{push}
use placitum_keeper.Sets.Heap.Up.{push-IsHeap}
use placitum_keeper.Sets.Planning.{entry_of}
use placitum_keeper.Sets.Types.{Set, Entry, Delta, Plan, op_add, op_remove, ExpItem}

-- The expiry of a delta is not negative.
abbrev pub IsTimed : Delta → Type 0
IsTimed d = pos 0 ≤ℤ d.rec.exp

module _ (s : Set) (c : Covered s) where
  -- Where the heap is not pushed, an item is there already.
  reminded :
      (d : Delta) (o : Option Entry)
      → lookup d.rec.value s.entries ≡ o
      → needs_push o d.rec.exp ≡ false
      → pos 0 <ℤ d.rec.exp
      → ItemFor s.exp d.rec.value d.rec.exp
  reminded d none found e p = absurd (ground arith)
  reminded d (some cur) found e p =
      let (low, high) = c.covers d.rec.value cur found in
      let (x, m, is, le) = high (ground arith) in (x, m, is, ground arith)

  commit_add-Covered : (d : Delta) → IsTimed d → Covered (commit_add s d)
  unfolding commit_add
  commit_add-Covered d low =
      let e = entry_of d.rec d.hash in
      let cur = lookup d.rec.value s.entries in
      elim (Bool-cases (needs_push cur d.rec.exp)) [
        | inl f ↦
            let pushed = push-IsHeap (item d.rec.value d.rec.exp) s.exp c.heap in
            let back : (x : ExpItem)
                → Mem x (item d.rec.value d.rec.exp ∷ s.exp)
                → Mem x (push (item d.rec.value d.rec.exp) s.exp) =
              λ x. (Perm.mem_iff (Perm.symm pushed.1)).0 in
            rw f (record {
              distinct = Distinct-insert d.rec.value e s.entries c.distinct;
              heap = pushed.0;
              covers =
                  Covers-insert s.entries _ d.rec.value e
                    (Covers-grow s.entries s.exp _ c.covers λ x m. back x (mem-cons_of_mem _ m)) low
                    (λ p. (item d.rec.value d.rec.exp, back _ mem-cons_self, refl, omega arith));
            })
        | inr f ↦ rw f (record {
          distinct = Distinct-insert d.rec.value e s.entries c.distinct;
          heap = c.heap;
          covers = Covers-insert s.entries s.exp d.rec.value e c.covers low (reminded d cur refl f);
        })
      ]

  commit_remove-Covered : (d : Delta) → Covered (commit_remove s d)
  unfolding commit_remove
  commit_remove-Covered d = elim (Option-cases (lookup d.rec.value s.entries)) [
    | inl e ↦ rw (commit_remove, e) c
    | inr (cur, e) ↦
        rw (commit_remove, e)
          (record {
            distinct = Distinct-erase d.rec.value s.entries c.distinct;
            heap = c.heap;
            covers = Covers-erase s.entries s.exp d.rec.value c.distinct c.covers;
          })
  ]

  commit_step-Covered : (seq : ℕ) (d : Delta) → IsTimed d → Covered (commit_step seq s d)
  unfolding commit_step
  commit_step-Covered seq d low = elim (Bool-cases (str_eq d.op op_add)) [
    | inl e ↦ rw e (kept (commit_add s d) _ (commit_add-Covered d low))
    | inr e ↦ rw e (elim (Bool-cases (str_eq d.op op_remove)) [
      | inl f ↦ rw f (kept (commit_remove s d) _ (commit_remove-Covered d))
      | inr f ↦ rw f (kept s _ c)
    ])
  ]
    where
      kept : (t : Set) (pend : _) → Covered t → Covered (record t { pend = pend })
      kept t pend k = record { distinct = k.distinct; heap = k.heap; covers = k.covers }

commit_loop-Covered :
    (seq : ℕ) (ds : List Delta) (s : Set)
    → Covered s
    → All IsTimed ds
    → Covered (commit_loop seq s ds)
unfolding commit_loop
commit_loop-Covered seq [] s c low = c
commit_loop-Covered seq (d ∷ ds) s c low =
    commit_loop-Covered seq ds (commit_step seq s d) (commit_step-Covered s c seq d low.0) low.1

-- Commit of a plan whose deltas have no negative expiry keeps the order of the heap and an item in it
-- for every entry that ends.
pub commit-Covered :
    (s : Set) (p : Plan) (now : ℤ) → Covered s → All IsTimed p.deltas → Covered (commit s p now).0
unfolding commit commit_finish
commit-Covered s p now c low =
    let k = commit_loop-Covered p.seq p.deltas s c low in
    elim (Bool-cases (length p.deltas == 0)) [
      | inl e ↦ rw e c
      | inr e ↦ rw e (elim (Bool-cases (length (commit_loop p.seq s p.deltas).pend == 0)) [
        | inl f ↦ rw f (record { distinct = k.distinct; heap = k.heap; covers = k.covers })
        | inr f ↦ rw f (record { distinct = k.distinct; heap = k.heap; covers = k.covers })
      ])
    ]
