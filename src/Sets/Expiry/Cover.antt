-- ===== src/Sets/Expiry/Cover.antt =====
-- The heap of a set of internal/set/set.go reminds Expired of every entry that ends.
use mathlib.Core.Path.{subst}
use mathlib.Core.Option.{some-injective}
use mathlib.Core.List.{Mem, mem-append_left, mem-append_right}
use mathlib.Core.List.Perm
use placitum_keeper.Base.{
  ◌≡◌, refl, sym, ap, ◌∙◌, false, some, none, Str, str_eq, str_eq_iff, List, [], length, arith, inl,
  inr, Bool-cases,
}
use placitum_keeper.Base.Int.{ℤ, pos, ◌≤ℤ◌, ◌<ℤ◌, leb_ℤ}
use placitum_keeper.Base.Maps.{Map, Distinct, lookup, insert, erase, lookup-insert, lookup-erase}
use placitum_keeper.Sets.Expiry.{Sweep, sweep_loop, is_planned, expired}
use placitum_keeper.Sets.Expiry.Complete.{item, Swept, sweep_loop-Swept}
use placitum_keeper.Sets.Heap.Order.{IsHeap}
use placitum_keeper.Sets.Heap.Up.{push_all-IsHeap}
use placitum_keeper.Sets.State.{unix_milli}
use placitum_keeper.Sets.Types.{Set, Entry, ExpItem}

-- The heap has an item of the value that is not later than `e`.
abbrev pub ItemFor : List ExpItem → Str → ℤ → Type 0
ItemFor h v e = (x : ExpItem) × Mem x h × (x.value ≡ v) × (x.exp ≤ℤ e)

-- No entry has a negative expiry, and the heap has an item for each that ends.
abbrev pub Covers : Map Entry → List ExpItem → Type 0
Covers m h =
    (v : Str) (e : Entry)
    → lookup v m ≡ some e
    → (pos 0 ≤ℤ e.exp) × (pos 0 <ℤ e.exp → ItemFor h v e.exp)

pub record Covered (s : Set) : Type 0 where
  pub distinct : Distinct s.entries
  pub heap : IsHeap s.exp
  pub covers : Covers s.entries s.exp

pub Covers-grow :
    (m : Map Entry) (h g : List ExpItem)
    → Covers m h
    → ((x : ExpItem) → Mem x h → Mem x g)
    → Covers m g
Covers-grow m h g c more v e found =
    let (low, high) = c v e found in
    (low, λ p. let (x, m, is, le) = high p in (x, more x m, is, le))

pub Covers-insert :
    (m : Map Entry) (h : List ExpItem) (v : Str) (e : Entry)
    → Covers m h
    → pos 0 ≤ℤ e.exp
    → (pos 0 <ℤ e.exp → ItemFor h v e.exp)
    → Covers (insert v e m) h
Covers-insert m h v e c low high k f found = elim (Bool-cases (str_eq v k)) [
  | inl d ↦
      let written : lookup k (insert v e m) ≡ some e = rw (lookup-insert v k e m, d) refl in
      let here : some e ≡ some f = sym written ∙ found in
      subst (λ j. (pos 0 ≤ℤ f.exp) × (pos 0 <ℤ f.exp → ItemFor h j f.exp)) ((str_eq_iff v k).0 d)
        (subst (λ g. (pos 0 ≤ℤ g.exp) × (pos 0 <ℤ g.exp → ItemFor h v g.exp))
          (some-injective e f here) (low, high))
  | inr d ↦
      let kept : lookup k (insert v e m) ≡ lookup k m = rw (lookup-insert v k e m, d) refl in
      c k f (sym kept ∙ found)
]

pub Covers-erase :
    (m : Map Entry) (h : List ExpItem) (v : Str) → Distinct m → Covers m h → Covers (erase v m) h
Covers-erase m h v u c k f found = elim (Bool-cases (str_eq v k)) [
  | inl d ↦
      let gone : lookup k (erase v m) ≡ none = rw (lookup-erase v k m u, d) refl in
      absurd (ground (arith, gone, found))
  | inr d ↦
      let kept : lookup k (erase v m) ≡ lookup k m = rw (lookup-erase v k m u, d) refl in
      c k f (sym kept ∙ found)
]

module _ (s : Set) (now : ℤ) (c : Covered s) where
  abbrev pub swept : List ExpItem × Sweep
  swept = sweep_loop s (unix_milli now) (length s.exp) s.exp (record { out = []; back = [] })

  swept-Swept : Swept s (unix_milli now) s.exp (record { out = []; back = [] }) swept
  swept-Swept = sweep_loop-Swept s (unix_milli now) (length s.exp) s.exp _ c.heap (omega arith)

  from_back : (x : ExpItem) → Mem x swept.1.back → Mem x (expired s now).0.exp
  unfolding expired
  from_back x m =
      (Perm.mem_iff (Perm.symm (push_all-IsHeap swept.1.back swept.0 swept-Swept.heap).1)).0
        (mem-append_left _ m)

  from_rest : (x : ExpItem) → Mem x swept.0 → Mem x (expired s now).0.exp
  unfolding expired
  from_rest x m =
      (Perm.mem_iff (Perm.symm (push_all-IsHeap swept.1.back swept.0 swept-Swept.heap).1)).0
        (mem-append_right swept.1.back m)

  -- Where an entry is over, its own item is in the heap after the sweep.
  own_item :
      (v : Str) (e : Entry)
      → lookup v s.entries ≡ some e
      → pos 0 <ℤ e.exp
      → e.exp ≤ℤ unix_milli now
      → Mem (item v e.exp) (expired s now).0.exp
  own_item v e found p due =
      let (x, m, is, le) = (c.covers v e found).1 p in
      subst (λ k. Mem (item k e.exp) (expired s now).0.exp) is
        (from_back _ (
          swept-Swept.back x e m (omega (arith, le, due)) (ap (λ k. lookup k s.entries) is ∙ found)
            le))

  -- A value that is over, that no waiting plan writes, and whose item has the expiry of its entry is
  -- handed out.
  own_item_due :
      (v : Str) (e : Entry)
      → lookup v s.entries ≡ some e
      → Mem (item v e.exp) s.exp
      → e.exp ≤ℤ unix_milli now
      → is_planned (lookup v s.pend) ≡ false
      → Mem v (expired s now).1
  unfolding expired
  own_item_due v e found m due free = swept-Swept.out (item v e.exp) e m due found refl free

  -- Expired keeps the order of the heap and an item in it for every entry that ends.
  pub expired-Covered : Covered (expired s now).0
  unfolding expired
  expired-Covered = record {
    distinct = c.distinct;
    heap = (push_all-IsHeap swept.1.back swept.0 swept-Swept.heap).0;
    covers = λ v e found.
        let (low, high) = c.covers v e found in
        (
          low,
          λ p.
              let (x, m, is, le) = high p in
              elim (Bool-cases (leb_ℤ x.exp (unix_milli now))) [
                | inl d ↦ (
                  item x.value e.exp,
                  from_back _ (
                      swept-Swept.back x e m (ground arith)
                        (ap (λ k. lookup k s.entries) is ∙ found) le),
                  is,
                  omega arith,
                )
                | inr d ↦ (x, from_rest x (swept-Swept.later x m (ground arith)), is, le)
              ],
        );
  }

-- On a set whose heap is in order and has an item for every entry that ends: a value whose entry is
-- over at both of two sweeps in a row, and that no waiting plan writes, is handed out by the second.
-- The first may only put its item right, where the expiry was moved on since the item was pushed.
pub expired_twice :
    (s : Set) (now now' : ℤ) (v : Str) (e : Entry)
    → Covered s
    → lookup v s.entries ≡ some e
    → pos 0 <ℤ e.exp
    → e.exp ≤ℤ unix_milli now
    → e.exp ≤ℤ unix_milli now'
    → is_planned (lookup v s.pend) ≡ false
    → Mem v (expired (expired s now).0 now').1
expired_twice s now now' v e c found p due due' free =
    own_item_due (expired s now).0 now' (expired-Covered s now c) v e (unfold expired in found)
      (own_item s now c v e found p due) due' (unfold expired in free)
