-- ===== src/Sets/Expiry/Complete.antt =====
-- What the loop of Expired of internal/set/set.go does with each item of the heap.
use mathlib.Core.Logic.{◌∨₁◌}
use mathlib.Core.Logic.Or
use mathlib.Core.Path.{subst}
use mathlib.Core.List.{
  Mem, Mem-prop, mem-cons, mem-cons_self, mem-append_left, mem-append_right, not-mem-nil,
}
use mathlib.Core.List.Perm
use placitum_keeper.Base.{
  ℕ, zero, suc, ◌≤◌, ◌<◌, ◌≡◌, refl, sym, Bool, true, false, ◌||◌, ◌==◌, Option, some, none, Str,
  List, [], ◌∷◌, length, arith, inl, inr, Bool-cases,
}
use placitum_keeper.Base.Int.{ℤ, ltb_ℤ, eqb_ℤ, eqb_ℤ_iff, ◌≤ℤ◌, ◌<ℤ◌}
use placitum_keeper.Base.Maps.{lookup}
use placitum_keeper.Sets.Expiry.{Sweep, sweep_item, sweep_loop, is_planned}
use placitum_keeper.Sets.Heap.{at, pop}
use placitum_keeper.Sets.Heap.Array.{length-perm}
use placitum_keeper.Sets.Heap.Order.{IsHeap}
use placitum_keeper.Sets.Heap.Removal.{Popped, pop-Popped, root_least_of_all}
use placitum_keeper.Sets.Types.{Set, Entry, ExpItem}

abbrev pub item : Str → ℤ → ExpItem
item v e = record { value = v; exp = e }

-- What was collected stays.
pub record Grows (w w' : Sweep) : Type 0 where
  pub out : (v : Str) → Mem v w.out → Mem v w'.out
  pub back : (x : ExpItem) → Mem x w.back → Mem x w'.back

sweep_item-Grows :
    (top : ExpItem) (o : Option Entry) (planned : Bool) (w : Sweep)
    → Grows w (sweep_item top o planned w)
sweep_item-Grows top none planned w = record { out = λ v m. m; back = λ x m. m }
sweep_item-Grows top (some cur) planned w = elim (Bool-cases (eqb_ℤ cur.exp top.exp)) [
  | inr e ↦ rw e (elim (Bool-cases (ltb_ℤ top.exp cur.exp)) [
    | inl f ↦ rw f (record { out = λ v m. m; back = λ x m. mem-append_left _ m })
    | inr f ↦ rw f (record { out = λ v m. m; back = λ x m. m })
  ])
  | inl e ↦ rw e (elim (Bool-cases planned) [
    | inl f ↦ rw f (record { out = λ v m. m; back = λ x m. mem-append_left _ m })
    | inr f ↦ rw f (record { out = λ v m. mem-append_left _ m; back = λ x m. mem-append_left _ m })
  ])
]

-- A heap that is not empty has its first item and those that heap.Pop leaves.
first_or_left :
    (h : List ExpItem) (r : ExpItem × List ExpItem) (x : ExpItem)
    → Popped h r
    → Mem x h
    → (x ≡ at h 0) ∨₁ Mem x r.1
first_or_left h r x p m =
    subst (λ y. (x ≡ y) ∨₁ Mem x r.1) p.first (mem-cons.0 ((Perm.mem_iff (Perm.symm p.same)).0 m))

module _ (s : Set) (ms : ℤ) where
  -- The item `x` of the entry `e` is taken off: it goes back with the expiry of the entry, and the
  -- value is handed out where this is the item's own expiry and no waiting plan writes the value.
  pub record Handled (x : ExpItem) (e : Entry) (w : Sweep) : Type 0 where
    pub back : Mem (item x.value e.exp) w.back
    pub out : x.exp ≡ e.exp → is_planned (lookup x.value s.pend) ≡ false → Mem x.value w.out

  Handled-Grows :
      (x : ExpItem) (e : Entry) (w w' : Sweep) → Handled x e w → Grows w w' → Handled x e w'
  Handled-Grows x e w w' h g = record {
    back = g.back _ h.back;
    out = λ same free. g.out _ (h.out same free);
  }

  sweep_item-Handled :
      (top : ExpItem) (e : Entry) (w : Sweep)
      → top.exp ≤ℤ e.exp
      → Handled top e (sweep_item top (some e) (is_planned (lookup top.value s.pend)) w)
  sweep_item-Handled top e w l = elim (Bool-cases (eqb_ℤ e.exp top.exp)) [
    | inr d ↦ rw d (
        rw (the_later (ground arith)) (record {
          back = mem-append_right w.back mem-cons_self;
          out = λ same free. absurd (ground (arith, same));
        }))
    | inl d ↦
        let same : e.exp ≡ top.exp = (eqb_ℤ_iff e.exp top.exp).0 d in
        rw d (record {
          back = rw same (mem-append_right w.back mem-cons_self);
          out = λ _ free. rw free (mem-append_right w.out mem-cons_self);
        })
  ]
    where
      the_later : top.exp <ℤ e.exp → ltb_ℤ top.exp e.exp ≡ true
      the_later p = ground arith

  -- The loop, with as much fuel as there are items.
  pub record Swept (h : List ExpItem) (w : Sweep) (r : List ExpItem × Sweep) : Type 0 where
    pub heap : IsHeap r.0
    pub grows : Grows w r.1
    pub later : (x : ExpItem) → Mem x h → ms <ℤ x.exp → Mem x r.0
    pub back :
        (x : ExpItem) (e : Entry)
        → Mem x h
        → x.exp ≤ℤ ms
        → lookup x.value s.entries ≡ some e
        → x.exp ≤ℤ e.exp
        → Mem (item x.value e.exp) r.1.back
    pub out :
        (x : ExpItem) (e : Entry)
        → Mem x h
        → x.exp ≤ℤ ms
        → lookup x.value s.entries ≡ some e
        → x.exp ≡ e.exp
        → is_planned (lookup x.value s.pend) ≡ false
        → Mem x.value r.1.out

  -- The loop stops where every item is later.
  stopped :
      (h : List ExpItem) (w : Sweep)
      → IsHeap h
      → ((x : ExpItem) → Mem x h → ms <ℤ x.exp)
      → Swept h w (h, w)
  stopped h w o late = record {
    heap = o;
    grows = record { out = λ v m. m; back = λ x m. m };
    later = λ x m p. m;
    back = λ x e m p f q. absurd (omega (arith, late x m));
    out = λ x e m p f q free. absurd (omega (arith, late x m));
  }

  abbrev after : List ExpItem → Sweep → Sweep
  after h w =
      let top = at h 0 in
      sweep_item top (lookup top.value s.entries) (is_planned (lookup top.value s.pend)) w

  first-Handled :
      (h : List ExpItem) (w : Sweep) (x : ExpItem) (e : Entry)
      → x ≡ at h 0
      → lookup x.value s.entries ≡ some e
      → x.exp ≤ℤ e.exp
      → Handled x e (after h w)
  first-Handled h w x e is found le =
      subst
        (λ y.
          Handled x e
            (sweep_item y (lookup y.value s.entries) (is_planned (lookup y.value s.pend)) w))
        is (rw found (sweep_item-Handled x e w le))

  -- One round and the rounds after it.
  went_on :
      (h : List ExpItem) (w : Sweep) (r : List ExpItem × Sweep)
      → Popped h (pop h)
      → (at h 0).exp ≤ℤ ms
      → Swept (pop h).1 (after h w) r
      → Swept h w r
  went_on h w r p due rest =
      let top = at h 0 in
      let one =
        sweep_item-Grows top (lookup top.value s.entries) (is_planned (lookup top.value s.pend))
          w in
      record {
        heap = rest.heap;
        grows = record {
          out = λ v m. rest.grows.out v (one.out v m);
          back = λ x m. rest.grows.back x (one.back x m);
        };
        later = λ x m late.
            Or.elim Mem-prop (first_or_left h (pop h) x p m)
              (λ is. absurd (omega (arith, subst (λ y. y.exp ≤ℤ ms) (sym is) due, late)))
              (λ n. rest.later x n late);
        back = λ x e m early found le.
            Or.elim Mem-prop (first_or_left h (pop h) x p m)
              (λ is. rest.grows.back _ (first-Handled h w x e is found le).back)
              (λ n. rest.back x e n early found le);
        out = λ x e m early found same free.
            Or.elim Mem-prop (first_or_left h (pop h) x p m)
              (λ is.
                rest.grows.out _
                  ((first-Handled h w x e is found (ground (arith, same))).out same free))
              (λ n. rest.out x e n early found same free);
      }

  -- A round on a heap that is not empty, given what the rounds after it do.
  round :
      (k : ℕ) (h : List ExpItem) (w : Sweep)
      → ((g : List ExpItem) (v : Sweep)
          → IsHeap g
          → length g ≤ k
          → Swept g v (sweep_loop s ms k g v))
      → 0 < length h
      → IsHeap h
      → length h ≤ suc k
      → Swept h w (sweep_loop s ms (suc k) h w)
  unfolding sweep_loop
  round k h w next full o l = elim (Bool-cases (length h == 0 || ltb_ℤ ms (at h 0).exp)) [
    | inl e ↦
        let late : ms <ℤ (at h 0).exp = ground arith in
        rw e (stopped h w o λ x m. omega (arith, late, root_least_of_all h o x m))
    | inr e ↦
        let p = pop-Popped h o full in
        rw e (
          went_on h w _ p (ground arith)
            (next (pop h).1 (after h w) p.heap (omega (arith, l, length-perm p.same))))
  ]

  nothing_left : (k : ℕ) (w : Sweep) → sweep_loop s ms k [] w ≡ ([], w)
  unfolding sweep_loop
  nothing_left zero w = refl
  nothing_left (suc k) w = refl

  pub sweep_loop-Swept :
      (k : ℕ) (h : List ExpItem) (w : Sweep)
      → IsHeap h
      → length h ≤ k
      → Swept h w (sweep_loop s ms k h w)
  sweep_loop-Swept k [] w o l = rw (nothing_left k w) (stopped [] w o λ x m. absurd (not-mem-nil m))
  sweep_loop-Swept zero (x ∷ h) w o l = absurd (omega arith)
  sweep_loop-Swept (suc k) (x ∷ g) w o l =
      round k (x ∷ g) w (sweep_loop-Swept k) (omega arith) o (omega (arith, l))
