-- ===== src/Sets/Heap/Up.antt =====
-- `up` of container/heap and heap.Push, for the heap of internal/set/set.go.
use mathlib.Core.Logic.{◌≢◌}
use mathlib.Core.List.{Perm, perm_middle}
use mathlib.Core.List.Perm
use placitum_keeper.Base.{
  ℕ, zero, suc, ◌-◌, ◌<◌, ◌≡◌, sym, ◌∙◌, ◌||◌, not, ◌==◌, List, [], ◌∷◌, ◌++◌, length, arith, inl,
  inr, Bool-cases, length-append,
}
use placitum_keeper.Base.Int.{◌≤ℤ◌, ◌<ℤ◌}
use placitum_keeper.Sets.Heap.{parent, swap, less, up_loop, push, push_all}
use placitum_keeper.Sets.Heap.Array.{length-swap, at-swap, length-perm, at-append, snoc-perm}
use placitum_keeper.Sets.Heap.Order.{key, IsHeap, Sifted, Sifted-swap}
use placitum_keeper.Sets.Types.{ExpItem}

-- Only the item at `j` may be earlier than the one above it.
record RisesAt (h : List ExpItem) (j : ℕ) : Type 0 where
  inside : j < length h
  edges : (c : ℕ) → 0 < c → c < length h → c ≢ j → key h (parent c) ≤ℤ key h c
  across : (c : ℕ) → 0 < c → c < length h → parent c ≡ j → 0 < j → key h (parent j) ≤ℤ key h c

swap-RisesAt :
    (h : List ExpItem) (j : ℕ)
    → RisesAt h j
    → 0 < j
    → key h j <ℤ key h (parent j)
    → RisesAt (swap h (parent j) j) (parent j)
swap-RisesAt h j r p late = grind (arith, length-swap h (parent j) j, at-swap h (parent j) j)

up_loop-Sifted :
    (k : ℕ) (h : List ExpItem) (j : ℕ) → j < k → RisesAt h j → Sifted 0 (length h) h (up_loop k h j)
unfolding up_loop
up_loop-Sifted zero h j f r = absurd (omega arith)
up_loop-Sifted (suc k) h j f r = elim (Bool-cases ((parent j == j) || not (less h j (parent j)))) [
  | inl e ↦ rw e ((λ c p q l. ground (arith, r.edges c)), Perm.refl h)
  | inr e ↦ rw e (
      let above : parent j < length h = omega (arith, r.inside) in
      Sifted-swap 0 (length h) (parent j) j h _ above r.inside (
        rw (sym (length-swap h (parent j) j)) (
          up_loop-Sifted k (swap h (parent j) j) (parent j) (ground arith)
            (swap-RisesAt h j r (ground arith) (ground arith)))))
]

-- heap.Push adds its item to the heap and keeps the order.
pub push-IsHeap :
    (x : ExpItem) (h : List ExpItem) → IsHeap h → IsHeap (push x h) × Perm (push x h) (x ∷ h)
unfolding push
push-IsHeap x h o =
    let g = h ++ (x ∷ []) in
    let size : length g ≡ suc (length h) = length-append h (x ∷ []) ∙ omega arith in
    let s = up_loop-Sifted (length g) g (length g - 1) (omega arith) (record {
      inside = omega arith;
      edges =
          λ c p q r. ground (arith, o c, at-append h (x ∷ []) c, at-append h (x ∷ []) (parent c));
      across = λ c p q r t. absurd (omega arith);
    }) in
    (rw (length-perm s.1) s.0, Perm.trans s.1 (snoc-perm h x))

pub push_all-IsHeap :
    (xs h : List ExpItem) → IsHeap h → IsHeap (push_all xs h) × Perm (push_all xs h) (xs ++ h)
unfolding push_all
push_all-IsHeap [] h o = (o, Perm.refl h)
push_all-IsHeap (x ∷ xs) h o =
    let one = push-IsHeap x h o in
    let rest = push_all-IsHeap xs (push x h) one.0 in
    (rest.0, Perm.trans rest.1 (Perm.trans (Perm.append_left xs one.1) (perm_middle xs h)))
