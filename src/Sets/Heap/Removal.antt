-- ===== src/Sets/Heap/Removal.antt =====
-- heap.Pop, for the heap of internal/set/set.go.
use native.Mathlib.Bridge.{le_prop}
use mathlib.Core.List.{Perm, Mem, not-mem-nil, forall_mem-cons}
use mathlib.Core.List.Perm
use placitum_keeper.Base.{ℕ, suc, ◌-◌, ◌<◌, ◌≡◌, ◌∙◌, List, [], ◌∷◌, length, take, arith}
use placitum_keeper.Base.Int.{ℤ, ◌≤ℤ◌}
use placitum_keeper.Sets.Heap.{at, parent, swap, down, pop}
use placitum_keeper.Sets.Heap.Array.{
  length-swap, at-swap, swap-perm, at-take, take-at_last, length-perm, snoc-perm,
}
use placitum_keeper.Sets.Heap.Down.{SinksAt, down-Sifted, at-down}
use placitum_keeper.Sets.Heap.Order.{key, IsHeap, Sifted, root_least}
use placitum_keeper.Sets.Types.{ExpItem}

-- What heap.Pop gives: the first item, which is a least one, and a heap of all the others.
pub record Popped (h : List ExpItem) (r : ExpItem × List ExpItem) : Type 0 where
  pub first : r.0 ≡ at h 0
  pub heap : IsHeap r.1
  pub same : Perm (r.0 ∷ r.1) h
  pub least : (x : ExpItem) → Mem x h → r.0.exp ≤ℤ x.exp

least_of_all :
    (h : List ExpItem) (e : ℤ)
    → ((i : ℕ) → i < length h → e ≤ℤ key h i)
    → (x : ExpItem) → Mem x h
    → e ≤ℤ x.exp
unfolding at
least_of_all [] e l = λ x m. absurd (not-mem-nil m)
least_of_all (x ∷ h) e l =
    (forall_mem-cons λ y. le_prop).1
      (l 0 (omega arith), least_of_all h e λ i p. l (suc i) (omega arith))

-- No item of a heap is earlier than its first.
pub root_least_of_all :
    (h : List ExpItem) → IsHeap h → (x : ExpItem) → Mem x h → (at h 0).exp ≤ℤ x.exp
root_least_of_all h o = least_of_all h (at h 0).exp λ i. root_least h i o

module _ (h : List ExpItem) (n : ℕ) (size : length h ≡ suc n) (o : IsHeap h) where
  swapped-SinksAt : SinksAt 0 n (swap h 0 n) 0
  swapped-SinksAt =
      let here = at-swap h 0 n (omega arith) (omega arith) in
      record {
        inside = omega (arith, length-swap h 0 n);
        edges = λ c p q r t. ground (arith, o c, here c, here (parent c));
        across = λ c p q r t. absurd (omega arith);
      }

  sunk : Sifted 0 n (swap h 0 n) (down (swap h 0 n) 0 n)
  sunk = down-Sifted 0 n (swap h 0 n) 0 swapped-SinksAt

  size_sunk : length (down (swap h 0 n) 0 n) ≡ suc n
  size_sunk = length-perm sunk.1 ∙ length-swap h 0 n ∙ size

  kept_last : at (down (swap h 0 n) 0 n) n ≡ at h 0
  kept_last =
      at-down (swap h 0 n) 0 n n (omega arith) (omega (arith, length-swap h 0 n))
      ∙ at-swap h 0 n (omega arith) (omega arith) n
      ∙ ground arith

  taken-perm : Perm (at (down (swap h 0 n) 0 n) n ∷ take n (down (swap h 0 n) 0 n)) h
  taken-perm =
      let g = down (swap h 0 n) 0 n in
      Perm.trans (Perm.symm (snoc-perm (take n g) (at g n))) (
        rw (take-at_last n g size_sunk)
          (Perm.trans sunk.1 (swap-perm h 0 n (omega arith) (omega arith))))

  taken-IsHeap : IsHeap (take n (down (swap h 0 n) 0 n))
  taken-IsHeap c p q r =
      let kept = at-take n (down (swap h 0 n) 0 n) in
      let shorter : length (take n (down (swap h 0 n) 0 n)) ≡ n =
        omega (arith, length-perm taken-perm) in
      ground (arith, sunk.0 c, kept c, kept (parent c))

  popped : Popped h (at (down (swap h 0 n) 0 n) n, take n (down (swap h 0 n) 0 n))
  popped = record {
    first = kept_last;
    heap = taken-IsHeap;
    same = taken-perm;
    least = λ x m. rw kept_last (root_least_of_all h o x m);
  }

-- heap.Pop on a heap that is not empty gives its first item, than which no item is earlier, and leaves a
-- heap of all the others.
pub pop-Popped : (h : List ExpItem) → IsHeap h → 0 < length h → Popped h (pop h)
unfolding pop
pop-Popped h o l =
    let n = length h - 1 in
    let size : length h ≡ suc n = omega arith in
    let kept : length (down (swap h 0 n) 0 n) - 1 ≡ n = omega (arith, size_sunk h n size o) in
    rw kept (popped h n size o)
