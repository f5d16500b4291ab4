-- ===== src/Sets/Heap/Order.antt =====
-- The order of the heap of internal/set/set.go: no item is earlier than the one above it.
use mathlib.Core.List.{Perm}
use mathlib.Core.List.Perm
use placitum_keeper.Base.{ℕ, zero, suc, ◌≤◌, ◌<◌, List, length, arith}
use placitum_keeper.Base.Int.{ℤ, ◌≤ℤ◌}
use placitum_keeper.Sets.Heap.{at, parent, swap}
use placitum_keeper.Sets.Heap.Array.{swap-perm}
use placitum_keeper.Sets.Types.{ExpItem}

abbrev pub key : List ExpItem → ℕ → ℤ
key h i = (at h i).exp

-- The first `n` items are in order below every place from `lo` on.
abbrev pub IsHeapFrom : ℕ → ℕ → List ExpItem → Type 0
IsHeapFrom lo n h = (c : ℕ) → 0 < c → c < n → lo ≤ parent c → key h (parent c) ≤ℤ key h c

abbrev pub IsHeap : List ExpItem → Type 0
IsHeap h = IsHeapFrom 0 (length h) h

-- `g` is `h` put in order from `lo` on, with the same items.
abbrev pub Sifted : ℕ → ℕ → List ExpItem → List ExpItem → Type 0
Sifted lo n h g = IsHeapFrom lo n g × Perm g h

pub Sifted-swap :
    (lo n i j : ℕ) (h g : List ExpItem)
    → i < length h
    → j < length h
    → Sifted lo n (swap h i j) g
    → Sifted lo n h g
Sifted-swap lo n i j h g li lj s = (s.0, Perm.trans s.1 (swap-perm h i j li lj))

root_least_within :
    (k : ℕ) (h : List ExpItem) (i : ℕ) → IsHeap h → i < k → i < length h → key h 0 ≤ℤ key h i
root_least_within zero h i o f l = absurd (omega arith)
root_least_within (suc k) h i o f l = ground (arith, o i, root_least_within k h (parent i) o)

-- The first item of a heap is a least one.
pub root_least : (h : List ExpItem) (i : ℕ) → IsHeap h → i < length h → key h 0 ≤ℤ key h i
root_least h i o l = root_least_within (suc i) h i o (omega arith) l
