-- ===== src/Sets/Heap.antt =====
-- The expiry heap of internal/set/set.go: expHeap's methods, and what container/heap does with
-- them on the array of the items. An index past the end, which none of them reads, gives the zero
-- item. A loop has fuel for the depth of the array at least.
pub mod Array
pub mod Order
pub mod Up
pub mod Down
pub mod Removal
use placitum_keeper.Base.{
  ℕ, zero, suc, ◌+◌, ◌-◌, ◌*◌, ◌/◌, Bool, not, ◌&&◌, ◌||◌, ◌==◌, ltb, leb, List, [], ◌∷◌, ◌++◌,
  length, take, if◌then◌else◌,
}
use placitum_keeper.Base.Int.{pos, ltb_ℤ}
use placitum_keeper.Sets.Types.{ExpItem}

abbrev pub zero_item : ExpItem
zero_item = record { value = []; exp = pos 0 }

-- `h[i]`
unfoldable pub at : List ExpItem → ℕ → ExpItem
at [] i = zero_item
at (x ∷ h) zero = x
at (x ∷ h) (suc i) = at h i

-- `h[i] = v`
unfoldable pub set_at : List ExpItem → ℕ → ExpItem → List ExpItem
set_at [] i v = []
set_at (x ∷ h) zero v = v ∷ h
set_at (x ∷ h) (suc i) v = x ∷ set_at h i v

-- expHeap.Less and expHeap.Swap.
abbrev pub less : List ExpItem → ℕ → ℕ → Bool
less h i j = ltb_ℤ (at h i).exp (at h j).exp

unfoldable pub swap : List ExpItem → ℕ → ℕ → List ExpItem
unfolding set_at at
swap h i j = set_at (set_at h i (at h j)) j (at h i)

-- expHeap.Push and expHeap.Pop: the item at the end.
abbrev pub append_item : ExpItem → List ExpItem → List ExpItem
append_item x h = h ++ (x ∷ [])

abbrev pub pop_last : List ExpItem → ExpItem × List ExpItem
pop_last h = let n = length h in (at h (n - 1), take (n - 1) h)

abbrev pub parent : ℕ → ℕ
parent j = (j - 1) / 2

-- `up` of container/heap.
unfoldable pub up_loop : ℕ → List ExpItem → ℕ → List ExpItem
unfolding swap at
up_loop zero h j = h
up_loop (suc k) h j =
    let rest = up_loop k (swap h (parent j) j) (parent j) in
    if (parent j == j) || not (less h j (parent j)) then h else rest

-- The child of `i` that `down` compares with it, among the first `n` items.
unfoldable pub smaller_child : List ExpItem → ℕ → ℕ → ℕ
unfolding at
smaller_child h i n =
    let left = 2 * i + 1 in if ltb (left + 1) n && less h (left + 1) left then left + 1 else left

-- `down` of container/heap.
unfoldable pub down_loop : ℕ → List ExpItem → ℕ → ℕ → List ExpItem
unfolding swap at smaller_child
down_loop zero h i n = h
down_loop (suc k) h i n =
    let j = smaller_child h i n in
    let rest = down_loop k (swap h i j) j n in
    if leb n (2 * i + 1) then h else (if less h j i then rest else h)

unfoldable pub down : List ExpItem → ℕ → ℕ → List ExpItem
unfolding down_loop
down h i n = down_loop (suc n) h i n

-- heap.Init: the loop counts down from the last parent.
unfoldable pub init_loop : ℕ → ℕ → List ExpItem → List ExpItem
unfolding down
init_loop n zero h = h
init_loop n (suc i) h = init_loop n i (down h i n)

unfoldable pub init : List ExpItem → List ExpItem
unfolding init_loop
init h = let n = length h in init_loop n (n / 2) h

-- heap.Push.
unfoldable pub push : ExpItem → List ExpItem → List ExpItem
unfolding up_loop
push x h = let g = append_item x h in up_loop (length g) g (length g - 1)

-- heap.Push of each item of a list in turn.
unfoldable pub push_all : List ExpItem → List ExpItem → List ExpItem
unfolding push
push_all [] h = h
push_all (x ∷ xs) h = push_all xs (push x h)

-- heap.Pop.
unfoldable pub pop : List ExpItem → ExpItem × List ExpItem
unfolding down
pop h = let n = length h - 1 in pop_last (down (swap h 0 n) 0 n)
