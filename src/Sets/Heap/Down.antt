-- ===== src/Sets/Heap/Down.antt =====
-- `down` of container/heap, for the heap of internal/set/set.go.
use mathlib.Core.Logic.{◌≢◌, ◌⊎◌}
use mathlib.Core.List.{Perm}
use mathlib.Core.List.Perm
use placitum_keeper.Base.{
  ℕ, zero, suc, ◌+◌, ◌-◌, ◌*◌, ◌/◌, ◌≤◌, ◌<◌, ◌≡◌, refl, ◌∙◌, leb, List, length, arith, inl, inr,
  Bool-cases,
}
use placitum_keeper.Base.Int.{◌≤ℤ◌, ◌<ℤ◌}
use placitum_keeper.Sets.Heap.{
  at, parent, swap, less, smaller_child, down_loop, down, init_loop, init,
}
use placitum_keeper.Sets.Heap.Array.{length-swap, at-swap, length-perm}
use placitum_keeper.Sets.Heap.Order.{key, IsHeap, IsHeapFrom, Sifted, Sifted-swap}
use placitum_keeper.Sets.Types.{ExpItem}

-- Only the item at `i` may be later than one below it.
pub record SinksAt (lo n : ℕ) (h : List ExpItem) (i : ℕ) : Type 0 where
  pub inside : n ≤ length h
  pub edges : (c : ℕ) → 0 < c → c < n → lo ≤ parent c → parent c ≢ i → key h (parent c) ≤ℤ key h c
  pub across :
      (c : ℕ) → 0 < c → c < n → parent c ≡ i → 0 < i → lo ≤ parent i → key h (parent i) ≤ℤ key h c

record IsSmallerChild (h : List ExpItem) (i n m : ℕ) : Type 0 where
  inside : m < n
  child : (m ≡ 2 * i + 1) ⊎ (m ≡ 2 * i + 2)
  least : (c : ℕ) → 0 < c → c < n → parent c ≡ i → key h m ≤ℤ key h c

smaller_child-IsSmallerChild :
    (h : List ExpItem) (i n : ℕ) → 2 * i + 1 < n → IsSmallerChild h i n (smaller_child h i n)
unfolding smaller_child
smaller_child-IsSmallerChild h i n l = grind arith

swap-SinksAt :
    (lo n : ℕ) (h : List ExpItem) (i m : ℕ)
    → SinksAt lo n h i
    → IsSmallerChild h i n m
    → key h m <ℤ key h i
    → SinksAt lo n (swap h i m) m
swap-SinksAt lo n h i m v s late =
    let size = length-swap h i m in
    let here =
      at-swap h i m (omega (arith, v.inside, s.inside, s.child))
        (omega (arith, v.inside, s.inside)) in
    record {
      inside = omega (arith, v.inside, size);
      edges = λ c p q r t.
          ground (arith, here c, here (parent c), v.edges c, v.across m, s.least c, s.child);
      across = λ c p q r t u. ground (arith, here c, here (parent m), v.edges c, s.child);
    }

down_loop-Sifted :
    (k lo n : ℕ) (h : List ExpItem) (i : ℕ)
    → n - i < k
    → SinksAt lo n h i
    → Sifted lo n h (down_loop k h i n)
unfolding down_loop
down_loop-Sifted zero lo n h i f v = absurd (omega arith)
down_loop-Sifted (suc k) lo n h i f v = elim (Bool-cases (leb n (2 * i + 1))) [
  | inl e ↦ rw e ((λ c p q r. ground (arith, v.edges c)), Perm.refl h)
  | inr e ↦ rw e (
      let s = smaller_child-IsSmallerChild h i n (ground arith) in
      elim (Bool-cases (less h (smaller_child h i n) i)) [
        | inr d ↦ rw d ((λ c p q r. ground (arith, v.edges c, s.least c)), Perm.refl h)
        | inl d ↦ rw d (
            Sifted-swap lo n i (smaller_child h i n) h _ (omega (arith, v.inside))
              (omega (arith, s.inside, v.inside))
              (down_loop-Sifted k lo n (swap h i (smaller_child h i n)) (smaller_child h i n)
                (omega (arith, s.inside, s.child))
                (swap-SinksAt lo n h i (smaller_child h i n) v s (ground arith))))
      ])
]

pub down-Sifted :
    (lo n : ℕ) (h : List ExpItem) (i : ℕ) → SinksAt lo n h i → Sifted lo n h (down h i n)
unfolding down
down-Sifted lo n h i v = down_loop-Sifted (suc n) lo n h i (omega arith) v

init_loop-Sifted :
    (n i : ℕ) (h : List ExpItem) → n ≤ length h → IsHeapFrom i n h → Sifted 0 n h (init_loop n i h)
unfolding init_loop
init_loop-Sifted n zero h l o = (o, Perm.refl h)
init_loop-Sifted n (suc i) h l o =
    let one = down-Sifted i n h i (record {
      inside = l;
      edges = λ c p q r t. o c p q (omega arith);
      across = λ c p q r t u. absurd (omega arith);
    }) in
    let rest = init_loop-Sifted n i (down h i n) (omega (arith, l, length-perm one.1)) one.0 in
    (rest.0, Perm.trans rest.1 one.1)

-- heap.Init puts the items of any array in order, and keeps them.
pub init-IsHeap : (h : List ExpItem) → IsHeap (init h) × Perm (init h) h
unfolding init
init-IsHeap h =
    let n = length h in
    let s = init_loop-Sifted n (n / 2) h (omega arith) λ c p q r. absurd (omega arith) in
    ((λ c p q r. s.0 c p (omega (arith, q, length-perm s.1)) r), s.1)

-- `down` on the first `n` items leaves the others alone.
at-down_loop :
    (k : ℕ) (h : List ExpItem) (i n c : ℕ)
    → n ≤ c
    → c < length h
    → at (down_loop k h i n) c ≡ at h c
unfolding down_loop
at-down_loop zero h i n c l u = refl
at-down_loop (suc k) h i n c l u = elim (Bool-cases (leb n (2 * i + 1))) [
  | inl e ↦ rw e
  | inr e ↦ rw e (
      let s = smaller_child-IsSmallerChild h i n (ground arith) in
      elim (Bool-cases (less h (smaller_child h i n) i)) [
        | inr d ↦ rw d
        | inl d ↦ rw d (
            at-down_loop k (swap h i (smaller_child h i n)) (smaller_child h i n) n c l
              (omega (arith, u, length-swap h i (smaller_child h i n)))
            ∙ at-swap h i (smaller_child h i n) (omega arith) (omega (arith, s.inside, l)) c
            ∙ ground (arith, s.inside))
      ])
]

pub at-down : (h : List ExpItem) (i n c : ℕ) → n ≤ c → c < length h → at (down h i n) c ≡ at h c
unfolding down
at-down h i n c l u = at-down_loop (suc n) h i n c l u
