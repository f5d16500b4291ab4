-- ===== src/Sets/Heap/Array.antt =====
-- The array of the heap of internal/set/set.go: reads, writes and exchanges.
use mathlib.Core.Logic.{∥∥₁_elim}
use native.Mathlib.Nat.{ℕ_set}
use mathlib.Core.List.{Perm, Permᴰ, perm_middle, append-nil}
use mathlib.Core.List.Perm
use placitum_keeper.Base.{
  ℕ, zero, suc, ◌<◌, ◌≡◌, refl, ap, ◌∙◌, List, [], ◌∷◌, ◌++◌, length, take, ◌==◌, if◌then◌else◌,
  arith,
}
use placitum_keeper.Sets.Heap.{at, set_at, swap}
use placitum_keeper.Sets.Types.{ExpItem}

pub length-perm : {a b : List ExpItem} → Perm a b → length a ≡ length b
length-perm p = ∥∥₁_elim p (ℕ_set _ _) same_length
  where
    same_length : {a b : List ExpItem} → Permᴰ a b → length a ≡ length b
    same_length Permᴰ.nil = refl
    same_length (Permᴰ.cons x p) = ap suc (same_length p)
    same_length (Permᴰ.swap x y) = refl
    same_length (Permᴰ.trans p q) = same_length p ∙ same_length q

pub snoc-perm : (h : List ExpItem) (x : ExpItem) → Perm (h ++ (x ∷ [])) (x ∷ h)
snoc-perm h x = rw (append-nil h) at (perm_middle {a = x} h [])

length-set_at : (h : List ExpItem) (i : ℕ) (v : ExpItem) → length (set_at h i v) ≡ length h
unfolding set_at
length-set_at [] i v = refl
length-set_at (x ∷ h) zero v = refl
length-set_at (x ∷ h) (suc i) v = ap suc (length-set_at h i v)

at-set_at :
    (h : List ExpItem) (i c : ℕ) (v : ExpItem)
    → i < length h
    → at (set_at h i v) c ≡ (if i == c then v else at h c)
unfolding at set_at
at-set_at [] i c v l = absurd (omega arith)
at-set_at (x ∷ h) zero zero v l = refl
at-set_at (x ∷ h) zero (suc c) v l = ground arith
at-set_at (x ∷ h) (suc i) zero v l = ground arith
at-set_at (x ∷ h) (suc i) (suc c) v l = ground (arith, at-set_at h i c v)

pub at-append : (h g : List ExpItem) (i : ℕ) → i < length h → at (h ++ g) i ≡ at h i
unfolding at
at-append [] g i l = absurd (omega arith)
at-append (x ∷ h) g zero l = refl
at-append (x ∷ h) g (suc i) l = at-append h g i (omega arith)

pub at-take : (n : ℕ) (h : List ExpItem) (i : ℕ) → i < n → at (take n h) i ≡ at h i
unfolding at
at-take zero h i l = absurd (omega arith)
at-take (suc n) [] i l = refl
at-take (suc n) (x ∷ h) zero l = refl
at-take (suc n) (x ∷ h) (suc i) l = at-take n h i (omega arith)

pub take-at_last : (n : ℕ) (h : List ExpItem) → length h ≡ suc n → take n h ++ (at h n ∷ []) ≡ h
unfolding at
take-at_last n [] l = absurd (omega arith)
take-at_last zero (x ∷ []) l = refl
take-at_last zero (x ∷ y ∷ h) l = absurd (omega arith)
take-at_last (suc n) (x ∷ h) l = ap (◌∷◌ x) (take-at_last n h (omega arith))

-- What a write takes out and what it puts in.
set_at-perm :
    (h : List ExpItem) (i : ℕ) (v : ExpItem) → i < length h → Perm (at h i ∷ set_at h i v) (v ∷ h)
unfolding at set_at
set_at-perm [] i v l = absurd (omega arith)
set_at-perm (x ∷ h) zero v l = Perm.swap v x h
set_at-perm (x ∷ h) (suc i) v l =
    Perm.trans (Perm.swap x (at h i) (set_at h i v))
      (Perm.trans (Perm.cons x (set_at-perm h i v (omega arith))) (Perm.swap v x h))

pub length-swap : (h : List ExpItem) (i j : ℕ) → length (swap h i j) ≡ length h
unfolding swap
length-swap h i j = simp length-set_at

module _ (h : List ExpItem) (i j : ℕ) (li : i < length h) (lj : j < length h) where
  pub at-swap :
      (c : ℕ) → at (swap h i j) c ≡ (if j == c then at h i else (if i == c then at h j else at h c))
  unfolding swap
  at-swap c = rw (
    at-set_at (set_at h i (at h j)) j c (at h i) (rw length-set_at lj),
    at-set_at h i c (at h j) li,
  )

  pub swap-perm : Perm (swap h i j) h
  unfolding swap
  swap-perm =
      let g = set_at h i (at h j) in
      let kept : at g j ≡ at h j = ground (arith, at-set_at h i j (at h j)) in
      let back = rw kept at (set_at-perm g j (at h i) (rw length-set_at lj)) in
      Perm.cons_inv (Perm.trans back (set_at-perm h i (at h j) li))
