-- ===== src/Base/Maps/Keys.antt =====
-- The keys of a Go map, and how many there are.
use Prim.Native.Nat.{suc, ◌≤◌}
use mathlib.Core.Path.{◌≡◌, refl, ◌∙◌}
use mathlib.Core.Bool.{Bool, true, false, ◌&&◌, ◌||◌, not}
use mathlib.Core.Option.{Option, none, some}
use mathlib.Core.List.{[], ◌∷◌}
use mathlib.Core.Logic.{inl, inr}
use native.Mathlib.Omega.{arith}
use placitum_keeper.Base.Tests.{Str, str_eq, str_eq_iff, str_eq_refl, if◌then◌else◌, Option-cases}
use placitum_keeper.Base.Lists.{length}
use placitum_keeper.Base.Maps.{
  Map, lookup, insert, erase, Distinct, lookup-insert, lookup-erase, Distinct-erase,
  length-insert_new, length-insert_old, length-erase,
}

module _ {ℓ} {V : Type ℓ} where
  abbrev is_there : Option V → Bool
  is_there none = false
  is_there (some v) = true

  -- `_, ok := m[k]`
  unfoldable pub has_key : Str → Map V → Bool
  has_key k m = is_there (lookup k m)

  pub has_key-none : (k : Str) (m : Map V) → has_key k m ≡ false → lookup k m ≡ none
  unfolding has_key
  has_key-none k m h = ground arith

  pub has_key-insert :
      (k j : Str) (v : V) (m : Map V) → has_key j (insert k v m) ≡ (str_eq k j || has_key j m)
  unfolding has_key
  has_key-insert k j v m = ground (arith, lookup-insert k j v m)

  pub has_key-erase :
      (k j : Str) (m : Map V)
      → Distinct m
      → has_key j (erase k m) ≡ (not (str_eq k j) && has_key j m)
  unfolding has_key
  has_key-erase k j m d = ground (arith, lookup-erase k j m d)

  pub length-insert :
      (k : Str) (v : V) (m : Map V)
      → length (insert k v m) ≡ (if has_key k m then length m else suc (length m))
  unfolding has_key
  length-insert k v m = elim (Option-cases (lookup k m)) [
    | inl e ↦ rw e (length-insert_new k v m e)
    | inr (w, e) ↦ rw e (length-insert_old k v m w e)
  ]

  has_key-head : (k : Str) (v : V) (m : Map V) → has_key k ((k, v) ∷ m) ≡ true
  unfolding has_key lookup
  has_key-head k v m = rw (str_eq_refl k) refl

  has_key-tail :
      (k j : Str) (v : V) (m : Map V)
      → lookup k m ≡ none
      → has_key j m ≡ true
      → (str_eq k j ≡ false) × (has_key j ((k, v) ∷ m) ≡ true)
  unfolding has_key lookup
  has_key-tail k j v m fresh h = ground (arith, str_eq_iff k j)

  has_key-some : (k : Str) (m : Map V) → has_key k m ≡ true → (v : V) × (lookup k m ≡ some v)
  unfolding has_key
  has_key-some k m h = elim (Option-cases (lookup k m)) [
    | inl e ↦ absurd (ground arith)
    | inr found ↦ found
  ]

  -- A map whose keys are all in another is no longer than it.
  pub length_within :
      (m n : Map V)
      → Distinct m
      → Distinct n
      → ((k : Str) → has_key k m ≡ true → has_key k n ≡ true)
      → length m ≤ length n
  length_within [] n dm dn w = omega arith
  length_within ((k, v) ∷ m) n dm dn w =
      let (u, found) = has_key-some k n (w k (has_key-head k v m)) in
      let rest = length_within m (erase k n) dm.1 (Distinct-erase k n dn) λ j h.
        let (other, there) = has_key-tail k j v m dm.0 h in
        has_key-erase k j n dn ∙ rw (other, w j there) refl in
      omega (arith, length-erase k n u found)
