-- ===== src/Base/Maps.antt =====
-- A Go map with string keys, as an association list in one arbitrary order.
pub mod Extensional
pub mod Keys
use Prim.Native.Nat.{ℕ, suc, bit_xor}
use mathlib.Core.Path.{◌≡◌, refl, sym, ap, ◌∙◌}
use mathlib.Core.Option.{Option, none, some}
use mathlib.Core.List.{List, [], ◌∷◌}
use mathlib.Core.Logic.{inl, inr}
use native.Mathlib.Omega.{arith}
use placitum_keeper.Base.Tests.{Str, str_eq, str_eq_iff, if◌then◌else◌, Bool-cases}
use placitum_keeper.Base.Lists.{length}
use placitum_keeper.Base.Bits.{xor_assoc, xor_comm, xor_cancel}

abbrev pub Map {ℓ} : Type ℓ → Type ℓ
Map V = List (Str × V)

module _ {ℓ} {V : Type ℓ} where
  unfoldable pub lookup : Str → Map V → Option V
  lookup k [] = none
  lookup k ((j, v) ∷ m) = if str_eq j k then some v else lookup k m

  -- `m[k] = v`: an old entry keeps its place.
  unfoldable pub insert : Str → V → Map V → Map V
  insert k v [] = (k, v) ∷ []
  insert k v ((j, w) ∷ m) = if str_eq j k then (j, v) ∷ m else (j, w) ∷ insert k v m

  -- `delete(m, k)`.
  unfoldable pub erase : Str → Map V → Map V
  erase k [] = []
  erase k ((j, w) ∷ m) = if str_eq j k then m else (j, w) ∷ erase k m

  -- No key stands twice.
  abbrev pub Distinct : Map V → Type ℓ
  Distinct [] = Unit {ℓ}
  Distinct ((k, v) ∷ m) = (lookup k m ≡ none) × Distinct m

module _ {ℓ} {V : Type ℓ} where
  pub lookup-insert :
      (k j : Str) (v : V) (m : Map V)
      → lookup j (insert k v m) ≡ (if str_eq k j then some v else lookup j m)
  unfolding lookup insert
  lookup-insert k j v [] = refl
  lookup-insert k j v ((i, w) ∷ m) =
      ground (arith, str_eq_iff k j, str_eq_iff i k, str_eq_iff i j, lookup-insert k j v m)

  pub lookup-erase :
      (k j : Str) (m : Map V)
      → Distinct m
      → lookup j (erase k m) ≡ (if str_eq k j then none else lookup j m)
  unfolding lookup erase
  lookup-erase k j [] d = ground arith
  lookup-erase k j ((i, w) ∷ m) d =
      ground (arith, str_eq_iff k j, str_eq_iff i k, str_eq_iff i j, lookup-erase k j m d.1)

  pub Distinct-insert : (k : Str) (v : V) (m : Map V) → Distinct m → Distinct (insert k v m)
  unfolding insert
  Distinct-insert k v [] d = unfold lookup in (refl, tt)
  Distinct-insert k v ((i, w) ∷ m) d = elim (Bool-cases (str_eq i k)) [
    | inl e ↦ rw e d
    | inr e ↦ rw e (
      ground (arith, lookup-insert k i v m, str_eq_iff k i, str_eq_iff i k),
      Distinct-insert k v m d.1,
    )
  ]

  pub Distinct-erase : (k : Str) (m : Map V) → Distinct m → Distinct (erase k m)
  unfolding erase
  Distinct-erase k [] d = d
  Distinct-erase k ((i, w) ∷ m) d = elim (Bool-cases (str_eq i k)) [
    | inl e ↦ rw e d.1
    | inr e ↦ rw e (
      ground (arith, lookup-erase k i m d.1, str_eq_iff k i, str_eq_iff i k),
      Distinct-erase k m d.1,
    )
  ]

  pub length-insert_new :
      (k : Str) (v : V) (m : Map V) → lookup k m ≡ none → length (insert k v m) ≡ suc (length m)
  unfolding lookup insert
  length-insert_new k v [] h = refl
  length-insert_new k v ((i, w) ∷ m) h = ground (arith, length-insert_new k v m)

  pub length-insert_old :
      (k : Str) (v : V) (m : Map V) (w : V) → lookup k m ≡ some w → length (insert k v m) ≡ length m
  unfolding lookup insert
  length-insert_old k v [] w h = ground arith
  length-insert_old k v ((i, u) ∷ m) w h = ground (arith, length-insert_old k v m w)

  pub length-erase :
      (k : Str) (m : Map V) (w : V) → lookup k m ≡ some w → suc (length (erase k m)) ≡ length m
  unfolding lookup erase
  length-erase k [] w h = ground arith
  length-erase k ((i, u) ∷ m) w h = ground (arith, length-erase k m w)

-- The exclusive or of a number of each entry.
module _ {ℓ} {V : Type ℓ} (f : V → ℕ) where
  unfoldable pub xor_all : Map V → ℕ
  xor_all [] = 0
  xor_all ((k, v) ∷ m) = bit_xor (f v) (xor_all m)

  pub xor_all-insert_new :
      (k : Str) (v : V) (m : Map V)
      → lookup k m ≡ none
      → xor_all (insert k v m) ≡ bit_xor (xor_all m) (f v)
  unfolding xor_all lookup insert
  xor_all-insert_new k v [] h = xor_comm (f v) 0
  xor_all-insert_new k v ((i, w) ∷ m) h = elim (Bool-cases (str_eq i k)) [
    | inl e ↦ absurd (ground arith)
    | inr e ↦
        rw (e, xor_all-insert_new k v m (ground arith)) (sym (xor_assoc (f w) (xor_all m) (f v)))
  ]

  pub xor_all-insert_old :
      (k : Str) (v : V) (m : Map V) (w : V)
      → lookup k m ≡ some w
      → f w ≡ f v
      → xor_all (insert k v m) ≡ xor_all m
  unfolding xor_all lookup insert
  xor_all-insert_old k v [] w h q = ground arith
  xor_all-insert_old k v ((i, u) ∷ m) w h q = ground (arith, xor_all-insert_old k v m w)

  pub xor_all-erase :
      (k : Str) (m : Map V) (w : V)
      → lookup k m ≡ some w
      → xor_all (erase k m) ≡ bit_xor (xor_all m) (f w)
  unfolding xor_all lookup erase
  xor_all-erase k [] w h = ground arith
  xor_all-erase k ((i, u) ∷ m) w h = elim (Bool-cases (str_eq i k)) [
    | inl e ↦
        let same : u ≡ w = ground arith in
        rw (e, ← same)
          (sym
            (ap (λ t. bit_xor t (f u)) (xor_comm (f u) (xor_all m)) ∙ xor_cancel (xor_all m) (f u)))
    | inr e ↦ rw (e, xor_all-erase k m w (ground arith)) (sym (xor_assoc (f u) (xor_all m) (f w)))
  ]

-- Writes that change nothing.
module _ {ℓ} {V : Type ℓ} where
  pub insert_same : (k : Str) (v : V) (m : Map V) → lookup k m ≡ some v → insert k v m ≡ m
  unfolding lookup insert
  insert_same k v [] h = ground arith
  insert_same k v ((i, w) ∷ m) h = ground (arith, insert_same k v m)

  pub erase_absent : (k : Str) (m : Map V) → lookup k m ≡ none → erase k m ≡ m
  unfolding lookup erase
  erase_absent k [] h = refl
  erase_absent k ((i, w) ∷ m) h = ground (arith, erase_absent k m)
