-- ===== src/Base/Maps/Extensional.antt =====
-- Two maps with the same reads.
use Prim.Native.Nat.{ℕ, bit_xor}
use mathlib.Core.Path.{◌≡◌, refl, sym, ap, ◌∙◌}
use mathlib.Core.Option.{some}
use mathlib.Core.List.{[], ◌∷◌}
use native.Mathlib.Omega.{arith}
use placitum_keeper.Base.Tests.{Str, str_eq_iff, str_eq_refl}
use placitum_keeper.Base.Bits.{xor_comm, xor_cancel}
use placitum_keeper.Base.Maps.{
  Map, lookup, erase, Distinct, lookup-erase, Distinct-erase, xor_all, xor_all-erase,
}

module _ {ℓ} {V : Type ℓ} where
  abbrev pub Same : Map V → Map V → Type ℓ
  Same a b = (k : Str) → lookup k a ≡ lookup k b

  Same-rest :
      (k : Str) (v : V) (a b : Map V)
      → Distinct ((k, v) ∷ a)
      → Distinct b
      → Same ((k, v) ∷ a) b
      → Same a (erase k b)
  unfolding lookup
  Same-rest k v a b da db same u =
      ground (arith, lookup-erase k u b db, same u, str_eq_iff k u, da.0)

  -- Where the reads are the same, so is the exclusive or over the entries, whatever the orders.
  pub xor_all-Same :
      (f : V → ℕ) (a b : Map V) → Distinct a → Distinct b → Same a b → xor_all f a ≡ xor_all f b
  unfolding xor_all
  xor_all-Same f [] [] da db same = refl
  xor_all-Same f [] ((k, v) ∷ b) da db same =
      absurd (unfold lookup in ground (arith, same k, str_eq_refl k))
  xor_all-Same f ((k, v) ∷ a) b da db same =
      let read : lookup k b ≡ some v = sym (same k) ∙ unfold lookup in rw (str_eq_refl k) refl in
      let rest : xor_all f a ≡ bit_xor (xor_all f b) (f v) =
        xor_all-Same f a (erase k b) da.1 (Distinct-erase k b db) (Same-rest k v a b da db same)
        ∙ xor_all-erase f k b v read in
      ap (bit_xor (f v)) rest
      ∙ xor_comm (f v) (bit_xor (xor_all f b) (f v))
      ∙ xor_cancel (xor_all f b) (f v)
