-- ===== src/Sets/Load/Content.antt =====
-- What Load and Resume of internal/set/set.go leave.
use placitum_keeper.Base.{
  ℕ, ◌≡◌, refl, sym, ap, ◌∙◌, List, [], ◌∷◌, bit_xor, inl, inr, Option-cases,
}
use placitum_keeper.Base.Maps.{
  Distinct, lookup, Distinct-insert, xor_all, xor_all-insert_new, xor_all-insert_old,
}
use placitum_keeper.Sets.Heap.{init}
use placitum_keeper.Sets.Ideal.{digest}
use placitum_keeper.Sets.Load.{load, load_loop, load_step, resume}
use placitum_keeper.Sets.Netip.{Library}
use placitum_keeper.Sets.Pipeline.{Pipeline, settle-Pipeline}
use placitum_keeper.Sets.Planning.{entry_of}
use placitum_keeper.Sets.State.{settle, hash_of}
use placitum_keeper.Sets.Types.{Set, Record}

abbrev Tidy : Set → Type 0
Tidy s = Distinct s.entries × (s.hash ≡ digest s.entries)

module _ (lib : Library) where
  load_step-Tidy : (s : Set) (r : Record) → Tidy s → Tidy (load_step lib s r)
  unfolding load_step
  load_step-Tidy s r t = elim (Option-cases (lookup r.value s.entries)) [
    | inl e ↦
        rw (load_step, e)
          (
            Distinct-insert r.value _ s.entries t.0,
            ap (λ h. bit_xor h (hash_of lib s r)) t.1
                ∙ sym (
                    xor_all-insert_new (λ x. x.hash) r.value (entry_of r (hash_of lib s r))
                      s.entries e),
          )
    | inr (w, e) ↦
        rw (load_step, e)
          (
            Distinct-insert r.value _ s.entries t.0,
            t.1
                ∙ sym (
                    xor_all-insert_old (λ x. x.hash) r.value (entry_of r w.hash) s.entries w e
                      refl),
          )
  ]

  load_loop-Tidy : (s : Set) (rs : List Record) → Tidy s → Tidy (load_loop lib s rs)
  unfolding load_loop
  load_loop-Tidy s [] t = t
  load_loop-Tidy s (r ∷ rs) t = load_loop-Tidy (load_step lib s r) rs (load_step-Tidy s r t)

  load_step_kept :
      (s : Set) (r : Record)
      → ((load_step lib s r).epoch ≡ s.epoch)
        × ((load_step lib s r).key ≡ s.key)
        × ((load_step lib s r).seq ≡ s.seq)
        × ((load_step lib s r).def ≡ s.def)
  unfolding load_step
  load_step_kept s r = elim (Option-cases (lookup r.value s.entries)) [
    | inl e ↦ rw (load_step, e) (refl, refl, refl, refl)
    | inr (w, e) ↦ rw (load_step, e) (refl, refl, refl, refl)
  ]

  load_loop_kept :
      (s : Set) (rs : List Record)
      → ((load_loop lib s rs).epoch ≡ s.epoch)
        × ((load_loop lib s rs).key ≡ s.key)
        × ((load_loop lib s rs).seq ≡ s.seq)
        × ((load_loop lib s rs).def ≡ s.def)
  unfolding load_loop
  load_loop_kept s [] = (refl, refl, refl, refl)
  load_loop_kept s (r ∷ rs) =
      let rest = load_loop_kept (load_step lib s r) rs in
      let one = load_step_kept s r in
      (rest.0 ∙ one.0, rest.1 ∙ one.1, rest.2 ∙ one.2, rest.3 ∙ one.3)

  pub load_kept :
      (s : Set) (rs : List Record)
      → ((load lib s rs).epoch ≡ s.epoch) × ((load lib s rs).def ≡ s.def)
  unfolding load settle
  load_kept s rs = let kept = load_loop_kept _ rs in (kept.0, kept.3)

  -- Whatever the records are and whatever the set held before, the set that Load leaves satisfies
  -- the invariant with no plan waiting: no value comes twice, and the hash is the digest of the
  -- content.
  pub load-Pipeline : (s : Set) (rs : List Record) → Pipeline (load lib s rs) []
  unfolding load xor_all
  load-Pipeline s rs =
      let start : Set = record s { hash = 0; entries = []; exp = [] } in
      let t = load_loop-Tidy start rs (tt, refl) in
      let u : Set = load_loop lib start rs in
      settle-Pipeline (record u { exp = init u.exp }) t.0 t.1

  -- Resume keeps the epoch, the key and the number that it is given, and the definition.
  pub resume_kept :
      (s : Set) (epoch : ℕ) (key : List ℕ) (seq : ℕ) (rs : List Record)
      → ((resume lib s epoch key seq rs).epoch ≡ epoch)
        × ((resume lib s epoch key seq rs).key ≡ key)
        × ((resume lib s epoch key seq rs).seq ≡ seq)
        × ((resume lib s epoch key seq rs).def ≡ s.def)
  unfolding resume load settle
  resume_kept s epoch key seq rs = load_loop_kept _ rs
