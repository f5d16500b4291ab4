-- ===== src/Sets/Planning/Loop.antt =====
-- The loop of Plan over a batch keeps the description and does what the specification does.
use placitum_keeper.Base.{
  ℕ, ◌≡◌, refl, sym, ap, ◌∙◌, true, false, not, ◌&&◌, Option, some, none, str_eq, str_eq_iff, List,
  [], ◌∷◌, arith, inl, inr, Bool-cases,
}
use placitum_keeper.Base.Int.{pos, eqb_ℤ_iff}
use placitum_keeper.Base.Maps.{Map, lookup, insert, erase, insert_same, erase_absent}
use placitum_keeper.Sets.Ideal.{
  Ideal, ideal_add, ideal_add_full, ideal_add_room, ideal_step, ideal_run, replay, add_of,
  apply_delta-add, apply_delta-remove, replay-snoc,
}
use placitum_keeper.Sets.Netip.{Library}
use placitum_keeper.Sets.Planning.{
  Draft, Found3, plan_lookup, put_over, plan_add, plan_remove, plan_step, plan_loop, entry_of,
  same_fields, is_full, is_flight,
}
use placitum_keeper.Sets.Planning.Overlay.{Describes, seen}
use placitum_keeper.Sets.Planning.Steps.{add_new, add_old, remove_old}
use placitum_keeper.Sets.State.{hash_of}
use placitum_keeper.Sets.Types.{Set, Entry, Record, Delta, op_add, op_remove}

abbrev pub ideal_of : Map Entry → Draft → Ideal
ideal_of w d = record { content = replay w d.applied; rejected = d.rejected }

same_fields_lem : (e : Entry) (r : Record) → same_fields e r ≡ true → e ≡ entry_of r e.hash
same_fields_lem e r h =
    ground
      (arith, eqb_ℤ_iff e.exp r.exp, str_eq_iff e.origin r.origin, str_eq_iff e.reason r.reason)

not-exists : (f : Found3) (o : Option Entry) → seen f ≡ o → f.exists ≡ false → o ≡ none
not-exists f o h e = ground arith

exists : (f : Found3) (o : Option Entry) → seen f ≡ o → f.exists ≡ true → o ≡ some f.e
exists f o h e = ground arith

replay-put :
    (w : Map Entry) (r : Record) (h : ℕ) (d : Draft)
    → replay w (put_over r h d).applied ≡ insert r.value (entry_of r h) (replay w d.applied)
replay-put w r h d = replay-snoc w d.applied (add_of r h) ∙ apply_delta-add (replay w d.applied) r h

module _ (lib : Library) (s : Set) (w : Map Entry) (d : Draft) (inv : Describes s w d) (r : Record)
    (f : Found3) (h : seen f ≡ lookup r.value (replay w d.applied)) where
  plan_add-Describes : Describes s w (plan_add lib s f r d)
  unfolding plan_add
  plan_add-Describes = elim (Bool-cases f.exists) [
    | inr e ↦ rw e (elim (Bool-cases (is_full s.def.limit d.size)) [
      | inl full ↦ rw full (record {
        view = inv.view;
        size = inv.size;
        hash = inv.hash;
        distinct = inv.distinct;
        settled = inv.settled;
        touched = inv.touched;
      })
      | inr room ↦ rw room (add_new s w d inv r (hash_of lib s r) (not-exists f _ h e))
    ])
    | inl e ↦ rw e (elim (Bool-cases (not (is_flight f.from) && same_fields f.e r)) [
      | inl same ↦ rw same inv
      | inr other ↦ rw other (add_old s w d inv r f.e (exists f _ h e))
    ])
  ]

  plan_remove-Describes : Describes s w (plan_remove f r d)
  unfolding plan_remove
  plan_remove-Describes = elim (Bool-cases f.exists) [
    | inr e ↦ rw e inv
    | inl e ↦ rw e (remove_old s w d inv r f.e (exists f _ h e))
  ]

  plan_add-ideal :
      ideal_of w (plan_add lib s f r d)
      ≡ ideal_add (hash_of lib s) s.def.limit r (lookup r.value (replay w d.applied)) (ideal_of w d)
  unfolding plan_add ideal_add
  plan_add-ideal = elim (Bool-cases f.exists) [
    | inr e ↦
        rw (e, not-exists f _ h e)
          (elim (Bool-cases (is_full s.def.limit d.size)) [
            | inl full ↦ rw full (
                sym (
                  ideal_add_full (hash_of lib s) s.def.limit r (ideal_of w d)
                    (ap (is_full s.def.limit) (sym inv.size) ∙ full)))
            | inr room ↦ rw room (
                ap (λ c. record { content = c; rejected = d.rejected })
                  (replay-put w r (hash_of lib s r) d)
                ∙ sym (
                    ideal_add_room (hash_of lib s) s.def.limit r (ideal_of w d)
                      (ap (is_full s.def.limit) (sym inv.size) ∙ room)))
          ])
    | inl e ↦
        rw (e, exists f _ h e)
          (elim (Bool-cases (not (is_flight f.from) && same_fields f.e r)) [
            | inl same ↦ rw same (
                ap (λ c. record { content = c; rejected = d.rejected })
                  (sym (
                    insert_same r.value (entry_of r f.e.hash) (replay w d.applied)
                      (exists f _ h e ∙ ap some (same_fields_lem f.e r (ground arith))))))
            | inr other ↦ rw other (
                ap (λ c. record { content = c; rejected = d.rejected }) (replay-put w r f.e.hash d))
          ])
  ]

  plan_remove-ideal :
      ideal_of w (plan_remove f r d)
      ≡ record { content = erase r.value (replay w d.applied); rejected = d.rejected }
  unfolding plan_remove
  plan_remove-ideal = elim (Bool-cases f.exists) [
    | inr e ↦ rw e (
        ap (λ c. record { content = c; rejected = d.rejected })
          (sym (erase_absent r.value (replay w d.applied) (not-exists f _ h e))))
    | inl e ↦ rw e (
        ap (λ c. record { content = c; rejected = d.rejected })
          (replay-snoc w d.applied _
            ∙ apply_delta-remove (replay w d.applied) (record r { exp = pos 0 }) f.e.hash))
  ]

-- One delta.
module _ (lib : Library) (s : Set) (w : Map Entry) where
  pub plan_step-Describes :
      (d : Draft) (x : Delta) → Describes s w d → Describes s w (plan_step lib s d x)
  unfolding plan_step
  plan_step-Describes d x inv = elim (Bool-cases (str_eq x.op op_add)) [
    | inl e ↦ rw e (
        plan_add-Describes lib s w d inv x.rec (plan_lookup s d.over x.rec.value)
          (inv.view x.rec.value))
    | inr e ↦ rw e (elim (Bool-cases (str_eq x.op op_remove)) [
      | inl f ↦ rw f (
          plan_remove-Describes lib s w d inv x.rec (plan_lookup s d.over x.rec.value)
            (inv.view x.rec.value))
      | inr f ↦ rw f inv
    ])
  ]

  pub plan_step-ideal :
      (d : Draft) (x : Delta)
      → Describes s w d
      → ideal_of w (plan_step lib s d x) ≡ ideal_step (hash_of lib s) s.def.limit (ideal_of w d) x
  unfolding plan_step ideal_step
  plan_step-ideal d x inv = elim (Bool-cases (str_eq x.op op_add)) [
    | inl e ↦ rw e (
        plan_add-ideal lib s w d inv x.rec (plan_lookup s d.over x.rec.value)
          (inv.view x.rec.value))
    | inr e ↦ rw e (elim (Bool-cases (str_eq x.op op_remove)) [
      | inl f ↦ rw f (
          plan_remove-ideal lib s w d inv x.rec (plan_lookup s d.over x.rec.value)
            (inv.view x.rec.value))
      | inr f ↦ rw f
    ])
  ]

  pub plan_loop-Describes :
      (xs : List Delta) (d : Draft) → Describes s w d → Describes s w (plan_loop lib s d xs)
  unfolding plan_loop
  plan_loop-Describes [] d inv = inv
  plan_loop-Describes (x ∷ xs) d inv =
      plan_loop-Describes xs (plan_step lib s d x) (plan_step-Describes d x inv)

  pub plan_loop-ideal :
      (xs : List Delta) (d : Draft)
      → Describes s w d
      → ideal_of w (plan_loop lib s d xs) ≡ ideal_run (hash_of lib s) s.def.limit (ideal_of w d) xs
  unfolding plan_loop ideal_run
  plan_loop-ideal [] d inv = refl
  plan_loop-ideal (x ∷ xs) d inv =
      plan_loop-ideal xs (plan_step lib s d x) (plan_step-Describes d x inv)
      ∙ ap (λ i. ideal_run (hash_of lib s) s.def.limit i xs) (plan_step-ideal d x inv)
