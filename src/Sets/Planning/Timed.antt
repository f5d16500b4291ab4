-- ===== src/Sets/Planning/Timed.antt =====
-- Set.Plan of internal/set/set.go makes no expiry negative, and leaves the entries and the heap alone.
use placitum_keeper.Base.{
  ℕ, ◌≡◌, not, ◌&&◌, ◌==◌, str_eq, List, [], ◌∷◌, length, arith, All, All-append, either,
}
use placitum_keeper.Base.Int.{pos, ◌≤ℤ◌}
use placitum_keeper.Sets.Committing.Reminders.{IsTimed}
use placitum_keeper.Sets.Netip.{Library}
use placitum_keeper.Sets.Planning.{
  Draft, plan, plan_loop, plan_step, plan_add, plan_remove, plan_finish, draft_of, Found3, put_over,
  plan_lookup, is_full, is_flight, same_fields,
}
use placitum_keeper.Sets.Types.{Set, Record, Delta, Plan, op_add, op_remove}

abbrev pub IsTimedPlan : Plan → Type 0
IsTimedPlan p = All IsTimed p.deltas

abbrev Applied : Draft → Type 0
Applied d = All IsTimed d.applied

module _ (lib : Library) where
  plan_add-Applied :
      (s : Set) (f : Found3) (r : Record) (d : Draft)
      → pos 0 ≤ℤ r.exp
      → Applied d
      → Applied (plan_add lib s f r d)
  unfolding plan_add
  plan_add-Applied s f r d low all =
      let more : (h : ℕ) → Applied (put_over r h d) =
        λ h. All-append IsTimed d.applied _ all (low, tt) in
      either Applied (not f.exists) _ _
        (either Applied (is_full s.def.limit d.size) _ _ all (more _))
        (either Applied (not (is_flight f.from) && same_fields f.e r) _ _ all (more _))

  plan_remove-Applied :
      (f : Found3) (r : Record) (d : Draft) → Applied d → Applied (plan_remove f r d)
  unfolding plan_remove
  plan_remove-Applied f r d all =
      either Applied (not f.exists) _ _ all (All-append IsTimed d.applied _ all (omega arith, tt))

  plan_step-Applied :
      (s : Set) (d : Draft) (x : Delta) → IsTimed x → Applied d → Applied (plan_step lib s d x)
  unfolding plan_step
  plan_step-Applied s d x low all =
      let f = plan_lookup s d.over x.rec.value in
      either Applied (str_eq x.op op_add) _ _ (plan_add-Applied s f x.rec d low all)
        (either Applied (str_eq x.op op_remove) _ _ (plan_remove-Applied f x.rec d all) all)

  plan_loop-Applied :
      (s : Set) (d : Draft) (ds : List Delta)
      → All IsTimed ds
      → Applied d
      → Applied (plan_loop lib s d ds)
  unfolding plan_loop
  plan_loop-Applied s d [] low all = all
  plan_loop-Applied s d (x ∷ ds) low all =
      plan_loop-Applied s (plan_step lib s d x) ds low.1 (plan_step-Applied s d x low.0 all)

  pub plan_frame :
      (s : Set) (ds : List Delta)
      → ((plan lib s ds).0.entries ≡ s.entries) × ((plan lib s ds).0.exp ≡ s.exp)
  unfolding plan plan_finish
  plan_frame s ds = ground arith

  pub plan-IsTimedPlan :
      (s : Set) (ds : List Delta) → All IsTimed ds → IsTimedPlan (plan lib s ds).1
  unfolding plan plan_finish
  plan-IsTimedPlan s ds low =
      let d = plan_loop lib s (draft_of s) ds in
      either (λ (r : Set × Plan). IsTimedPlan r.1) (length d.applied == 0) _ _ tt
        (plan_loop-Applied s (draft_of s) ds low tt)
