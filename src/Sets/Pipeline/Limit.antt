-- ===== src/Sets/Pipeline/Limit.antt =====
-- The limit of a set through Plan in internal/set/set.go.
use placitum_keeper.Base.{
  ℕ, ◌<◌, ◌≤◌, ◌≡◌, sym, str_eq, List, [], ◌∷◌, length, arith, inl, inr, Bool-cases, Option-cases,
}
use placitum_keeper.Base.Int.{pos}
use placitum_keeper.Base.Maps.{
  lookup, erase, length-insert_new, length-insert_old, length-erase, erase_absent,
}
use placitum_keeper.Sets.Ideal.{Ideal, ideal_add, ideal_step, ideal_run, replay}
use placitum_keeper.Sets.Netip.{Library}
use placitum_keeper.Sets.Pipeline.{Pipeline, replay_plans}
use placitum_keeper.Sets.Pipeline.Enqueue.{plan-ideal}
use placitum_keeper.Sets.Planning.{plan, entry_of, is_full}
use placitum_keeper.Sets.State.{hash_of}
use placitum_keeper.Sets.Types.{Set, Plan, Delta, Record, op_add, op_remove}
use mathlib.Core.Path.{subst}

module _ (hash : Record → ℕ) (limit : ℕ) (positive : 0 < limit) where
  ideal_add_limit :
      (r : Record) (i : Ideal)
      → length i.content ≤ limit
      → length (ideal_add hash (pos limit) r (lookup r.value i.content) i).content ≤ limit
  unfolding ideal_add
  ideal_add_limit r i fits = elim (Option-cases (lookup r.value i.content)) [
    | inr (e, known) ↦
        rw known (rw (length-insert_old r.value (entry_of r e.hash) i.content e known) fits)
    | inl new ↦ rw new (elim (Bool-cases (is_full (pos limit) (pos (length i.content)))) [
      | inl full ↦ rw full fits
      | inr room ↦
          rw room
            (rw (length-insert_new r.value (entry_of r (hash r)) i.content new) (ground arith))
    ])
  ]

  erase_limit :
      (r : Record) (i : Ideal) → length i.content ≤ limit → length (erase r.value i.content) ≤ limit
  erase_limit r i fits = elim (Option-cases (lookup r.value i.content)) [
    | inl new ↦ rw (erase_absent r.value i.content new) fits
    | inr (e, known) ↦ omega (arith, length-erase r.value i.content e known)
  ]

  ideal_step_limit :
      (i : Ideal) (d : Delta)
      → length i.content ≤ limit
      → length (ideal_step hash (pos limit) i d).content ≤ limit
  unfolding ideal_step
  ideal_step_limit i d fits = elim (Bool-cases (str_eq d.op op_add)) [
    | inl e ↦ rw e (ideal_add_limit d.rec i fits)
    | inr e ↦ rw e (elim (Bool-cases (str_eq d.op op_remove)) [
      | inl f ↦ rw f (erase_limit d.rec i fits)
      | inr f ↦ rw f fits
    ])
  ]

  ideal_run_limit :
      (i : Ideal) (ds : List Delta)
      → length i.content ≤ limit
      → length (ideal_run hash (pos limit) i ds).content ≤ limit
  unfolding ideal_run
  ideal_run_limit i [] fits = fits
  ideal_run_limit i (d ∷ ds) fits =
      ideal_run_limit (ideal_step hash (pos limit) i d) ds (ideal_step_limit i d fits)

-- Set.Plan never takes a set with a positive limit above it: on a set that satisfies the
-- invariant, where the content with all the waiting plans committed is within the limit, so is the
-- content with the new plan committed as well, whatever the deltas are.
pub plan_limit :
    (lib : Library) (s : Set) (q : List Plan) (limit : ℕ) (ds : List Delta)
    → Pipeline s q
    → s.def.limit ≡ pos limit
    → 0 < limit
    → length (replay_plans s.entries q) ≤ limit
    → length (replay (replay_plans s.entries q) (plan lib s ds).1.deltas) ≤ limit
plan_limit lib s q limit ds inv is positive fits =
    let start : Ideal = record { content = replay_plans s.entries q; rejected = [] } in
    rw (plan-ideal s q inv lib ds).0 (
      subst (λ n. length (ideal_run (hash_of lib s) n start ds).content ≤ limit) (sym is)
        (ideal_run_limit (hash_of lib s) limit positive start ds fits))
