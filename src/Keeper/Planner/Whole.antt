-- ===== src/Keeper/Planner/Whole.antt =====
-- The admission of plan in internal/keeper/keeper.go against the limit that Plan of
-- internal/set/set.go keeps to.
use placitum_keeper.Base.{
  ℕ, ◌+◌, ◌≤◌, ◌<◌, ◌≡◌, refl, ap, ◌∙◌, true, ◌==◌, Str, str_eq, List, [], ◌∷◌, length, map, arith,
  inl, inr, Bool-cases, either,
}
use placitum_keeper.Base.Int.{ℤ, pos, pos_part, ◌+ℤ◌, add_pos, ltb_ℤ}
use placitum_keeper.Base.Maps.{Map, Distinct}
use placitum_keeper.Base.Maps.Keys.{has_key}
use placitum_keeper.Keeper.Planner.{
  Admission, admit, admit_job, admit_add, delta_for, value_of, no_admission, always, is_late,
}
use placitum_keeper.Keeper.Planner.Room.{
  Noted, note_all, note_all-Noted, note_all_kept, note_all-Distinct, note_all_records,
  length-note_all,
}
use placitum_keeper.Keeper.Types.{Job}
use placitum_keeper.Sets.Ideal.{Ideal, ideal_run}
use placitum_keeper.Sets.Netip.{Library}
use placitum_keeper.Sets.Pipeline.{Pipeline, replay_plans, replay_plans-Distinct}
use placitum_keeper.Sets.Pipeline.Enqueue.{plan-ideal}
use placitum_keeper.Sets.Planning.{plan}
use placitum_keeper.Sets.State.{hash_of, fresh}
use placitum_keeper.Sets.Types.{Set, Entry, Record, Delta, Plan, op_add}
use placitum_keeper.Keeper.Planner.Fitting.{
  Within, run_adds, run_others, ideal_run-append, ideal_run_unlimited,
}

module _ (hash : Record → ℕ) (limit : ℕ) (positive : 0 < limit) (s : Set)
    (is : s.def.limit ≡ pos limit) (start : Ideal) where
  abbrev run : List Delta → Ideal
  run = ideal_run hash (pos limit) start

  -- The size that the admission has counted bounds the keys of a map that has every planned value.
  record Fits (a : Admission) : Type 0 where
    n : ℕ
    g : Map Entry
    size : a.size ≡ pos n
    bounds : length g ≤ n
    unique : Distinct g
    noted : Noted s a.seen g
    within : Within (run a.deltas) g

  admit_add-Fits :
      (j : Job) (a : Admission) → str_eq j.op op_add ≡ true → Fits a → Fits (admit_add s j a)
  unfolding admit_add
  admit_add-Fits j a add f =
      let values = map value_of j.recs in
      let more = fresh s values a.seen in
      elim (Bool-cases (ltb_ℤ s.def.limit (a.size +ℤ pos more))) [
        | inl e ↦ rw e (record {
          n = f.n;
          g = f.g;
          size = f.size;
          bounds = f.bounds;
          unique = f.unique;
          noted = f.noted;
          within = f.within;
        })
        | inr e ↦
            let sum : a.size +ℤ pos more ≡ pos (f.n + more) =
              ap (λ x. x +ℤ pos more) f.size ∙ add_pos f.n more in
            let grown = length-note_all s a.seen values f.g f.noted in
            let g' = note_all values f.g in
            let u = note_all-Distinct values f.g f.unique in
            rw e (record {
              n = f.n + more;
              g = g';
              size = sum;
              bounds = omega (arith, f.bounds, grown);
              unique = u;
              noted = note_all-Noted s a.seen values f.g f.noted;
              within =
                  rw
                    (ideal_run-append hash (pos limit) start a.deltas (map (delta_for j.op) j.recs))
                    (run_adds hash limit positive g' u j.op j.recs (run a.deltas) add
                      (ground (arith, is, sum, grown, f.bounds)) (note_all_records j.recs f.g)
                      (record {
                        distinct = f.within.distinct;
                        keys = λ k h. note_all_kept values f.g k (f.within.keys k h);
                        whole = f.within.whole;
                      }));
            })
      ]

  admit_job-Fits : (now : ℤ) (a : Admission) (j : Job) → Fits a → Fits (admit_job s now a j)
  unfolding admit_job
  admit_job-Fits now a j f = either Fits (is_late j.deadline now) _ _ kept (
      either Fits (length j.recs == 0) _ _ kept (elim (Bool-cases (str_eq j.op op_add)) [
        | inl e ↦ rw (e, limited) (admit_add-Fits j a e f)
        | inr e ↦ rw e (record {
          n = f.n;
          g = f.g;
          size = f.size;
          bounds = f.bounds;
          unique = f.unique;
          noted = f.noted;
          within =
              rw (ideal_run-append hash (pos limit) start a.deltas (map (delta_for j.op) j.recs))
                (run_others hash limit positive f.g f.unique j.op j.recs (run a.deltas) e f.within);
        })
      ]))
    where
      limited : ltb_ℤ (pos 0) s.def.limit ≡ true
      limited = ground (arith, is)

      kept : {codes : List Str} {stale : ℕ} → Fits (record a { codes = codes; stale = stale })
      kept = record {
        n = f.n;
        g = f.g;
        size = f.size;
        bounds = f.bounds;
        unique = f.unique;
        noted = f.noted;
        within = f.within;
      }

  admit-Fits : (now : ℤ) (a : Admission) (js : List Job) → Fits a → Fits (admit (always s) now a js)
  unfolding admit
  admit-Fits now a [] f = f
  admit-Fits now a (j ∷ js) f = admit-Fits now (admit_job s now a j) js (admit_job-Fits now a j f)

module _ (lib : Library) (s : Set) (q : List Plan) (inv : Pipeline s q) where
  abbrev planned_now : Ideal
  planned_now = record { content = replay_plans s.entries q; rejected = [] }

  start-Fits :
      (limit : ℕ) (positive : 0 < limit) (is : s.def.limit ≡ pos limit)
      → Fits (hash_of lib s) limit positive s is planned_now (no_admission s)
  unfolding ideal_run has_key
  start-Fits limit positive is = record {
    n = length (replay_plans s.entries q);
    g = replay_plans s.entries q;
    size = inv.size;
    bounds = omega arith;
    unique = replay_plans-Distinct s.entries q inv.distinct;
    noted = record {
      known = λ v h. ground (arith, inv.view v);
      counted = λ v h. absurd (ground arith);
    };
    within = record {
      distinct = replay_plans-Distinct s.entries q inv.distinct;
      keys = λ k h. h;
      whole = refl;
    };
  }

  -- On a set that satisfies the invariant with its waiting plans: Plan rejects no record of the jobs
  -- that were admitted, in whatever order adds and removals of the same values come among them, where
  -- it runs on the set that the admission has read.
  pub admitted_whole :
      (now : ℤ) (jobs : List Job)
      → (plan lib s (admit (always s) now (no_admission s) jobs).deltas).1.rejected ≡ []
  admitted_whole now jobs =
      let a = admit (always s) now (no_admission s) jobs in
      (plan-ideal s q inv lib a.deltas).1 ∙ elim (Bool-cases (ltb_ℤ (pos 0) s.def.limit)) [
        | inr e ↦ ideal_run_unlimited (hash_of lib s) s.def.limit planned_now a.deltas e
        | inl e ↦
            let limit = pos_part s.def.limit in
            let is : s.def.limit ≡ pos limit = ground arith in
            let f =
              admit-Fits (hash_of lib s) limit (ground arith) s is planned_now now (no_admission s)
                jobs (start-Fits limit (ground arith) is) in
            ap (λ l. (ideal_run (hash_of lib s) l planned_now a.deltas).rejected) is
            ∙ f.within.whole
      ]
