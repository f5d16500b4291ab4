-- ===== src/Keeper/Flow/Reminders.antt =====
-- The goroutines of one set in internal/keeper/keeper.go keep an item in the heap of the set for
-- every entry that ends.
use mathlib.Core.Path.{subst}
use placitum_keeper.Base.{
  zero, ℕ, ◌+◌, ◌≡◌, refl, Bool, true, not, ◌&&◌, ◌==◌, str_eq, List, [], ◌∷◌, length, All,
  All-append, map, either,
}
use placitum_keeper.Base.Int.{ℤ, pos, ◌≤ℤ◌, ltb_ℤ}
use placitum_keeper.Keeper.Committer.{commit_next, commit_batch, fail}
use placitum_keeper.Keeper.Flow.{plan_results_frame}
use placitum_keeper.Keeper.Flow.Commits.{fail_kept, publish_kept}
use placitum_keeper.Keeper.Flow.Runs.{
  Step, Reach, submitted, gathered, planned, swept, committed, here, later, Kept, enqueue_job-Kept,
  gather-Kept,
}
use placitum_keeper.Keeper.Planner.{
  Admission, is_late, admit, admit_job, admit_add, delta_for, no_admission, fresh_reads, plan_jobs,
  plan_results, zero_plan,
}
use placitum_keeper.Keeper.Types.{Options, Job, JobResult, Batch, Holder}
use placitum_keeper.Sets.Committing.{commit}
use placitum_keeper.Sets.Committing.Reminders.{IsTimed, commit-Covered}
use placitum_keeper.Sets.Expiry.Cover.{Covered, expired-Covered}
use placitum_keeper.Sets.Netip.{Library}
use placitum_keeper.Sets.Planning.{plan}
use placitum_keeper.Sets.Planning.Timed.{IsTimedPlan, plan_frame, plan-IsTimedPlan}
use placitum_keeper.Sets.State.{abort, settle}
use placitum_keeper.Sets.Types.{Set, Record, Plan, op_add}

-- No record of the job has a negative expiry.
abbrev pub IsTimedJob : Job → Type 0
IsTimedJob j = All (λ r. pos 0 ≤ℤ r.exp) j.recs

pub record Reminded (h : Holder) : Type 0 where
  pub covered : Covered h.s
  pub timed : All (λ b. IsTimedPlan b.plan) h.batches

Reminded-same : (g h : Holder) → g.s ≡ h.s → g.batches ≡ h.batches → Reminded h → Reminded g
Reminded-same g h es eb k = record { covered = rw es k.covered; timed = rw eb k.timed }

delta_for-IsTimed :
    (op : _) (rs : List Record) → All (λ r. pos 0 ≤ℤ r.exp) rs → All IsTimed (map (delta_for op) rs)
delta_for-IsTimed op [] low = tt
delta_for-IsTimed op (r ∷ rs) low = (low.0, delta_for-IsTimed op rs low.1)

abbrev Admitted : Admission → Type 0
Admitted a = All IsTimed a.deltas

admit_job-Admitted :
    (s : Set) (now : ℤ) (a : Admission) (j : Job)
    → IsTimedJob j
    → Admitted a
    → Admitted (admit_job s now a j)
unfolding admit_job admit_add
admit_job-Admitted s now a j low all =
    let more = All-append IsTimed a.deltas _ all (delta_for-IsTimed j.op j.recs low) in
    either Admitted (is_late j.deadline now) _ _ all (
      either Admitted (length j.recs == 0) _ _ all (
        either Admitted (str_eq j.op op_add && ltb_ℤ (pos 0) s.def.limit) _ _
          (either Admitted _ _ _ all more) more))

admit-Admitted :
    (reads : ℕ → Set) (now : ℤ) (a : Admission) (js : List Job)
    → All IsTimedJob js
    → Admitted a
    → Admitted (admit reads now a js)
unfolding admit
admit-Admitted reads now a [] low all = all
admit-Admitted reads now a (j ∷ js) low all =
    admit-Admitted (fresh_reads reads) now (admit_job (reads zero) now a j) js low.1
      (admit_job-Admitted (reads zero) now a j low.0 all)

Covered-same : (s t : Set) → t.entries ≡ s.entries → t.exp ≡ s.exp → Covered s → Covered t
Covered-same s t e h c = record {
  distinct = rw e c.distinct;
  heap = rw h c.heap;
  covers = rw (e, h) c.covers;
}

module _ (lib : Library) where
  plan_results-Reminded :
      (h : Holder) (now : ℤ) (p : Plan) (jobs : List Job) (rs : List JobResult)
      → IsTimedPlan p
      → Reminded h
      → Reminded (plan_results lib h now p jobs rs true)
  plan_results-Reminded h now p jobs rs low k =
      let (b, plan_is, s_is, bs_is, _) = plan_results_frame lib h now p jobs rs in
      record {
        covered = rw s_is k.covered;
        timed = rw bs_is (
            either (All (λ (c : Batch). IsTimedPlan c.plan)) (length p.deltas == 0) _ _ k.timed
              (All-append _ h.batches (b ∷ []) k.timed (rw plan_is low, tt)));
      }

  pub plan_jobs-Reminded :
      (h : Holder) (seen : ℕ → Set) (now : ℤ) (jobs : List Job)
      → All IsTimedJob jobs
      → Reminded h
      → Reminded (plan_jobs lib h seen now jobs true)
  unfolding plan_jobs
  plan_jobs-Reminded h seen now jobs low k =
      let a = admit (fresh_reads seen) now (no_admission (seen zero)) jobs in
      let all : Admitted a =
        admit-Admitted (fresh_reads seen) now (no_admission (seen zero)) jobs low tt in
      let g : Holder = record h { stats = record (h.stats) { stale = h.stats.stale + a.stale } } in
      let r = plan lib h.s a.deltas in
      either Reminded (length a.deltas == 0) _ _
        (plan_results-Reminded g now (zero_plan lib) jobs _ tt
          (record { covered = k.covered; timed = k.timed }))
        (plan_results-Reminded (record g { s = r.0 }) now r.1 jobs _
          (plan-IsTimedPlan lib h.s a.deltas all)
          (record {
            covered =
                Covered-same h.s r.0 (plan_frame lib h.s a.deltas).0 (plan_frame lib h.s a.deltas).1
                  k.covered;
            timed = k.timed;
          }))

fail-Reminded : (code : _) (h : Holder) (b : Batch) → Reminded h → Reminded (fail code h b)
fail-Reminded code h b k =
    Reminded-same (fail code h b) h (fail_kept code h b).0 (fail_kept code h b).1 k

commit_batch-Reminded :
    (opts : Options) (h : Holder) (b : Batch) (stored : Bool) (ms : ℕ)
    → IsTimedPlan b.plan
    → Reminded h
    → Reminded (commit_batch opts h b stored ms)
unfolding commit_batch abort settle
commit_batch-Reminded opts h b stored ms low k =
    let c = k.covered in
    let r = commit h.s b.plan b.at in
    either Reminded (not (b.plan.gen == h.s.gen)) _ _ (fail-Reminded _ h b k) (
      either Reminded (not stored) _ _
        (fail-Reminded _ _ b (record {
          covered = record { distinct = c.distinct; heap = c.heap; covers = c.covers };
          timed = k.timed;
        }))
        (let (es, eb) =
            publish_kept opts (record h { s = r.0; stats = record (h.stats) { store_ms = ms } }) b
              r.1 in
          record { covered = rw es (commit-Covered h.s b.plan b.at c low); timed = rw eb k.timed }))

pub commit_next-Reminded :
    (opts : Options) (h : Holder) (stored : Bool) (ms : ℕ)
    → Reminded h
    → Reminded (commit_next opts h stored ms)
unfolding commit_next
commit_next-Reminded opts h stored ms k = next h.batches refl
  where
    next :
        (bs : List Batch)
        → h.batches ≡ bs
        → Reminded (elim bs [
          | [] ↦ h
          | b ∷ rest ↦ commit_batch opts (record h { batches = rest }) b stored ms
        ])
    next [] e = k
    next (b ∷ rest) e =
        let low : All (λ (c : Batch). IsTimedPlan c.plan) (b ∷ rest) =
          subst (All (λ (c : Batch). IsTimedPlan c.plan)) e k.timed in
        commit_batch-Reminded opts (record h { batches = rest }) b stored ms low.0
          (record { covered = k.covered; timed = low.1 })

-- The records of the jobs that a step plans have no negative expiry.
unfoldable pub IsTimedStep :
    {lib : Library} {opts : Options} {h g : Holder} → Step lib opts h g → Type 0
IsTimedStep (submitted load j choice) = Unit {0}
IsTimedStep (gathered k first rest is) = Unit {0}
IsTimedStep (planned seen now jobs) = All IsTimedJob jobs
IsTimedStep (swept now) = Unit {0}
IsTimedStep (committed stored ms) = Unit {0}

unfoldable pub IsTimedRun :
    {lib : Library} {opts : Options} {start h : Holder} → Reach lib opts start h → Type 0
IsTimedRun here = Unit {0}
IsTimedRun (later r step) = IsTimedRun r × IsTimedStep step

Step-Reminded :
    (lib : Library) (opts : Options) (h g : Holder) (step : Step lib opts h g)
    → IsTimedStep step
    → Reminded h
    → Reminded g
unfolding IsTimedStep Kept
Step-Reminded lib opts h _ (submitted load j choice) low k =
    let kept = enqueue_job-Kept opts h load j choice in Reminded-same _ h kept.0 kept.1 k
Step-Reminded lib opts h _ (gathered n first rest is) low k =
    let kept = gather-Kept opts n (record h { jobs = rest }) first in
    Reminded-same _ h kept.0 kept.1 k
Step-Reminded lib opts h _ (planned seen now jobs) low k =
    plan_jobs-Reminded lib h seen now jobs low k
Step-Reminded lib opts h _ (swept now) low k = record {
  covered = expired-Covered h.s now k.covered;
  timed = k.timed;
}
Step-Reminded lib opts h _ (committed stored ms) low k = commit_next-Reminded opts h stored ms k

-- In every state that the goroutines of a set reach, in whatever order their steps come, the heap of
-- the set is in order and has an item, not later than the entry, for every entry that ends, where it
-- was so at the start and no planned record has a negative expiry.
pub Reach-Reminded :
    {lib : Library} {opts : Options} {start h : Holder} (r : Reach lib opts start h)
    → Reminded start
    → IsTimedRun r
    → Reminded h
unfolding IsTimedRun
Reach-Reminded here k low = k
Reach-Reminded (later r step) k low = Step-Reminded _ _ _ _ step low.1 (Reach-Reminded r k low.0)
