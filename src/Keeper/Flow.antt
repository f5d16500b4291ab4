-- ===== src/Keeper/Flow.antt =====
-- The planner and the committer of one set as steps, in any order, in internal/keeper/keeper.go.
pub mod Commits
pub mod Mounted
pub mod Names
pub mod Defined
pub mod Reloaded
pub mod Runs
pub mod Reminders
pub mod Adds
pub mod Accepted
pub mod Found
use placitum_keeper.Base.{
  ℕ, zero, suc, ◌+◌, ◌^◌, ◌≤◌, ◌<◌, ◌%◌, ◌≡◌, ◌≢◌, refl, sym, ap, ◌∙◌, Bool, true, false, not,
  Option, some, none, if◌then◌else◌, ◌==◌, ==_iff, List, [], ◌∷◌, ◌++◌, length, arith, inl, inr,
  Bool-cases, All, All-append, map,
}
use placitum_keeper.Base.Int.{ℤ}
use placitum_keeper.Keeper.Committer.{commit_next, commit_batch, fail}
use placitum_keeper.Keeper.Planner.{
  admit, no_admission, fresh_reads, always, answer, answer_all, plan_jobs, plan_results,
  split_results, results_for, batch_for, zero_plan, pack,
}
use placitum_keeper.Keeper.Types.{Options, Job, JobResult, Batch, Holder}
use placitum_keeper.Sets.Committing.{commit}
use placitum_keeper.Sets.Expiry.{expired}
use placitum_keeper.Sets.Ideal.{replay, digest}
use placitum_keeper.Sets.Netip.{Library}
use placitum_keeper.Sets.Pipeline.{Pipeline}
use placitum_keeper.Sets.Pipeline.Dequeue.{commit-Pipeline, abort-Pipeline}
use placitum_keeper.Sets.Pipeline.Enqueue.{enqueue, plan-Pipeline}
use placitum_keeper.Sets.Planning.{plan, plan_finish}
use placitum_keeper.Sets.State.{lookup_value, abort, settle}
use placitum_keeper.Store.Meta.{diff_key}
use placitum_keeper.Sets.Types.{Set, Plan, Delta, Change}

-- The plans of the waiting batches that Commit will not turn away.
abbrev pub current : ℕ → List Batch → List Plan
current gen [] = []
current gen (b ∷ bs) = if b.plan.gen == gen then b.plan ∷ current gen bs else current gen bs

abbrev pub IsOld : ℕ → Batch → Type 0
IsOld gen b = b.plan.gen ≤ gen

pub record Sound (h : Holder) : Type 0 where
  pub pipeline : Pipeline h.s (current h.s.gen h.batches)
  pub old : All (IsOld h.s.gen) h.batches

pub current-append :
    (gen : ℕ) (bs cs : List Batch) → current gen (bs ++ cs) ≡ current gen bs ++ current gen cs
current-append gen [] cs = refl
current-append gen (b ∷ bs) cs = ground (arith, current-append gen bs cs)

-- After an abort no older batch is current.
pub current-none : (gen : ℕ) (bs : List Batch) → All (IsOld gen) bs → current (suc gen) bs ≡ []
current-none gen [] h = refl
current-none gen (b ∷ bs) h = ground (arith, current-none gen bs h.1)

IsOld-next : (gen : ℕ) (bs : List Batch) → All (IsOld gen) bs → All (IsOld (suc gen)) bs
IsOld-next gen [] h = tt
IsOld-next gen (b ∷ bs) h = (omega arith, IsOld-next gen bs h.1)

-- Answers change neither the set nor the waiting batches.
answer_kept :
    (h : Holder) (j : Job) (r : JobResult) (epoch : ℕ)
    → ((answer h j r epoch).s ≡ h.s) × ((answer h j r epoch).batches ≡ h.batches)
unfolding answer
answer_kept h j r epoch = ground arith

pub answer_all_kept :
    (h : Holder) (js : List Job) (rs : List JobResult) (epoch : ℕ)
    → ((answer_all h js rs epoch).s ≡ h.s) × ((answer_all h js rs epoch).batches ≡ h.batches)
unfolding answer_all
answer_all_kept h [] rs epoch = (refl, refl)
answer_all_kept h (j ∷ js) [] epoch = (refl, refl)
answer_all_kept h (j ∷ js) (r ∷ rs) epoch =
    let (s1, b1) = answer_kept h j r epoch in
    let (s2, b2) = answer_all_kept (answer h j r epoch) js rs epoch in (s2 ∙ s1, b2 ∙ b1)

-- Soundness looks at the set and the waiting batches only.
pub Sound-same : (g h : Holder) → g.s ≡ h.s → g.batches ≡ h.batches → Sound h → Sound g
Sound-same g h es eb k = record { pipeline = rw (es, eb) k.pipeline; old = rw (es, eb) k.old }

module _ (lib : Library) where
  -- A plan that writes something is the last of the batches; the rest is answers.
  pub plan_results_frame :
      (h : Holder) (now : ℤ) (p : Plan) (jobs : List Job) (rs : List JobResult)
      → (b : Batch) × (b.plan ≡ p)
        × ((plan_results lib h now p jobs rs true).s ≡ h.s)
        × ((plan_results lib h now p jobs rs true).batches
            ≡ (if length p.deltas == 0 then h.batches else h.batches ++ (b ∷ [])))
        × (b.pkg_key ≡ diff_key h.s.def.name p.seq)
  unfolding plan_results pack
  plan_results_frame h now p jobs rs =
      let parts = split_results jobs rs in
      let g = answer_all h parts.1.0 parts.1.1 h.s.epoch in
      let all = answer_all_kept h jobs rs h.s.epoch in
      let some_kept = answer_all_kept h parts.1.0 parts.1.1 h.s.epoch in
      (
        batch_for lib h.s now p parts.0,
        refl,
        ground (arith, all.0, some_kept.0),
        ground (arith, all.1, some_kept.1),
        refl,
      )

  pub plan_gen :
      (s : Set) (ds : List Delta)
      → ((plan lib s ds).0.gen ≡ s.gen) × ((plan lib s ds).1.gen ≡ s.gen)
  unfolding plan plan_finish
  plan_gen s ds = ground arith

  -- `h` has the set after Plan, and `q` waited before.
  plan_results-Sound :
      (h : Holder) (now : ℤ) (p : Plan) (jobs : List Job) (rs : List JobResult)
      → Pipeline h.s (enqueue (current h.s.gen h.batches) p)
      → All (IsOld h.s.gen) h.batches
      → p.gen ≡ h.s.gen
      → Sound (plan_results lib h now p jobs rs true)
  plan_results-Sound h now p jobs rs pipe old gen =
      let (b, plan_is, s_is, bs_is, _) = plan_results_frame h now p jobs rs in
      elim (Bool-cases (length p.deltas == 0)) [
        | inl e ↦ Sound-same _ h s_is (bs_is ∙ rw e) (record { pipeline = rw e at pipe; old = old })
        | inr e ↦
            let g : Holder = record h { batches = h.batches ++ (b ∷ []) } in
            let same : current h.s.gen (h.batches ++ (b ∷ []))
                ≡ current h.s.gen h.batches ++ (p ∷ []) =
              current-append h.s.gen h.batches (b ∷ [])
              ∙ ap (λ c. current h.s.gen h.batches ++ c) (ground arith) in
            Sound-same _ g s_is (bs_is ∙ rw e) (record {
              pipeline = rw same (rw e at pipe);
              old =
                  All-append (IsOld h.s.gen) h.batches (b ∷ []) old
                    (omega (arith, ap (λ (q : Plan). q.gen) plan_is), tt);
            })
      ]

  -- The planner keeps the set and its waiting batches in step, on any jobs and with the admission
  -- read from any set, while the number of the plan does not wrap.
  pub plan_jobs-Sound :
      (h : Holder) (seen : ℕ → Set) (now : ℤ) (jobs : List Job)
      → Sound h
      → h.s.pend_seq + 1 < 2 ^ 64
      → Sound (plan_jobs lib h seen now jobs true)
  unfolding plan_jobs
  plan_jobs-Sound h seen now jobs k room =
      let a = admit (fresh_reads seen) now (no_admission (seen zero)) jobs in
      let g : Holder = record h { stats = record (h.stats) { stale = h.stats.stale + a.stale } } in
      let r = plan lib h.s a.deltas in
      elim (Bool-cases (length a.deltas == 0)) [
        | inl e ↦ rw e (
            let (b, plan_is, s_is, bs_is, _) =
              plan_results_frame g now (zero_plan lib) jobs
                (results_for (zero_plan lib) jobs a.codes) in
            Sound-same _ g s_is bs_is (record { pipeline = k.pipeline; old = k.old }))
        | inr e ↦ rw e (
            plan_results-Sound (record g { s = r.0 }) now r.1 jobs (results_for r.1 jobs a.codes)
              (rw (plan_gen h.s a.deltas).0
                (plan-Pipeline h.s (current h.s.gen h.batches) k.pipeline lib a.deltas room))
              (rw (plan_gen h.s a.deltas).0 k.old)
              ((plan_gen h.s a.deltas).1 ∙ sym (plan_gen h.s a.deltas).0))
      ]

-- Expired keeps the invariant of the set and its waiting plans.
pub expired-Pipeline :
    (s : Set) (q : List Plan) (now : ℤ) → Pipeline s q → Pipeline (expired s now).0 q
unfolding expired lookup_value
expired-Pipeline s q now inv = record {
  distinct = inv.distinct;
  distinct_pend = inv.distinct_pend;
  hash = inv.hash;
  view = inv.view;
  size = inv.size;
  pend_hash = inv.pend_hash;
  seq = inv.seq;
  order = inv.order;
  owners = inv.owners;
}
