-- ===== src/Keeper/Queue.antt =====
-- The count of the waiting records, in take and gather of internal/keeper/keeper.go.
pub mod Race
use placitum_keeper.Base.{
  ℕ, zero, suc, ◌+◌, ◌≡◌, refl, sym, ap, ◌∙◌, false, List, [], ◌∷◌, ◌++◌, length, arith, inl, inr,
  Bool-cases,
}
use placitum_keeper.Base.Int.{ℤ, pos, ◌+ℤ◌, ltb_ℤ, ◌≤ℤ◌, neg_of, add_pos, add_neg_of}
use native.Mathlib.Nat.{add_comm}
use placitum_keeper.Keeper.Planner.{take_job, gather_loop, gather}
use placitum_keeper.Keeper.Submit.{add_queued}
use placitum_keeper.Keeper.Types.{Options, Job, Holder}

-- The records of the jobs in the channel.
unfoldable pub waiting : List Job → ℕ
waiting [] = 0
waiting (j ∷ js) = length j.recs + waiting js

pub waiting-append : (js ks : List Job) → waiting (js ++ ks) ≡ waiting js + waiting ks
unfolding waiting
waiting-append [] ks = omega arith
waiting-append (x ∷ js) ks = omega (arith, waiting-append js ks)

-- What came back from the channel is counted off.
pub undone :
    (h : Holder) (n : ℕ)
    → h.queued ≡ pos (waiting h.jobs)
    → (add_queued (add_queued h (pos n)) (neg_of n)).queued ≡ h.queued
undone h n e =
    rw (e, add_pos (waiting h.jobs) n, add_comm (waiting h.jobs) n) (add_neg_of (waiting h.jobs) n)

abbrev IsExact : Holder → Type 0
IsExact h = h.queued ≡ pos (waiting h.jobs)

pub take_job-exact :
    (h : Holder) (j : Job) (jobs : List Job)
    → h.queued ≡ pos (waiting (j ∷ jobs))
    → (take_job h j).queued ≡ pos (waiting jobs)
unfolding take_job waiting
take_job-exact h j jobs c = rw c (add_neg_of (waiting jobs) (length j.recs))

gather_loop-IsExact :
    (batch_max : ℤ) (k n : ℕ) (h : Holder) (jobs : List Job)
    → h.jobs ≡ jobs
    → h.queued ≡ pos (waiting jobs)
    → IsExact (gather_loop batch_max k n h jobs).0
unfolding gather_loop take_job
gather_loop-IsExact batch_max zero n h jobs e c = c ∙ ap (λ js. pos (waiting js)) (sym e)
gather_loop-IsExact batch_max (suc k) n h [] e c = c
gather_loop-IsExact batch_max (suc k) n h (j ∷ jobs) e c =
    elim (Bool-cases (ltb_ℤ (pos n) batch_max)) [
      | inr f ↦ rw f (c ∙ ap (λ js. pos (waiting js)) (sym e))
      | inl f ↦ rw f (
          gather_loop-IsExact batch_max k (n + length j.recs)
            (take_job (record h { jobs = jobs }) j) jobs refl
            (take_job-exact (record h { jobs = jobs }) j jobs c))
    ]

-- Where the counter was exact before the planner received a job from the channel, it is exact
-- after the planner has gathered a batch that starts with this job.
pub gather-IsExact :
    (opts : Options) (k : ℕ) (h : Holder) (first : Job) (rest : List Job)
    → h.queued ≡ pos (waiting (first ∷ rest))
    → IsExact (gather opts k (record h { jobs = rest }) first).0
unfolding gather
gather-IsExact opts k h first rest c =
    gather_loop-IsExact opts.batch_max k (length first.recs)
      (take_job (record h { jobs = rest }) first) _ refl
      (take_job-exact (record h { jobs = rest }) first rest c)
