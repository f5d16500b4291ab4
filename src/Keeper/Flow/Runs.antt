-- ===== src/Keeper/Flow/Runs.antt =====
-- The goroutines of one set in internal/keeper/keeper.go as steps, which come in any order: senders
-- that offer jobs, the planner that gathers and plans them and looks for what is over, and the
-- committer.
use placitum_keeper.Base.{
  ℕ, zero, suc, ◌+◌, ◌^◌, ◌<◌, ◌≡◌, refl, Bool, true, List, [], ◌∷◌, length, inl, inr, Bool-cases,
}
use placitum_keeper.Base.Int.{ℤ, pos, ltb_ℤ}
use placitum_keeper.Keeper.Committer.{commit_next}
use placitum_keeper.Keeper.Flow.{Sound, Sound-same, plan_jobs-Sound, expired-Pipeline}
use placitum_keeper.Keeper.Flow.Commits.{commit_next-Sound}
use placitum_keeper.Keeper.Planner.{plan_jobs, gather, gather_loop, take_job}
use placitum_keeper.Keeper.Submit.{
  Offer, accepted, cancelled, stopping, is_overloaded, enqueue_job, offer_job,
}
use placitum_keeper.Keeper.Types.{Options, Job, Holder}
use placitum_keeper.Sets.Expiry.{expired}
use placitum_keeper.Sets.Netip.{Library}
use placitum_keeper.Sets.Types.{Set}

pub data Step (lib : Library) (opts : Options) (h : Holder) : Holder → Type 0 where
  submitted :
      (load : ℤ) (j : Job) (choice : Offer) → Step lib opts h (enqueue_job opts h load j choice).0
  gathered :
      (k : ℕ) (first : Job) (rest : List Job)
      → h.jobs ≡ first ∷ rest
      → Step lib opts h (gather opts k (record h { jobs = rest }) first).0
  planned :
      (seen : ℕ → Set) (now : ℤ) (jobs : List Job)
      → Step lib opts h (plan_jobs lib h seen now jobs true)
  swept : (now : ℤ) → Step lib opts h (record h { s = (expired h.s now).0 })
  committed : (stored : Bool) (ms : ℕ) → Step lib opts h (commit_next opts h stored ms)

pub data Reach (lib : Library) (opts : Options) (start : Holder) : Holder → Type 0 where
  here : Reach lib opts start start
  later : {h g : Holder} → Reach lib opts start h → Step lib opts h g → Reach lib opts start g

-- The two counters of a set do not wrap at the next step.
abbrev pub Room : Holder → Type 0
Room h = (h.s.pend_seq + 1 < 2 ^ 64) × (h.s.gen + 1 < 2 ^ 64)

-- They do not wrap at any step of a run.
unfoldable pub HasRoom :
    {lib : Library} {opts : Options} {start h : Holder} → Reach lib opts start h → Type 0
HasRoom here = Unit {0}
HasRoom (later {h} r step) = HasRoom r × Room h

unfoldable pub Kept : Holder → Holder → Type 0
Kept g h = (g.s ≡ h.s) × (g.batches ≡ h.batches)

offer_job-Kept : (h : Holder) (j : Job) (choice : Offer) → Kept (offer_job h j choice).0 h
unfolding offer_job Kept
offer_job-Kept h j accepted = (refl, refl)
offer_job-Kept h j cancelled = (refl, refl)
offer_job-Kept h j stopping = (refl, refl)

pub enqueue_job-Kept :
    (opts : Options) (h : Holder) (load : ℤ) (j : Job) (choice : Offer)
    → Kept (enqueue_job opts h load j choice).0 h
unfolding enqueue_job Kept
enqueue_job-Kept opts h load j choice =
    elim (Bool-cases (is_overloaded opts load (length j.recs))) [
      | inl e ↦ rw e (refl, refl)
      | inr e ↦ rw e (offer_job-Kept h j choice)
    ]

gather_loop-Kept :
    (batch_max : ℤ) (k n : ℕ) (h : Holder) (jobs : List Job)
    → Kept (gather_loop batch_max k n h jobs).0 h
unfolding gather_loop take_job Kept
gather_loop-Kept batch_max zero n h jobs = (refl, refl)
gather_loop-Kept batch_max (suc k) n h [] = (refl, refl)
gather_loop-Kept batch_max (suc k) n h (j ∷ jobs) = elim (Bool-cases (ltb_ℤ (pos n) batch_max)) [
  | inr f ↦ rw f (refl, refl)
  | inl f ↦ rw f (
      gather_loop-Kept batch_max k (n + length j.recs) (take_job (record h { jobs = jobs }) j) jobs)
]

pub gather-Kept :
    (opts : Options) (k : ℕ) (h : Holder) (first : Job) → Kept (gather opts k h first).0 h
unfolding gather take_job Kept
gather-Kept opts k h first =
    gather_loop-Kept opts.batch_max k (length first.recs) (take_job h first) h.jobs

Kept-Sound : (g h : Holder) → Kept g h → Sound h → Sound g
unfolding Kept
Kept-Sound g h k s = Sound-same g h k.0 k.1 s

Step-Sound :
    (lib : Library) (opts : Options) (h g : Holder) → Step lib opts h g → Sound h → Room h → Sound g
Step-Sound lib opts h _ (submitted load j choice) k room =
    Kept-Sound (enqueue_job opts h load j choice).0 h (enqueue_job-Kept opts h load j choice) k
Step-Sound lib opts h _ (gathered n first rest is) k room =
    Kept-Sound (gather opts n (record h { jobs = rest }) first).0 (record h { jobs = rest })
      (gather-Kept opts n (record h { jobs = rest }) first)
      (record { pipeline = k.pipeline; old = k.old })
Step-Sound lib opts h _ (planned seen now jobs) k room =
    plan_jobs-Sound lib h seen now jobs k room.0
Step-Sound lib opts h _ (swept now) k room =
    unfold expired in record { pipeline = expired-Pipeline h.s _ now k.pipeline; old = k.old }
Step-Sound lib opts h _ (committed stored ms) k room = commit_next-Sound opts h stored ms k room.1

-- In every state that the goroutines of a set reach, in whatever order their steps come, from a
-- state where the set and its waiting batches are in step, they are in step, while the two counters
-- of the set do not wrap.
pub Reach-Sound :
    {lib : Library} {opts : Options} {start h : Holder} (r : Reach lib opts start h)
    → Sound start
    → HasRoom r
    → Sound h
unfolding HasRoom
Reach-Sound here k room = k
Reach-Sound (later r step) k room = Step-Sound _ _ _ _ step (Reach-Sound r k room.0) room.1
