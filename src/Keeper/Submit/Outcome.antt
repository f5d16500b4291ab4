-- ===== src/Keeper/Submit/Outcome.antt =====
-- What Submit of internal/keeper/keeper.go leaves of a set: a refusal, or one more job.
use placitum_keeper.Base.{
  ℕ, ◌+◌, ◌≡◌, refl, ap, ◌∙◌, Bool, true, false, Option, some, none, [], ◌∷◌, ◌++◌, length, inl,
  inr, Bool-cases,
}
use placitum_keeper.Base.Int.{ℤ, pos, ltb_ℤ, ◌+ℤ◌, add_pos}
use placitum_keeper.Base.Results.{ok, err}
use placitum_keeper.Keeper.Queue.{waiting, undone}
use placitum_keeper.Keeper.Submit.{
  Offer, accepted, cancelled, stopping, Checked, submit, submit_checked, check_event, enqueue_job,
  offer_job,
}
use placitum_keeper.Keeper.Types.{Options, Job, Holder}
use placitum_keeper.Sets.Netip.{Library}
use placitum_keeper.Wire.Frames.{Event, EventReply}

-- The holder `g` after an answer at once, or after a job was queued.
abbrev pub Outcome : Holder → ℕ → Holder → Option EventReply → Type 0
Outcome h chan g (some r) =
    (r.ok ≡ false)
    × (g.s ≡ h.s)
    × (g.jobs ≡ h.jobs)
    × (g.batches ≡ h.batches)
    × (g.queued ≡ h.queued)
Outcome h chan g none =
    (j : Job) × (g.jobs ≡ h.jobs ++ (j ∷ []))
    × (j.reply ≡ some chan)
    × (g.s ≡ h.s)
    × (g.batches ≡ h.batches)
    × (g.queued ≡ pos (waiting h.jobs + length j.recs))

abbrev pub SubmitOutcome : Option Holder → ℕ → Option Holder × Option EventReply → Type 0
SubmitOutcome none chan (g, none) = ⊥
SubmitOutcome none chan (g, some r) = (r.ok ≡ false) × (g ≡ none)
SubmitOutcome (some h) chan (none, a) = ⊥
SubmitOutcome (some h) chan (some g, a) = Outcome h chan g a

offer_job-Outcome :
    (h : Holder) (j : Job) (chan : ℕ) (choice : Offer)
    → h.queued ≡ pos (waiting h.jobs)
    → j.reply ≡ some chan
    → Outcome h chan (offer_job h j choice).0 (offer_job h j choice).1
unfolding offer_job
offer_job-Outcome h j chan accepted exact is = (
  j,
  refl,
  is,
  refl,
  refl,
  ap (λ q. q +ℤ pos (length j.recs)) exact ∙ add_pos (waiting h.jobs) (length j.recs),
)
offer_job-Outcome h j chan cancelled exact is =
    (refl, refl, refl, refl, undone h (length j.recs) exact)
offer_job-Outcome h j chan stopping exact is =
    (refl, refl, refl, refl, undone h (length j.recs) exact)

enqueue_job-Outcome :
    (opts : Options) (h : Holder) (j : Job) (chan : ℕ) (choice : Offer)
    → h.queued ≡ pos (waiting h.jobs)
    → j.reply ≡ some chan
    → Outcome h chan
        (enqueue_job opts h h.queued j choice).0
        (enqueue_job opts h h.queued j choice).1
unfolding enqueue_job
enqueue_job-Outcome opts h j chan choice exact is =
    elim (Bool-cases (ltb_ℤ opts.queue_max (h.queued +ℤ pos (length j.recs)))) [
      | inl e ↦ rw e (refl, refl, refl, refl, refl)
      | inr e ↦ rw e (offer_job-Outcome h j chan choice exact is)
    ]

submit_checked-Outcome :
    (opts : Options) (h : Holder) (deadline : Option ℤ) (chan : ℕ) (choice : Offer)
    → h.queued ≡ pos (waiting h.jobs)
    → (c : Checked) → SubmitOutcome (some h) chan (submit_checked opts h deadline chan choice c)
unfolding submit_checked
submit_checked-Outcome opts h deadline chan choice exact (err code) = (refl, refl, refl, refl, refl)
submit_checked-Outcome opts h deadline chan choice exact (ok (op, recs)) =
    enqueue_job-Outcome opts h
      (record { op = op; recs = recs; reply = some chan; deadline = deadline }) chan choice exact
      refl

abbrev pub Counted : Option Holder → Type 0
Counted none = Unit {0}
Counted (some h) = h.queued ≡ pos (waiting h.jobs)

module _ (lib : Library) (opts : Options) (ev : Event) (now : ℤ) (deadline : Option ℤ) (chan : ℕ)
    (choice : Offer) where
  -- Submit answers at once with a refusal, and then the set, its jobs, its batches and the counter of
  -- the queue are as before; or it queues one job, whose records are counted, and the answer comes
  -- later. The counter was exact.
  pub submit-Outcome :
      (ready : Bool) (mounted : Option Holder)
      → Counted mounted
      → SubmitOutcome mounted chan (submit lib opts ready mounted ev now deadline chan choice)
  unfolding submit
  submit-Outcome false none exact = (refl, refl)
  submit-Outcome false (some h) exact = (refl, refl, refl, refl, refl)
  submit-Outcome true none exact = (refl, refl)
  submit-Outcome true (some h) exact =
      submit_checked-Outcome opts h deadline chan choice exact (check_event lib h.s.def ev now)
