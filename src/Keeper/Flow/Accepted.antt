-- ===== src/Keeper/Flow/Accepted.antt =====
-- An add from its admission to its commit: plan and commit of internal/keeper/keeper.go with the
-- methods of internal/set/set.go that they call.
use mathlib.Core.Path.{subst}
use placitum_keeper.Base.{
  ℕ, ◌+◌, ◌^◌, ◌<◌, ◌≡◌, ◌≢◌, refl, sym, ap, ◌∙◌, true, false, ◌&&◌, ◌==◌, Str, str_eq, List, [],
  ◌∷◌, ◌++◌, length, length-map, map, arith, inl, inr, Bool-cases, All, if◌then◌else◌,
}
use placitum_keeper.Base.Int.{ℤ, pos, ltb_ℤ, ◌+ℤ◌}
use placitum_keeper.Base.Maps.{Map}
use placitum_keeper.Keeper.Committer.{commit_next}
use placitum_keeper.Keeper.Flow.{Sound, current, plan_results_frame, plan_gen, plan_jobs-Sound}
use placitum_keeper.Keeper.Flow.Commits.{commit_next_promise}
use placitum_keeper.Keeper.Planner.{
  delta_for, value_of, admit, admit_job, admit_add, Admission, no_admission, always, plan_jobs,
  results_for, is_late,
}
use placitum_keeper.Keeper.Planner.Whole.{admitted_whole}
use placitum_keeper.Keeper.Types.{Options, Job, Holder, Batch, code_stale}
use placitum_keeper.Sets.Netip.{Library}
use placitum_keeper.Sets.Pipeline.{Pipeline, replay_plans}
use placitum_keeper.Sets.Pipeline.Enqueue.{plan-ideal}
use placitum_keeper.Keeper.Submit.Collect.{Unseen}
use placitum_keeper.Sets.Ideal.{replay, Ideal, ideal_run}
use placitum_keeper.Sets.Planning.{plan}
use placitum_keeper.Sets.State.{hash_of, fresh, size_of}
use placitum_keeper.Sets.Planning.Timed.{plan_frame}
use placitum_keeper.Wire.Frames.{err_bad_request, err_full}
use placitum_keeper.Sets.Types.{Set, Plan, Entry, Record, Delta, op_add}
use placitum_keeper.Keeper.Flow.Adds.{Has, adds-Has}

refused : (c : Str) → 0 < length c → (c ∷ []) ≢ ([] ∷ [])
refused c long e =
    let n : length c ≡ 0 = ap (λ cs. elim cs [ [] ↦ 0 | x ∷ xs ↦ length x ]) e in omega arith

replay-none : (m : Map Entry) (ds : List Delta) → length ds == 0 ≡ true → replay m ds ≡ m
unfolding replay
replay-none m [] e = refl
replay-none m (d ∷ ds) e = absurd (ground (arith, e))

commit_next-none :
    (opts : Options) (h : Holder) (ms : ℕ) → h.batches ≡ [] → (commit_next opts h true ms).s ≡ h.s
unfolding commit_next
commit_next-none opts h ms e = rw (commit_next, e) refl

All-none : (P : Record → Type 0) (rs : List Record) → length rs == 0 ≡ true → All P rs
All-none P [] e = tt
All-none P (r ∷ rs) e = absurd (ground (arith, e))

module _ (lib : Library) (opts : Options) (h : Holder) (j : Job) (k : Sound h)
    (alone : h.batches ≡ []) (room : h.s.pend_seq + 1 < 2 ^ 64) where
  abbrev admission : ℤ → Admission
  admission now = admit (always h.s) now (no_admission h.s) (j ∷ [])

  quiet : Pipeline h.s []
  quiet = subst (λ bs. Pipeline h.s (current h.s.gen bs)) alone k.pipeline

  -- The deltas of the admission, where the job was not refused.
  abbrev Taken : Admission → Type 0
  Taken a = a.codes ≡ [] ∷ [] → a.deltas ≡ map (delta_for j.op) j.recs

  admit_add-Taken : Taken (admit_add h.s j (no_admission h.s))
  unfolding admit_add
  admit_add-Taken =
      let n = fresh h.s (map value_of j.recs) [] in
      elim (Bool-cases (ltb_ℤ h.s.def.limit (size_of h.s +ℤ pos n))) [
        | inl e ↦ rw e λ same. absurd (refused err_full (omega arith) same)
        | inr e ↦ rw e λ same. refl
      ]

  admit-Taken : (now : ℤ) → Taken (admission now)
  unfolding admit admit_job
  admit-Taken now = elim (Bool-cases (is_late j.deadline now)) [
    | inl e ↦ rw e λ same. absurd (refused code_stale (omega arith) same)
    | inr e ↦ rw e (elim (Bool-cases (length j.recs == 0)) [
      | inl f ↦ rw f λ same. absurd (refused err_bad_request (omega arith) same)
      | inr f ↦ rw f (elim (Bool-cases (str_eq j.op op_add && ltb_ℤ (pos 0) h.s.def.limit)) [
        | inl d ↦ rw d admit_add-Taken
        | inr d ↦ rw d λ same. refl
      ])
    ])
  ]

  -- The plan of the admitted deltas, and the batch that it makes where it writes something.
  abbrev planned : ℤ → Set × Plan
  planned now = plan lib h.s (admission now).deltas

  abbrev after_plan : ℤ → Holder
  after_plan now = plan_jobs lib h (always h.s) now (j ∷ []) true

  frame :
      (now : ℤ)
      → length (admission now).deltas == 0 ≡ false
      → (b : Batch) × (b.plan ≡ (planned now).1)
        × ((after_plan now).s ≡ (planned now).0)
        × ((after_plan now).batches
            ≡ (if length (planned now).1.deltas == 0 then h.batches else h.batches ++ (b ∷ [])))
  unfolding plan_jobs
  frame now full =
      let start : Holder = record h {
        stats = record (h.stats) { stale = h.stats.stale + (admission now).stale };
        s = (planned now).0;
      } in
      let codes = (admission now).codes in
      let f =
        plan_results_frame lib start now (planned now).1 (j ∷ [])
          (results_for (planned now).1 (j ∷ []) codes) in
      rw full (f.0, f.1, f.2, f.3)

  content_after :
      (now : ℤ) (ms : ℕ)
      → length (admission now).deltas == 0 ≡ false
      → (commit_next opts (after_plan now) true ms).s.entries
        ≡ replay h.s.entries (planned now).1.deltas
  content_after now ms full =
      let (b, plan_is, s_is, bs_is) = frame now full in
      let kept : (after_plan now).s.entries ≡ h.s.entries =
        ap (λ s. s.entries) s_is ∙ (plan_frame lib h.s (admission now).deltas).0 in
      elim (Bool-cases (length (planned now).1.deltas == 0)) [
        | inl e ↦
            ap (λ s. s.entries) (commit_next-none opts (after_plan now) ms (bs_is ∙ rw e alone))
            ∙ kept
            ∙ sym (replay-none h.s.entries _ e)
        | inr e ↦
            let one : (after_plan now).batches ≡ b ∷ [] =
              bs_is ∙ rw e (ap (λ bs. bs ++ (b ∷ [])) alone) in
            let gens : b.plan.gen ≡ (after_plan now).s.gen =
              ap (λ (p : Plan). p.gen) plan_is
              ∙ (plan_gen lib h.s (admission now).deltas).1
              ∙ sym (ap (λ (t : Set). t.gen) s_is ∙ (plan_gen lib h.s (admission now).deltas).0) in
            let sound = plan_jobs-Sound lib h (always h.s) now (j ∷ []) k room in
            (commit_next_promise opts (after_plan now) b [] ms sound one gens).0
            ∙ rw (kept, plan_is) refl
      ]

  -- On a set that is in step and has no waiting batch, while the number of its plan does not wrap: an
  -- add job with different values that the admission takes has each of its values in the set, with
  -- the expiry, the origin and the reason of its record, once the store has taken its plan; none is
  -- left out for the limit.
  pub accepted-Has :
      (now : ℤ) (ms : ℕ)
      → j.op ≡ op_add
      → Unseen [] j.recs
      → (admission now).codes ≡ [] ∷ []
      → All (Has (commit_next opts (after_plan now) true ms).s.entries) j.recs
  unfolding replay_plans
  accepted-Has now ms is new taken =
      let start : Ideal = record { content = h.s.entries; rejected = [] } in
      let ds : (admission now).deltas ≡ map (delta_for op_add) j.recs =
        admit-Taken now taken ∙ rw is refl in
      let run = ideal_run (hash_of lib h.s) h.s.def.limit start in
      let done = plan-ideal h.s [] quiet lib (admission now).deltas in
      let whole : (run (map (delta_for op_add) j.recs)).rejected ≡ [] =
        ap (λ x. (run x).rejected) (sym ds)
        ∙ sym done.1
        ∙ admitted_whole lib h.s [] quiet now (j ∷ []) in
      let all = (adds-Has (hash_of lib h.s) h.s.def.limit j.recs start [] new whole).1 in
      elim (Bool-cases (length (admission now).deltas == 0)) [
        | inl e ↦ All-none _ j.recs (
            ap (λ n. n == 0) (sym (length-map j.recs (delta_for op_add)))
            ∙ ap (λ x. length x == 0) (sym ds)
            ∙ e)
        | inr e ↦
            subst (λ m. All (Has m) j.recs)
              (ap (λ x. (run x).content) (sym ds) ∙ sym done.0 ∙ sym (content_after now ms e)) all
      ]
