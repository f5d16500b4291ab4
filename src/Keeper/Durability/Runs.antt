-- ===== src/Keeper/Durability/Runs.antt =====
-- The goroutines of one set in internal/keeper/keeper.go with the server, in any order of their steps.
use placitum_keeper.Base.{
  zero, ℕ, ◌+◌, ◌^◌, ◌<◌, ◌≡◌, refl, sym, ap, ◌∙◌, true, Str, ◌==◌, List, [], ◌∷◌, ◌++◌, length,
  All, arith, inl, inr, Bool-cases,
}
use placitum_keeper.Base.Int.{ℤ}
use placitum_keeper.Base.Maps.{Map}
use placitum_keeper.Keeper.Durability.{CanStore, Ready, ReadyOn, Backed}
use placitum_keeper.Keeper.Durability.Contents.{
  CanTake, CanWrite, ideal_run-AllStorable, admit-CanWrite, plan-IsChange, plan-seq_lt,
}
use placitum_keeper.Keeper.Flow.{
  Sound, Sound-same, current, plan_results_frame, plan_jobs-Sound, expired-Pipeline,
}
use placitum_keeper.Keeper.Flow.Runs.{Kept}
use placitum_keeper.Keeper.Planner.{
  admit, no_admission, fresh_reads, plan_jobs, results_for, zero_plan,
}
use placitum_keeper.Keeper.Types.{Job, Batch, Holder}
use placitum_keeper.Sets.Expiry.{expired}
use placitum_keeper.Sets.Ideal.{replay}
use placitum_keeper.Sets.Netip.{Library}
use placitum_keeper.Sets.Pipeline.{replay_plans, replay_plans-Distinct}
use placitum_keeper.Sets.Pipeline.Enqueue.{plan-ideal}
use placitum_keeper.Sets.Planning.{plan, plan_loop, plan_finish, draft_of}
use placitum_keeper.Sets.State.{hash_of}
use placitum_keeper.Sets.Types.{Set, SetType, Entry, Delta, Plan}
use placitum_keeper.Store.Meta.{diff_key}
use placitum_keeper.Store.Redis.{Redis}
use placitum_keeper.Store.Redis.Effects.{IsChange}
use placitum_keeper.Store.Redis.Durable.{IsForeign, diff_key-IsForeign}
use placitum_keeper.Store.Redis.Loads.{AllStorable}
use placitum_keeper.Store.Redis.Recovery.{Synced}
use mathlib.Core.Path.{subst, transport}

module _ (lib : Library) (key : List ℕ) (t : SetType) (name : Str) (gen : ℕ) where
  Ready-snoc :
      (w : Map Entry) (bs : List Batch) (b : Batch)
      → Ready lib key t name gen w bs
      → CanStore lib key t name (replay_plans w (current gen bs)) b
      → Ready lib key t name gen w (bs ++ (b ∷ []))
  unfolding Ready replay_plans
  Ready-snoc w [] b ready can = (λ e. (can, tt), λ e. tt)
  Ready-snoc w (c ∷ bs) b ready can = (
    λ e.
        let rest = ready.0 e in
        (rest.0, Ready-snoc (replay w c.plan.deltas) bs b rest.1 (rw e at can)),
    λ e. Ready-snoc w bs b (ready.1 e) (rw e at can),
  )

  -- The content after the waiting batches.
  Ready-content :
      (w : Map Entry) (bs : List Batch)
      → AllStorable lib key t w
      → Ready lib key t name gen w bs
      → AllStorable lib key t (replay_plans w (current gen bs))
  unfolding Ready replay_plans
  Ready-content w [] ok ready = ok
  Ready-content w (c ∷ bs) ok ready = elim (Bool-cases (c.plan.gen == gen)) [
    | inl e ↦ rw e (Ready-content (replay w c.plan.deltas) bs (ready.0 e).0.storable (ready.0 e).1)
    | inr e ↦ rw e (Ready-content w bs ok (ready.1 e))
  ]

module _ (lib : Library) (R : Redis) where
  -- Set.Plan changes nothing that the server has.
  plan-Synced :
      (st : R.State) (s : Set) (ds : List Delta)
      → Synced lib R st s
      → Synced lib R st (plan lib s ds).0
  unfolding plan plan_finish
  plan-Synced st s ds k =
      elim (Bool-cases (length (plan_loop lib s (draft_of s) ds).applied == 0)) [
        | inl e ↦ rw e k
        | inr e ↦ rw e (record { held = k.held; widths = k.widths; storable = k.storable })
      ]

  plan-Ready :
      (s : Set) (ds : List Delta) (bs : List Batch)
      → ReadyOn lib s bs
      → ReadyOn lib (plan lib s ds).0 bs
  unfolding plan plan_finish
  plan-Ready s ds bs ready =
      elim (Bool-cases (length (plan_loop lib s (draft_of s) ds).applied == 0)) [
        | inl e ↦ rw e ready
        | inr e ↦ rw e ready
      ]

  -- The batch of a new plan can be stored.
  plan-CanStore :
      (st : R.State) (h : Holder) (ds : List Delta) (b : Batch)
      → Backed lib R st h
      → All (CanWrite lib h.s.key h.s.def.type (hash_of lib h.s)) ds
      → b.plan ≡ (plan lib h.s ds).1
      → 0 < length (plan lib h.s ds).1.deltas
      → (n : Str) → b.pkg_key ≡ diff_key n (plan lib h.s ds).1.seq
      → CanStore lib h.s.key h.s.def.type h.s.def.name
          (replay_plans h.s.entries (current h.s.gen h.batches))
          b
  plan-CanStore st h ds b k can is written n key_is =
      let q = current h.s.gen h.batches in
      let w = replay_plans h.s.entries q in
      let ideal = plan-ideal h.s q k.sound.pipeline lib ds in
      record {
        foreign =
            subst (λ x. IsForeign x h.s.def.name) (sym key_is)
              (diff_key-IsForeign n (plan lib h.s ds).1.seq h.s.def.name);
        changes = subst (λ (p : Plan). All IsChange p.deltas) (sym is) (plan-IsChange lib h.s ds);
        storable =
            transport
              (λ i.
                AllStorable lib h.s.key h.s.def.type
                  (sym (ap (λ (p : Plan). replay w p.deltas) is ∙ ideal.0) i))
              (ideal_run-AllStorable lib h.s.key h.s.def.type (hash_of lib h.s)
                k.synced.widths.key.1 h.s.def.limit ds (record { content = w; rejected = [] })
                (
                  replay_plans-Distinct h.s.entries q k.sound.pipeline.distinct,
                  Ready-content lib h.s.key h.s.def.type h.s.def.name h.s.gen h.s.entries h.batches
                      k.synced.storable k.ready,
                )
                can).1;
        seq = subst (λ (p : Plan). p.seq < 2 ^ 64) (sym is) (plan-seq_lt lib h.s ds written);
      }

  Backed-same :
      (st : R.State) (g : Holder) (s : Set) (bs : List Batch)
      → (g.s ≡ s) × (g.batches ≡ bs)
      → Sound g
      → Synced lib R st s
      → ReadyOn lib s bs
      → Backed lib R st g
  Backed-same st g s bs same sound sync ready = record {
    sound = sound;
    synced = subst (Synced lib R st) (sym same.0) sync;
    ready = transport (λ i. ReadyOn lib (sym same.0 i) (sym same.1 i)) ready;
  }

  -- The batches after Plan, where the plan writes something.
  planned-Ready :
      (st : R.State) (h : Holder) (ds : List Delta) (b : Batch)
      → Backed lib R st h
      → CanStore lib h.s.key h.s.def.type h.s.def.name
          (replay_plans h.s.entries (current h.s.gen h.batches))
          b
      → ReadyOn lib (plan lib h.s ds).0 (h.batches ++ (b ∷ []))
  planned-Ready st h ds b k can =
      plan-Ready h.s ds (h.batches ++ (b ∷ [])) (
        Ready-snoc lib h.s.key h.s.def.type h.s.def.name h.s.gen h.s.entries h.batches b k.ready
          can)

  -- The planner keeps them in step on jobs whose records can be stored.
  pub plan_jobs-Backed :
      (st : R.State) (h : Holder) (seen : ℕ → Set) (now : ℤ) (jobs : List Job)
      → Backed lib R st h
      → All (CanTake lib h.s.key h.s.def.type (hash_of lib h.s)) jobs
      → h.s.pend_seq + 1 < 2 ^ 64
      → Backed lib R st (plan_jobs lib h seen now jobs true)
  plan_jobs-Backed st h seen now jobs k can room =
      let a = admit (fresh_reads seen) now (no_admission (seen zero)) jobs in
      let g : Holder = record h { stats = record (h.stats) { stale = h.stats.stale + a.stale } } in
      let sound = plan_jobs-Sound lib h seen now jobs k.sound room in
      let ds_can =
        admit-CanWrite lib h.s.key h.s.def.type (hash_of lib h.s) (fresh_reads seen) now jobs
          (no_admission (seen zero)) tt can in
      elim (Bool-cases (length a.deltas == 0)) [
        | inl e ↦
            let (b, plan_is, s_is, bs_is, _) =
              plan_results_frame lib g now (zero_plan lib) jobs
                (results_for (zero_plan lib) jobs a.codes) in
            Backed-same st (plan_jobs lib h seen now jobs true) h.s h.batches
              (unfold plan_jobs in rw e (s_is, bs_is)) sound k.synced k.ready
        | inr e ↦
            let p = (plan lib h.s a.deltas).1 in
            let (b, plan_is, s_is, bs_is, key_is) =
              plan_results_frame lib (record g { s = (plan lib h.s a.deltas).0 }) now p jobs
                (results_for p jobs a.codes) in
            elim (Bool-cases (length p.deltas == 0)) [
              | inl f ↦
                  Backed-same st (plan_jobs lib h seen now jobs true) (plan lib h.s a.deltas).0
                    h.batches (unfold plan_jobs in rw e (s_is, bs_is ∙ rw f refl)) sound
                    (plan-Synced st h.s a.deltas k.synced)
                    (plan-Ready h.s a.deltas h.batches k.ready)
              | inr f ↦
                  Backed-same st (plan_jobs lib h seen now jobs true) (plan lib h.s a.deltas).0
                    (h.batches ++ (b ∷ [])) (unfold plan_jobs in rw e (s_is, bs_is ∙ rw f refl))
                    sound (plan-Synced st h.s a.deltas k.synced)
                    (planned-Ready st h a.deltas b k
                      (plan-CanStore st h a.deltas b k ds_can plan_is (ground arith) _ key_is))
            ]
      ]

  pub Kept-Backed : (st : R.State) (g h : Holder) → Kept g h → Backed lib R st h → Backed lib R st g
  unfolding Kept
  Kept-Backed st g h same k =
      Backed-same st g h.s h.batches same (Sound-same g h same.0 same.1 k.sound) k.synced k.ready

  pub expired-Backed :
      (st : R.State) (h : Holder) (now : ℤ)
      → Backed lib R st h
      → Backed lib R st (record h { s = (expired h.s now).0 })
  expired-Backed st h now k =
      unfold expired in
      record {
        sound = record {
          pipeline = expired-Pipeline h.s _ now k.sound.pipeline;
          old = k.sound.old;
        };
        synced = record {
          held = k.synced.held;
          widths = k.synced.widths;
          storable = k.synced.storable;
        };
        ready = k.ready;
      }
