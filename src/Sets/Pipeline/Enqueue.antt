-- ===== src/Sets/Pipeline/Enqueue.antt =====
-- The waiting plans of a set and one more, which Set.Plan makes.
use placitum_keeper.Base.{
  ℕ, ◌+◌, ◌%◌, ◌^◌, ◌<◌, ◌≡◌, refl, sym, ap, ◌∙◌, false, Option, some, none, Str, if◌then◌else◌,
  ◌==◌, List, [], ◌∷◌, ◌++◌, length, arith, inl, inr, Bool-cases,
}
use placitum_keeper.Base.Maps.{Map, Distinct, lookup, lookup-insert, Distinct-insert}
use placitum_keeper.Sets.Ideal.{ideal_run, replay, digest_run, touches}
use placitum_keeper.Sets.Netip.{Library}
use placitum_keeper.Sets.Pipeline.{
  Pipeline, replay_plans, owner, seq_of, seen_value, replay_plans-Distinct, replay_plans-snoc,
  last_seq-snoc, owner-snoc, InOrder-snoc,
}
use placitum_keeper.Sets.Planning.{
  Draft, draft_of, merge_over, plan_finish, plan_loop, plan, plan_lookup,
}
use placitum_keeper.Sets.Planning.Loop.{plan_loop-Describes, plan_loop-ideal}
use placitum_keeper.Sets.Planning.Overlay.{Describes}
use placitum_keeper.Sets.State.{lookup_value, hash_of}
use placitum_keeper.Sets.Types.{Set, Entry, Plan, Delta, PendEntry}

-- A plan that writes nothing does not reach Commit.
abbrev pub enqueue : List Plan → Plan → List Plan
enqueue q p = if length p.deltas == 0 then q else q ++ (p ∷ [])

abbrev merged : ℕ → Option PendEntry → Option PendEntry → Option PendEntry
merged seq (some p) o = some (record p { seq = seq })
merged seq none o = o

lookup-merge_over :
    (seq : ℕ) (k : Str) (over pend : Map PendEntry)
    → lookup k (merge_over seq over pend) ≡ merged seq (lookup k over) (lookup k pend)
unfolding merge_over lookup
lookup-merge_over seq k [] pend = refl
lookup-merge_over seq k ((v, p) ∷ over) pend =
    lookup-insert v k (record p { seq = seq }) (merge_over seq over pend)
    ∙ ground (arith, lookup-merge_over seq k over pend)

merge_over-Distinct :
    (seq : ℕ) (over pend : Map PendEntry) → Distinct pend → Distinct (merge_over seq over pend)
unfolding merge_over
merge_over-Distinct seq [] pend h = h
merge_over-Distinct seq ((v, p) ∷ over) pend h =
    Distinct-insert v _ (merge_over seq over pend) (merge_over-Distinct seq over pend h)

module _ (s : Set) (q : List Plan) (inv : Pipeline s q) where
  abbrev planned : Map Entry
  planned = replay_plans s.entries q

  start : Describes s planned (draft_of s)
  unfolding plan_lookup lookup replay digest_run touches
  start = record {
    view = λ k. inv.view k;
    size = inv.size;
    hash = inv.pend_hash;
    distinct = replay_plans-Distinct s.entries q inv.distinct;
    settled = refl;
    touched = λ k. refl;
  }

  -- The end of Plan, for a draft with at least one delta.
  module _ (d : Draft) (desc : Describes s planned d) (seq : ℕ) where
    abbrev set_after : Set
    set_after = record s {
      pend = merge_over seq d.over s.pend;
      pend_seq = seq;
      pend_hash = d.hash;
      pend_size = d.size;
    }

    abbrev made : Plan
    made = record {
      deltas = d.applied;
      rejected = d.rejected;
      seq = seq;
      hash = d.hash;
      gen = s.gen;
    }

    finish-view :
        (k : Str) → seen_value (lookup_value set_after k) ≡ lookup k (replay planned d.applied)
    unfolding lookup_value
    finish-view k =
        rw (lookup-merge_over seq k d.over s.pend)
          (unfold plan_lookup lookup_value in ground (arith, desc.view k))

    finish-owners :
        (k : Str)
        → seq_of (lookup k set_after.pend) ≡ (if touches k d.applied then some seq else owner k q)
    finish-owners k =
        rw (lookup-merge_over seq k d.over s.pend) (ground (arith, desc.touched k, inv.owners k))

    finish-Pipeline :
        (length d.applied == 0) ≡ false → s.pend_seq < seq → Pipeline set_after (q ++ (made ∷ []))
    finish-Pipeline some_delta next = record {
      distinct = inv.distinct;
      distinct_pend = merge_over-Distinct seq d.over s.pend inv.distinct_pend;
      hash = inv.hash;
      view = λ k. rw (replay_plans-snoc s.entries q made) (finish-view k);
      size = rw (replay_plans-snoc s.entries q made) desc.size;
      pend_hash = rw (replay_plans-snoc s.entries q made) desc.hash;
      seq = sym (last_seq-snoc s.seq q made);
      order =
          InOrder-snoc s.seq s.entries q made inv.order
            (rw (← inv.seq) next, ground arith, desc.hash, desc.settled, tt);
      owners = λ k. finish-owners k ∙ sym (owner-snoc k q made);
    }

  plan_finish-Pipeline :
      (d : Draft) (seq : ℕ)
      → Describes s planned d
      → s.pend_seq < seq
      → Pipeline (plan_finish s seq d).0 (enqueue q (plan_finish s seq d).1)
  unfolding plan_finish
  plan_finish-Pipeline d seq desc next = elim (Bool-cases (length d.applied == 0)) [
    | inl e ↦ rw e inv
    | inr e ↦ rw (e, e) (finish-Pipeline d desc seq e next)
  ]

  -- Set.Plan keeps the invariant while the next number does not wrap: its plan joins the queue,
  -- unless it writes nothing.
  pub plan-Pipeline :
      (lib : Library) (ds : List Delta)
      → s.pend_seq + 1 < 2 ^ 64
      → Pipeline (plan lib s ds).0 (enqueue q (plan lib s ds).1)
  unfolding plan
  plan-Pipeline lib ds room =
      plan_finish-Pipeline (plan_loop lib s (draft_of s) ds) ((s.pend_seq + 1) % 2 ^ 64)
        (plan_loop-Describes lib s planned ds (draft_of s) start) (omega arith)

  plan_finish_outcome :
      (seq : ℕ) (d : Draft)
      → ((plan_finish s seq d).1.deltas ≡ d.applied)
        × ((plan_finish s seq d).1.rejected ≡ d.rejected)
  unfolding plan_finish
  plan_finish_outcome seq d = ground arith

  -- Set.Plan refines the specification, on a set that satisfies the invariant with the waiting
  -- plans: with these and the new plan committed, the content and the rejected records are those
  -- of the batch taken delta by delta.
  pub plan-ideal :
      (lib : Library) (ds : List Delta)
      → (let i =
            ideal_run
              (hash_of lib s)
              s.def.limit
              (record { content = planned; rejected = [] })
              ds in
          (replay planned (plan lib s ds).1.deltas ≡ i.content)
          × ((plan lib s ds).1.rejected ≡ i.rejected))
  unfolding plan replay
  plan-ideal lib ds =
      let d = plan_loop lib s (draft_of s) ds in
      let out = plan_finish_outcome ((s.pend_seq + 1) % 2 ^ 64) d in
      let same = plan_loop-ideal lib s planned ds (draft_of s) start in
      (ap (replay planned) out.0 ∙ ap (λ i. i.content) same, out.1 ∙ ap (λ i. i.rejected) same)
