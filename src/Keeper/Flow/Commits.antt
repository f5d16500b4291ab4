-- ===== src/Keeper/Flow/Commits.antt =====
-- Commit of a batch, in internal/keeper/keeper.go.
use placitum_keeper.Base.{
  ℕ, suc, ◌+◌, ◌^◌, ◌<◌, ◌≡◌, refl, sym, ap, ◌∙◌, Bool, true, false, Option, some, none, Str, ◌==◌,
  List, [], ◌∷◌, length, arith, inl, inr, Bool-cases, All,
}
use placitum_keeper.Base.Int.{ℤ}
use placitum_keeper.Keeper.Committer.{commit_next, commit_batch, publish_change, fail}
use placitum_keeper.Keeper.Flow.{
  Sound, IsOld, current, Sound-same, current-none, IsOld-next, answer_all_kept,
}
use placitum_keeper.Keeper.Types.{Options, Batch, Holder}
use placitum_keeper.Sets.Committing.{commit, commit_finish}
use placitum_keeper.Sets.Committing.Loop.{commit_loop-SameFrame}
use placitum_keeper.Sets.Ideal.{replay, digest}
use placitum_keeper.Sets.Pipeline.{Pipeline}
use placitum_keeper.Sets.Pipeline.Dequeue.{commit-Pipeline, abort-Pipeline}
use placitum_keeper.Sets.State.{abort, settle}
use placitum_keeper.Sets.Types.{Set, Plan, Change}
use mathlib.Core.Path.{subst}

pub fail_kept :
    (code : Str) (h : Holder) (b : Batch)
    → ((fail code h b).s ≡ h.s) × ((fail code h b).batches ≡ h.batches)
unfolding fail
fail_kept code h b = answer_all_kept h b.jobs _ h.s.epoch

pub publish_kept :
    (opts : Options) (h : Holder) (b : Batch) (c : Option Change)
    → ((publish_change opts h b c).s ≡ h.s) × ((publish_change opts h b c).batches ≡ h.batches)
publish_kept opts h b none = (refl, refl)
publish_kept opts h b (some ch) = answer_all_kept _ b.jobs _ h.s.epoch

pub commit_gen : (s : Set) (p : Plan) (now : ℤ) → (commit s p now).0.gen ≡ s.gen
unfolding commit commit_finish
commit_gen s p now = ground (arith, (commit_loop-SameFrame p.seq p.deltas s).gen)

pub commit_seq :
    (s : Set) (p : Plan) (now : ℤ) → 0 < length p.deltas → (commit s p now).0.seq ≡ p.seq
unfolding commit commit_finish
commit_seq s p now h = ground arith

pub abort_gen : (s : Set) → s.gen + 1 < 2 ^ 64 → (abort s).gen ≡ suc s.gen
unfolding abort settle
abort_gen s h = omega arith

-- After Abort every batch is turned away.
abort-Sound :
    (h : Holder) (bs : List Batch) (q : List Plan)
    → Pipeline h.s q
    → All (IsOld h.s.gen) bs
    → h.s.gen + 1 < 2 ^ 64
    → Sound (record h { s = abort h.s; batches = bs })
abort-Sound h bs q inv old room =
    let next : (abort h.s).gen ≡ suc h.s.gen = abort_gen h.s room in
    let none_left : current (abort h.s).gen bs ≡ [] =
      ap (λ g. current g bs) next ∙ current-none h.s.gen bs old in
    record {
      pipeline = subst (Pipeline (abort h.s)) (sym none_left) (abort-Pipeline h.s q inv).0;
      old = subst (λ g. All (IsOld g) bs) (sym next) (IsOld-next h.s.gen bs old);
    }

commit-Sound :
    (h : Holder) (b : Batch) (bs : List Batch)
    → Pipeline h.s (b.plan ∷ current h.s.gen bs)
    → All (IsOld h.s.gen) bs
    → Sound (record h { s = (commit h.s b.plan b.at).0; batches = bs })
commit-Sound h b bs inv old =
    let kept : (commit h.s b.plan b.at).0.gen ≡ h.s.gen = commit_gen h.s b.plan b.at in
    record {
      pipeline =
          subst (λ g. Pipeline (commit h.s b.plan b.at).0 (current g bs)) (sym kept)
            (commit-Pipeline h.s b.plan (current h.s.gen bs) b.at inv).2;
      old = subst (λ g. All (IsOld g) bs) (sym kept) old;
    }

-- A batch of an older generation is answered and changes nothing.
pub commit_next_stale :
    (opts : Options) (h : Holder) (b : Batch) (bs : List Batch) (stored : Bool) (ms : ℕ)
    → h.batches ≡ b ∷ bs
    → (b.plan.gen == h.s.gen) ≡ false
    → ((commit_next opts h stored ms).s ≡ h.s) × ((commit_next opts h stored ms).batches ≡ bs)
unfolding commit_next commit_batch
commit_next_stale opts h b bs stored ms first g =
    rw (first, g) (fail_kept _ (record h { batches = bs }) b)

pub commit_next_refused :
    (opts : Options) (h : Holder) (b : Batch) (bs : List Batch) (ms : ℕ)
    → h.batches ≡ b ∷ bs
    → (b.plan.gen == h.s.gen) ≡ true
    → ((commit_next opts h false ms).s ≡ abort h.s) × ((commit_next opts h false ms).batches ≡ bs)
unfolding commit_next commit_batch
commit_next_refused opts h b bs ms first g = rw (first, g) (fail_kept _ _ b)

pub commit_next_stored :
    (opts : Options) (h : Holder) (b : Batch) (bs : List Batch) (ms : ℕ)
    → h.batches ≡ b ∷ bs
    → (b.plan.gen == h.s.gen) ≡ true
    → ((commit_next opts h true ms).s ≡ (commit h.s b.plan b.at).0)
      × ((commit_next opts h true ms).batches ≡ bs)
unfolding commit_next commit_batch
commit_next_stored opts h b bs ms first g =
    rw (first, g) (publish_kept opts _ b (commit h.s b.plan b.at).1)

pub first_batch :
    (h : Holder) (b : Batch) (bs : List Batch)
    → Sound h
    → h.batches ≡ b ∷ bs
    → Pipeline h.s (current h.s.gen (b ∷ bs)) × All (IsOld h.s.gen) (b ∷ bs)
first_batch h b bs k first = (
  subst (λ cs. Pipeline h.s (current h.s.gen cs)) first k.pipeline,
  subst (All (IsOld h.s.gen)) first k.old,
)

pub commit_next_empty :
    (opts : Options) (h : Holder) (stored : Bool) (ms : ℕ)
    → h.batches ≡ []
    → commit_next opts h stored ms ≡ h
unfolding commit_next
commit_next_empty opts h stored ms none_wait = rw none_wait refl

-- The queue of plans starts with the batch's plan unless it is out of date.
pub current_first :
    (h : Holder) (b : Batch) (bs : List Batch)
    → Pipeline h.s (current h.s.gen (b ∷ bs))
    → (b.plan.gen == h.s.gen) ≡ true
    → Pipeline h.s (b.plan ∷ current h.s.gen bs)
current_first h b bs inv g = rw g at inv

current_rest :
    (h : Holder) (b : Batch) (bs : List Batch)
    → Pipeline h.s (current h.s.gen (b ∷ bs))
    → (b.plan.gen == h.s.gen) ≡ false
    → Pipeline h.s (current h.s.gen bs)
current_rest h b bs inv g = rw g at inv

next-Sound :
    (opts : Options) (h : Holder) (stored : Bool) (ms : ℕ) (cs : List Batch)
    → h.batches ≡ cs
    → Sound h
    → h.s.gen + 1 < 2 ^ 64
    → Sound (commit_next opts h stored ms)
next-Sound opts h stored ms [] first k room =
    subst Sound (sym (commit_next_empty opts h stored ms first)) k
next-Sound opts h stored ms (b ∷ bs) first k room =
    let start = first_batch h b bs k first in
    elim (Bool-cases (b.plan.gen == h.s.gen)) [
      | inr g ↦
          let kept = commit_next_stale opts h b bs stored ms first g in
          Sound-same _ (record h { batches = bs }) kept.0 kept.1
            (record { pipeline = current_rest h b bs start.0 g; old = start.1.1 })
      | inl g ↦ elim (Bool-cases stored) [
        | inr e ↦
            let kept = commit_next_refused opts h b bs ms first g in
            rw e (
              Sound-same _ (record h { s = abort h.s; batches = bs }) kept.0 kept.1
                (abort-Sound h bs _ start.0 start.1.1 room))
        | inl e ↦
            let kept = commit_next_stored opts h b bs ms first g in
            rw e (
              Sound-same _ (record h { s = (commit h.s b.plan b.at).0; batches = bs }) kept.0 kept.1
                (commit-Sound h b bs (current_first h b bs start.0 g) start.1.1))
      ]
    ]

-- The committer keeps the set and its waiting batches in step, whether no batch waits, the batch
-- is out of date, the store refuses it, or the store takes it, while the generation does not wrap.
pub commit_next-Sound :
    (opts : Options) (h : Holder) (stored : Bool) (ms : ℕ)
    → Sound h
    → h.s.gen + 1 < 2 ^ 64
    → Sound (commit_next opts h stored ms)
commit_next-Sound opts h stored ms k room = next-Sound opts h stored ms h.batches refl k room

-- In a state where the set and its waiting batches are in step, where the oldest batch is of the
-- set's generation and the store takes it: the content becomes what its deltas make of it, and the
-- number and the hash are those that the batch was packed with.
pub commit_next_promise :
    (opts : Options) (h : Holder) (b : Batch) (bs : List Batch) (ms : ℕ)
    → Sound h
    → h.batches ≡ b ∷ bs
    → b.plan.gen ≡ h.s.gen
    → ((commit_next opts h true ms).s.entries ≡ replay h.s.entries b.plan.deltas)
      × ((commit_next opts h true ms).s.hash ≡ b.plan.hash)
      × ((commit_next opts h true ms).s.seq ≡ b.plan.seq)
commit_next_promise opts h b bs ms k first gen =
    let g : (b.plan.gen == h.s.gen) ≡ true = ground (arith, gen) in
    let is = (commit_next_stored opts h b bs ms first g).0 in
    let inv = current_first h b bs (first_batch h b bs k first).0 g in
    let done = commit-Pipeline h.s b.plan (current h.s.gen bs) b.at inv in
    (
      ap (λ s. s.entries) is ∙ done.1,
      ap (λ s. s.hash) is ∙ done.2.hash ∙ ap digest done.1 ∙ sym inv.order.2,
      ap (λ s. s.seq) is ∙ commit_seq h.s b.plan b.at inv.order.1,
    )
