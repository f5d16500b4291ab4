-- ===== src/Sets/Pipeline/Dequeue.antt =====
-- Commit of the oldest waiting plan, and Abort.
use placitum_keeper.Base.{
  ℕ, ◌<◌, ◌≡◌, refl, sym, ap, ◌∙◌, Bool, true, false, Option, some, none, Str, if◌then◌else◌, ◌==◌,
  str_eq, List, [], ◌∷◌, length, arith, inl, inr, Bool-cases,
}
use placitum_keeper.Base.Int.{ℤ, pos}
use mathlib.Core.Path.{subst}
use placitum_keeper.Base.Maps.{Map, Distinct, lookup, lookup-insert, lookup-erase}
use placitum_keeper.Sets.Committing.{commit, commit_loop, commit_finish}
use placitum_keeper.Sets.Committing.Loop.{
  released, SameFrame, entries-commit_loop, hash-commit_loop, pend-commit_loop-Distinct,
  lookup-pend-commit_loop, commit_loop-SameFrame,
}
use placitum_keeper.Sets.Ideal.{apply_delta, replay, digest_run, touches}
use placitum_keeper.Sets.Pipeline.{
  Pipeline, InOrder, replay_plans, last_seq, owner, last_writer, seq_of, seen_value,
  replay-Distinct, unowned-nil, apply_delta-Distinct,
}
use placitum_keeper.Sets.State.{found_planned, lookup_value, settle, abort}
use placitum_keeper.Sets.Types.{Set, Entry, Plan, Delta, PendEntry}

-- A value that a list of deltas, or a queue of plans, does not write keeps its entry.
lookup-apply_delta_other :
    (k : Str) (w : Map Entry) (d : Delta)
    → Distinct w
    → str_eq d.rec.value k ≡ false
    → lookup k (apply_delta w d) ≡ lookup k w
unfolding apply_delta
lookup-apply_delta_other k w d dist h = ground (
  arith,
  lookup-insert d.rec.value k
      (record { exp = d.rec.exp; origin = d.rec.origin; reason = d.rec.reason; hash = d.hash }) w,
  lookup-erase d.rec.value k w dist,
)

lookup-replay_other :
    (k : Str) (ds : List Delta) (w : Map Entry)
    → Distinct w
    → touches k ds ≡ false
    → lookup k (replay w ds) ≡ lookup k w
unfolding touches replay
lookup-replay_other k [] w dist h = refl
lookup-replay_other k (d ∷ ds) w dist h =
    lookup-replay_other k ds (apply_delta w d) (apply_delta-Distinct w d dist) (ground arith)
    ∙ lookup-apply_delta_other k w d dist (ground arith)

lookup-replay_plans_other :
    (k : Str) (q : List Plan) (w : Map Entry)
    → Distinct w
    → owner k q ≡ none
    → lookup k (replay_plans w q) ≡ lookup k w
unfolding owner replay_plans
lookup-replay_plans_other k [] w dist h = refl
lookup-replay_plans_other k (p ∷ q) w dist h =
    lookup-replay_plans_other k q (replay w p.deltas) (replay-Distinct w p.deltas dist)
      (ground arith)
    ∙ lookup-replay_other k p.deltas w dist (ground arith)

-- Every later writer has a higher number.
owner_above :
    (k : Str) (n m : ℕ) (w : Map Entry) (q : List Plan) → InOrder n w q → owner k q ≡ some m → n < m
unfolding owner
owner_above k n m w [] h e = absurd (ground arith)
owner_above k n m w (p ∷ q) h e = ground (arith, owner_above k p.seq m (replay w p.deltas) q h.4)

-- One value: `o` is its last writer among the later plans, and `t` says whether the plan with
-- number `seq` writes it.
view_cases :
    (seq : ℕ) (pe : Option PendEntry) (old new : Option Entry) (o : Option ℕ) (t : Bool)
    (final : Option Entry)
    → seq_of pe ≡ last_writer o t seq
    → ((m : ℕ) → o ≡ some m → seq < m)
    → seen_value (found_planned pe old) ≡ final
    → (o ≡ none → final ≡ new)
    → (seen_value (found_planned (if t then released seq pe else pe) new) ≡ final)
      × (seq_of (if t then released seq pe else pe) ≡ o)
view_cases seq none old new none true final w above v other = absurd (ground arith)
view_cases seq none old new none false final w above v other = ground (arith, other refl)
view_cases seq none old new (some m) t final w above v other = absurd (ground arith)
view_cases seq (some x) old new none false final w above v other = absurd (ground arith)
view_cases seq (some x) old new none true final w above v other = ground (arith, other refl)
view_cases seq (some x) old new (some m) true final w above v other = ground (arith, above m refl)
view_cases seq (some x) old new (some m) false final w above v other = ground arith

module _ (s : Set) (p : Plan) (q : List Plan) (inv : Pipeline s (p ∷ q)) where
  abbrev looped : Set
  looped = commit_loop p.seq s p.deltas

  abbrev left : Map Entry
  left = replay s.entries p.deltas

  entries_left : looped.entries ≡ left
  entries_left = entries-commit_loop p.seq p.deltas s

  pub left-Distinct : Distinct left
  left-Distinct = replay-Distinct s.entries p.deltas inv.distinct

  hash_left : looped.hash ≡ p.hash
  unfolding replay_plans
  hash_left =
      hash-commit_loop p.seq p.deltas s
      ∙ ap (λ h. digest_run s.entries h p.deltas) inv.hash
      ∙ inv.order.3
      ∙ sym inv.order.2

  view_left :
      (k : Str)
      → (seen_value (lookup_value looped k) ≡ lookup k (replay_plans left q))
        × (seq_of (lookup k looped.pend) ≡ owner k q)
  unfolding lookup_value
  view_left k =
      rw (lookup-pend-commit_loop p.seq k p.deltas s inv.distinct_pend, entries_left)
        (view_cases p.seq (lookup k s.pend) (lookup k s.entries) (lookup k left) (owner k q)
          (touches k p.deltas) (lookup k (replay_plans left q)) (unfold owner in inv.owners k)
          (λ m e. owner_above k p.seq m left q inv.order.4 e) (unfold replay_plans in inv.view k)
          (λ e. lookup-replay_plans_other k q left left-Distinct e))

  abbrev renumbered : Set
  renumbered = record looped { seq = p.seq }

  renumbered-Pipeline : Pipeline renumbered q
  unfolding lookup_value
  renumbered-Pipeline =
      let frame : SameFrame looped s = commit_loop-SameFrame p.seq p.deltas s in
      record {
        distinct = rw entries_left left-Distinct;
        distinct_pend = pend-commit_loop-Distinct p.seq p.deltas s inv.distinct_pend;
        hash = rw (entries_left, hash_left) inv.order.2;
        view = λ k. rw entries_left (rw entries_left at ((view_left k).0));
        size = rw entries_left (frame.pend_size ∙ unfold replay_plans in inv.size);
        pend_hash = rw entries_left (frame.pend_hash ∙ unfold replay_plans in inv.pend_hash);
        seq = frame.pend_seq ∙ unfold last_seq in inv.seq;
        order = rw entries_left inv.order.4;
        owners = λ k. (view_left k).1;
      }

reset-Pipeline :
    (s : Set)
    → Pipeline s []
    → Pipeline
        (record s { pend_seq = s.seq; pend_hash = s.hash; pend_size = pos (length s.entries) })
        []
unfolding replay_plans last_seq lookup_value
reset-Pipeline s inv = record {
  distinct = inv.distinct;
  distinct_pend = inv.distinct_pend;
  hash = inv.hash;
  view = inv.view;
  size = refl;
  pend_hash = inv.hash;
  seq = refl;
  order = tt;
  owners = inv.owners;
}

length-zero_nil {ℓ} : {A : Type ℓ} (xs : List A) → (length xs == 0) ≡ true → xs ≡ []
length-zero_nil [] h = refl
length-zero_nil (x ∷ xs) h = absurd (ground arith)

-- Where no pending entry is left, no plan waits, and the running values start again.
commit_finish-Pipeline : (s : Set) (q : List Plan) → Pipeline s q → Pipeline (commit_finish s) q
unfolding commit_finish
commit_finish-Pipeline s q inv = elim (Bool-cases (length s.pend == 0)) [
  | inr e ↦ rw e inv
  | inl e ↦
      let none_left : q ≡ [] =
        unowned-nil s.seq s.entries q inv.order
          (λ k. sym (inv.owners k) ∙ rw (length-zero_nil s.pend e) (unfold lookup in refl)) in
      rw (e, none_left) (reset-Pipeline s (subst (Pipeline s) none_left inv))
]

commit_finish_kept :
    (s : Set)
    → ((commit_finish s).seq ≡ s.seq)
      × ((commit_finish s).hash ≡ s.hash)
      × ((commit_finish s).entries ≡ s.entries)
unfolding commit_finish
commit_finish_kept s = ground arith

-- Commit of the oldest waiting plan, on a set that satisfies the invariant: the change carries the
-- number and the hash that the plan foretold, the content is what the plan's deltas make of it,
-- and the invariant holds for the plans that are left.
pub commit-Pipeline :
    (s : Set) (p : Plan) (q : List Plan) (now : ℤ)
    → Pipeline s (p ∷ q)
    → ((commit s p now).1
        ≡ some (record { seq = p.seq; hash = p.hash; at = now; deltas = p.deltas }))
      × ((commit s p now).0.entries ≡ replay s.entries p.deltas)
      × Pipeline (commit s p now).0 q
unfolding commit
commit-Pipeline s p q now inv =
    let u = renumbered s p q inv in
    let kept = commit_finish_kept u in
    let nonempty : (length p.deltas == 0) ≡ false = ground (arith, inv.order.1) in
    rw nonempty (
      λ i. some (record {
        seq = kept.0 i;
        hash = (kept.1 ∙ hash_left s p q inv) i;
        at = now;
        deltas = p.deltas;
      }),
      kept.2 ∙ entries_left s p q inv,
      commit_finish-Pipeline u q (renumbered-Pipeline s p q inv),
    )

-- Abort, on a set that satisfies the invariant: it holds with no plan waiting, and the committed
-- content, hash and number are kept.
pub abort-Pipeline :
    (s : Set) (q : List Plan)
    → Pipeline s q
    → Pipeline (abort s) []
      × ((abort s).entries ≡ s.entries)
      × ((abort s).hash ≡ s.hash)
      × ((abort s).seq ≡ s.seq)
unfolding abort settle lookup_value replay_plans owner last_seq lookup
abort-Pipeline s q inv = (
  record {
    distinct = inv.distinct;
    distinct_pend = tt;
    hash = inv.hash;
    view = λ k. ground arith;
    size = refl;
    pend_hash = inv.hash;
    seq = refl;
    order = tt;
    owners = λ k. refl;
  },
  refl,
  refl,
  refl,
)
