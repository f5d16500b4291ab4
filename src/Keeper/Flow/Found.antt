-- ===== src/Keeper/Flow/Found.antt =====
-- An event from Submit to Lookup, through internal/keeper/keeper.go and internal/set/set.go.
use mathlib.Core.Path.{subst}
use placitum_keeper.Base.{
  zero, ℕ, ◌+◌, ◌^◌, ◌<◌, ◌≡◌, refl, sym, ap, ◌∙◌, Bool, true, false, not, some, Str, str_eq,
  str_eq_iff, List, [], ◌∷◌, map, All, if◌then◌else◌, inl, inr, either, Bool-cases, arith, length,
  ◌==◌,
}
use placitum_keeper.Base.Int.{ℤ, ◌<ℤ◌}
use placitum_keeper.Base.Maps.{Map, lookup}
use placitum_keeper.Base.Results.{ok}
use placitum_keeper.Keeper.Committer.{commit_next, commit_batch}
use placitum_keeper.Keeper.Flow.{Sound, plan_results_frame}
use placitum_keeper.Keeper.Flow.Commits.{fail_kept, publish_kept}
use placitum_keeper.Keeper.Flow.Accepted.{accepted-Has}
use placitum_keeper.Keeper.Flow.Adds.{Has}
use placitum_keeper.Keeper.Planner.{
  admit, no_admission, fresh_reads, always, plan_jobs, value_of, zero_plan,
}
use placitum_keeper.Keeper.Serve.{lookup_set, found_reply}
use placitum_keeper.Keeper.Submit.{
  check_event, contains_str, event_ttl, event_values, expiry, stored_value,
}
use placitum_keeper.Keeper.Submit.Complete.{IsIn, IsAdd, check_event-IsAdd}
use placitum_keeper.Keeper.Types.{Options, Job, Holder, Batch}
use placitum_keeper.Sets.Canon.{md5_hex}
use placitum_keeper.Sets.Netip.{Library}
use placitum_keeper.Sets.State.{unix_milli, abort, settle}
use placitum_keeper.Sets.Committing.{commit, commit_finish}
use placitum_keeper.Sets.Committing.Loop.{commit_loop-SameFrame}
use placitum_keeper.Sets.Planning.{plan, plan_finish}
use placitum_keeper.Sets.Types.{Set, Entry, Record, Plan, Delta, op_add}
use placitum_keeper.Wire.Frames.{Event, LookupReply}

-- The content has an entry of the value that ends at `e`.
abbrev Ends : Map Entry → ℤ → Str → Type 0
Ends m e v = (x : Entry) × (lookup v m ≡ some x) × (x.exp ≡ e)

-- A value of the records has an entry where each record has one.
contained-Ends :
    (m : Map Entry) (e : ℤ) (rs : List Record) (v : Str)
    → All (Has m) rs
    → All (λ r. r.exp ≡ e) rs
    → contains_str v (map value_of rs) ≡ true
    → Ends m e v
contained-Ends m e [] v has timed h = absurd (ground (arith, h))
contained-Ends m e (r ∷ rs) v has timed h = elim (Bool-cases (str_eq r.value v)) [
  | inl is ↦
      let (x, there, ends, o, y) = has.0 in
      subst (Ends m e) ((str_eq_iff r.value v).0 is) (x, there, ends ∙ timed.0)
  | inr other ↦ contained-Ends m e rs v has.1 timed.1 (ground (arith, h))
]

-- Lookup answers that the value is found, with its end.
pub record IsFound (e : ℤ) (r : LookupReply) : Type 0 where
  pub ok : r.ok ≡ true
  pub found : r.found ≡ true
  pub exp : r.exp ≡ e

-- The definition of a set stays through commit and plan.
commit-def : (s : Set) (p : Plan) (now : ℤ) → (commit s p now).0.def ≡ s.def
unfolding commit commit_finish
commit-def s p now = ground (arith, (commit_loop-SameFrame p.seq p.deltas s).def)

abbrev SameDef : Holder → Holder → Type 0
SameDef h g = g.s.def ≡ h.s.def

commit_next-def :
    (opts : Options) (h : Holder) (stored : Bool) (ms : ℕ)
    → (commit_next opts h stored ms).s.def ≡ h.s.def
unfolding commit_next
commit_next-def opts h stored ms = next h.batches
  where
    batch : (g : Holder) (b : Batch) → (commit_batch opts g b stored ms).s.def ≡ g.s.def
    batch g b =
        unfold commit_batch abort settle in
        (either (SameDef g) (not (b.plan.gen == g.s.gen)) _ _
          (ap (λ (t : Set). t.def) (fail_kept _ g b).0)
          (either (SameDef g) (not stored) _ _ (ap (λ (t : Set). t.def) (fail_kept _ _ b).0)
            (ap (λ (t : Set). t.def) (publish_kept opts _ b _).0 ∙ commit-def g.s b.plan b.at)))

    next :
        (bs : List Batch)
        → SameDef h (elim bs [
          | [] ↦ h
          | b ∷ rest ↦ commit_batch opts (record h { batches = rest }) b stored ms
        ])
    next [] = refl
    next (b ∷ rest) = batch (record h { batches = rest }) b

plan_jobs-def :
    (lib : Library) (h : Holder) (seen : ℕ → Set) (now : ℤ) (jobs : List Job)
    → (plan_jobs lib h seen now jobs true).s.def ≡ h.s.def
unfolding plan_jobs
plan_jobs-def lib h seen now jobs =
    let a = admit (fresh_reads seen) now (no_admission (seen zero)) jobs in
    let g : Holder = record h { stats = record (h.stats) { stale = h.stats.stale + a.stale } } in
    let r = plan lib h.s a.deltas in
    either (SameDef h) (length a.deltas == 0) _ _
      (ap (λ (t : Set). t.def) (plan_results_frame lib g now (zero_plan lib) jobs _).2)
      (ap (λ (t : Set). t.def) (plan_results_frame lib (record g { s = r.0 }) now r.1 jobs _).2
        ∙ plan-def lib h.s a.deltas)
  where
    plan-def : (lib : Library) (s : Set) (ds : List Delta) → (plan lib s ds).0.def ≡ s.def
    plan-def lib s ds = unfold plan plan_finish in ground arith

module _ (lib : Library) (s : Set) (ev : Event) (plain : ev.hashed ≡ false) where
  live_reply :
      (x : Entry) (e now : ℤ)
      → x.exp ≡ e
      → unix_milli now <ℤ e
      → IsFound e (found_reply (some x) (unix_milli now))
  live_reply x e now is late = record {
    ok = ground arith;
    found = ground arith;
    exp = ground (arith, is);
  }

  lookup_set-IsFound :
      (vs : List Str) (raw : Str) (e now : ℤ)
      → IsIn lib s.def ev vs raw
      → ((v : Str) → contains_str v vs ≡ true → Ends s.entries e v)
      → unix_milli now <ℤ e
      → IsFound e (lookup_set lib s raw now)
  unfolding lookup_set
  lookup_set-IsFound vs raw e now (v, form, there) ends late =
      let (x, here, same) = ends (stored_value lib s.def ev v) there in
      let kept : stored_value lib s.def ev v ≡ (if s.def.hash then md5_hex lib v else v) =
        ground (arith, plain) in
      rw (lookup_set, form) (rw (sym kept, here) (live_reply x e now same late))

All-map : (P Q : Str → Type 0) (vs : List Str) → ((v : Str) → P v → Q v) → All P vs → All Q vs
All-map P Q [] f all = tt
All-map P Q (v ∷ vs) f all = (f v all.0, All-map P Q vs f all.1)

-- An add that Submit accepts, with values that the sender has not hashed, on a set that is in step and
-- has no waiting batch: where the admission takes its job and the number of the plan does not wrap,
-- Lookup finds every value of the event, as the sender wrote it, once the store has taken the plan,
-- until the expiry that the time to live gives; and it answers with this expiry.
pub event-IsFound :
    (lib : Library) (opts : Options) (h : Holder) (ev : Event) (j : Job) (at now later : ℤ) (ms : ℕ)
    → Sound h
    → h.batches ≡ []
    → h.s.pend_seq + 1 < 2 ^ 64
    → ev.hashed ≡ false
    → j.op ≡ op_add
    → check_event lib h.s.def ev at ≡ ok (op_add, j.recs)
    → (admit (always h.s) now (no_admission h.s) (j ∷ [])).codes ≡ [] ∷ []
    → unix_milli later <ℤ expiry at (event_ttl h.s.def ev)
    → (let g = commit_next opts (plan_jobs lib h (always h.s) now (j ∷ []) true) true ms in
        All
          (λ raw. IsFound (expiry at (event_ttl h.s.def ev)) (lookup_set lib g.s raw later))
          (event_values ev))
event-IsFound lib opts h ev j at now later ms k alone room plain add checked taken late =
    let g = commit_next opts (plan_jobs lib h (always h.s) now (j ∷ []) true) true ms in
    let e = expiry at (event_ttl h.s.def ev) in
    let made : IsAdd lib h.s.def ev at j.recs =
      check_event-IsAdd lib h.s.def ev at j.recs checked in
    let has = accepted-Has lib opts h j k alone room now ms add made.unseen taken in
    let same : g.s.def ≡ h.s.def =
      commit_next-def opts (plan_jobs lib h (always h.s) now (j ∷ []) true) true ms
      ∙ plan_jobs-def lib h (always h.s) now (j ∷ []) in
    All-map (IsIn lib h.s.def ev (map value_of j.recs)) _ (event_values ev)
      (λ raw is.
        lookup_set-IsFound lib g.s ev plain (map value_of j.recs) raw e later
          (subst (λ d. IsIn lib d ev (map value_of j.recs) raw) (sym same) is)
          (λ v. contained-Ends g.s.entries e j.recs v has made.timed) late)
      made.complete
