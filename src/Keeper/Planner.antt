-- ===== src/Keeper/Planner.antt =====
-- The planner of internal/keeper/keeper.go: gather, plan, answer and pack, and the sweep.
pub mod Results
pub mod Sweeps
pub mod Room
pub mod Fitting
pub mod Whole
use placitum_keeper.Base.{
  ℕ, zero, suc, ◌+◌, Bool, true, false, ◌&&◌, ◌||◌, Option, some, none, Str, if◌then◌else◌, ◌==◌,
  str_eq, List, [], ◌∷◌, ◌++◌, length, take, drop, codes, map,
}
use placitum_keeper.Base.Int.{neg_of, ℤ, pos, ◌+ℤ◌, ltb_ℤ, pos_part}
use placitum_keeper.Keeper.Types.{Options, Job, JobResult, Batch, Holder, empty_result, code_stale}
use placitum_keeper.Sets.Expiry.{expired}
use placitum_keeper.Sets.Netip.{Library, zero_prefix}
use placitum_keeper.Sets.Planning.{plan}
use placitum_keeper.Sets.State.{fresh, size_of}
use placitum_keeper.Sets.Types.{Set, Plan, Record, Delta, op_add, op_remove}
use placitum_keeper.Store.Meta.{diff_key}
use placitum_keeper.Wire.Frames.{err_bad_request, err_full}
use placitum_keeper.Wire.Pack
use placitum_keeper.Wire.Pack.{
  PackRecord, record_of, pack_type, pack_flags, rec_add, rec_remove, kind_package,
}

-- take: the records of a job that left the queue.
unfoldable pub take_job : Holder → Job → Holder
unfolding ◌+ℤ◌
take_job h j = record h { queued = h.queued +ℤ neg_of (length j.recs) }

-- The loop of gather: `k` jobs arrive before the window or the set closes, and the batch is full
-- at `batch_max` records.
unfoldable pub gather_loop : ℤ → ℕ → ℕ → Holder → List Job → Holder × List Job
unfolding take_job
gather_loop batch_max zero n h jobs = (h, [])
gather_loop batch_max (suc k) n h [] = (record h { jobs = [] }, [])
gather_loop batch_max (suc k) n h (j ∷ jobs) =
    let rest =
      gather_loop batch_max k (n + length j.recs) (take_job (record h { jobs = jobs }) j) jobs in
    if ltb_ℤ (pos n) batch_max then (rest.0, j ∷ rest.1) else (h, [])

unfoldable pub gather : Options → ℕ → Holder → Job → Holder × List Job
unfolding gather_loop
gather opts k h first =
    let g = take_job h first in
    let r = gather_loop opts.batch_max k (length first.recs) g g.jobs in (r.0, first ∷ r.1)

-- The variables of the first loop of plan. `codes` has the code of each job so far, empty for an
-- accepted one.
pub record Admission : Type 0 where
  pub seen : List Str
  pub size : ℤ
  pub deltas : List Delta
  pub codes : List Str
  pub stale : ℕ

abbrev pub is_late : Option ℤ → ℤ → Bool
is_late none now = false
is_late (some d) now = ltb_ℤ d now

abbrev pub value_of : Record → Str
value_of r = r.value

abbrev pub delta_for : Str → Record → Delta
delta_for op r = record { op = op; rec = r; hash = 0 }

abbrev pub accept_job : Job → Admission → Admission
accept_job j a = record a {
  deltas = a.deltas ++ map (delta_for j.op) j.recs;
  codes = a.codes ++ ([] ∷ []);
}

abbrev pub refuse_job : Str → Admission → Admission
refuse_job code a = record a { codes = a.codes ++ (code ∷ []) }

-- An add that does not fit is refused as a whole; `s` is the set as Fresh reads it.
unfoldable pub admit_add : Set → Job → Admission → Admission
unfolding ◌+ℤ◌
admit_add s j a =
    let values = map value_of j.recs in
    let n = fresh s values a.seen in
    if ltb_ℤ s.def.limit (a.size +ℤ pos n)
    then refuse_job err_full a
    else accept_job j (record a { seen = values ++ a.seen; size = a.size +ℤ pos n })

unfoldable pub admit_job : Set → ℤ → Admission → Job → Admission
unfolding admit_add
admit_job s now a j =
    if is_late j.deadline now
    then record (refuse_job code_stale a) { stale = a.stale + 1 }
    else (if length j.recs == 0
        then refuse_job err_bad_request a
        else (if str_eq j.op op_add && ltb_ℤ (pos 0) s.def.limit
            then admit_add s j a
            else accept_job j a))

-- What the admission reads while the committer works: Size and each Fresh take the lock of the set, so
-- `seen 0` is the set as Size reads it, and `seen (i + 1)` as Fresh reads it for job `i`.
abbrev pub Reads : Type 0
Reads = ℕ → Set

abbrev pub fresh_reads : Reads → Reads
fresh_reads seen i = seen (suc i)

-- The set does not change meanwhile.
abbrev pub always : Set → Reads
always s i = s

-- The first loop of plan; `reads` are those of the jobs.
unfoldable pub admit : Reads → ℤ → Admission → List Job → Admission
unfolding admit_job
admit reads now a [] = a
admit reads now a (j ∷ js) = admit (fresh_reads reads) now (admit_job (reads zero) now a j) js

abbrev pub no_admission : Set → Admission
no_admission s = record { seen = []; size = size_of s; deltas = []; codes = []; stale = 0 }

abbrev pub was_rejected : Str → List Record → Bool
was_rejected v [] = false
was_rejected v (r ∷ rs) = str_eq r.value v || was_rejected v rs

-- A job of one record that Plan rejected is full; any other accepted job has the plan's number.
abbrev pub single_rejected : List Record → List Record → Bool
single_rejected [] rejected = false
single_rejected (r ∷ []) rejected = was_rejected r.value rejected
single_rejected (r ∷ x ∷ rs) rejected = false

abbrev pub planned_result : Plan → Job → Str → JobResult
planned_result p j code =
    if length code == 0
    then (if single_rejected j.recs p.rejected
        then record empty_result { code = err_full }
        else record empty_result { seq = p.seq })
    else record empty_result { code = code }

unfoldable pub results_for : Plan → List Job → List Str → List JobResult
results_for p [] cs = []
results_for p (j ∷ js) [] = []
results_for p (j ∷ js) (c ∷ cs) = planned_result p j c ∷ results_for p js cs

-- answer: a stale job and a job of the sweep get none.
abbrev deliver : Option ℕ → JobResult → Holder → Holder
deliver none r h = h
deliver (some chan) r h = record h {
  stats =
      if length r.code == 0
      then record (h.stats) { writes = h.stats.writes + 1 }
      else record (h.stats) { rejects = h.stats.rejects + 1 };
  sent = h.sent ++ ((chan, r) ∷ []);
}

unfoldable pub answer : Holder → Job → JobResult → ℕ → Holder
answer h j r epoch =
    if str_eq r.code code_stale then h else deliver j.reply (record r { epoch = epoch }) h

unfoldable pub answer_all : Holder → List Job → List JobResult → ℕ → Holder
unfolding answer
answer_all h [] rs epoch = h
answer_all h (j ∷ js) [] epoch = h
answer_all h (j ∷ js) (r ∷ rs) epoch = answer_all (answer h j r epoch) js rs epoch

-- The jobs that go on to Commit, and those that are answered at once.
unfoldable pub split_results :
    List Job → List JobResult → (List Job × List JobResult) × (List Job × List JobResult)
split_results [] rs = (([], []), ([], []))
split_results (j ∷ js) [] = (([], []), ([], []))
split_results (j ∷ js) (r ∷ rs) =
    let rest = split_results js rs in
    if length r.code == 0
    then ((j ∷ rest.0.0, r ∷ rest.0.1), rest.1)
    else (rest.0, (j ∷ rest.1.0, r ∷ rest.1.1))

module _ (lib : Library) where
  abbrev pub record_of_delta : Set → Delta → PackRecord
  record_of_delta s d =
      record_of lib s.def.type (if str_eq d.op op_remove then rec_remove else rec_add) d.rec

  -- pack.
  unfoldable pub pack : Set → Plan → Str × List ℕ
  unfolding diff_key
  pack s p = (
    diff_key s.def.name p.seq,
    Pack.pack
        (record {
          kind = kind_package;
          type = pack_type s.def.type;
          flags = pack_flags s.def.type;
          epoch = s.epoch;
          seq = p.seq;
          hash = p.hash;
          key = s.key;
          count = 0;
        })
        (map (record_of_delta s) p.deltas),
  )

  abbrev pub zero_plan : Plan
  zero_plan = record { deltas = []; rejected = []; seq = 0; hash = 0; gen = 0 }

  abbrev pub batch_for : Set → ℤ → Plan → List Job × List JobResult → Batch
  batch_for s now p ready =
      let pkg = pack s p in
      record { at = now; jobs = ready.0; results = ready.1; plan = p; pkg_key = pkg.0; pkg = pkg.1 }

  -- The end of plan: with no delta every job is answered; else the accepted jobs wait for Commit.
  -- `delivered` is false where the set stopped before the batch reached the channel.
  unfoldable pub plan_results : Holder → ℤ → Plan → List Job → List JobResult → Bool → Holder
  unfolding answer_all split_results pack
  plan_results h now p jobs results delivered =
      if length p.deltas == 0
      then answer_all h jobs results h.s.epoch
      else (let parts = split_results jobs results in
          let g = answer_all h parts.1.0 parts.1.1 h.s.epoch in
          if delivered
          then record g { batches = g.batches ++ (batch_for h.s now p parts.0 ∷ []) }
          else g)

  -- plan: `seen` is the set as the admission reads it; the committer may have moved on since.
  unfoldable pub plan_jobs : Holder → Reads → ℤ → List Job → Bool → Holder
  unfolding admit plan plan_results results_for
  plan_jobs h seen now jobs delivered =
      let a = admit (fresh_reads seen) now (no_admission (seen zero)) jobs in
      let g : Holder = record h { stats = record (h.stats) { stale = h.stats.stale + a.stale } } in
      if length a.deltas == 0
      then plan_results g now zero_plan jobs (results_for zero_plan jobs a.codes) delivered
      else (let r = plan lib h.s a.deltas in
          plan_results (record g { s = r.0 }) now r.1 jobs (results_for r.1 jobs a.codes) delivered)

  abbrev expired_record : Str → Str → Record
  expired_record name v = record {
    value = v;
    exp = pos 0;
    origin = name;
    reason = codes "EXPIRED";
    prefix = zero_prefix;
  }

  -- The loop of the sweep: at most `batch_max` values to a plan.
  unfoldable pub sweep_chunks : ℕ → Options → Holder → ℤ → List Str → Holder
  unfolding plan_jobs
  sweep_chunks zero opts h now vals = h
  sweep_chunks (suc f) opts h now [] = h
  sweep_chunks (suc f) opts h now (v ∷ vs) =
      let cut = pos_part opts.batch_max in
      let chunk = take cut (v ∷ vs) in
      let g : Holder = record h {
        stats = record (h.stats) { expired = h.stats.expired + length chunk };
      } in
      let j : Job = record {
        op = op_remove;
        recs = map (expired_record opts.name) chunk;
        reply = none;
        deadline = none;
      } in
      sweep_chunks f opts (plan_jobs g (always g.s) now (j ∷ []) true) now (drop cut (v ∷ vs))

  -- `case <-sweep.C`.
  unfoldable pub sweep : Options → Holder → ℤ → Holder
  unfolding sweep_chunks expired
  sweep opts h now =
      let r = expired h.s now in sweep_chunks (length r.1) opts (record h { s = r.0 }) now r.1
