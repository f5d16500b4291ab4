-- ===== src/Tests.antt =====
-- The theorems at concrete inputs, and runs of the definitions: a set of two values at most, with
-- one plan made, committed and given up.
mod Restart
mod Messages
mod Timers
use placitum_keeper.Base.{
  ℕ, ◌+◌, ◌^◌, ◌<◌, ◌≤◌, ◌≡◌, ◌≢◌, refl, sym, ◌∙◌, true, false, ◌⊎◌, some, none, Str, List, [], ◌∷◌,
  length, codes, All, map, arith, inr, str_eq, if◌then◌else◌,
}
use placitum_keeper.Base.Int.{ℤ, ◌+ℤ◌, ◌≤ℤ◌, pos}
use placitum_keeper.Base.Maps.{lookup, Distinct}
use placitum_keeper.Base.Results.{ok}
use placitum_keeper.Keeper.Flow.Commits.{commit_next-Sound, commit_next_promise}
use placitum_keeper.Keeper.Committer.{commit_next}
use placitum_keeper.Store.Commands.{present, absent}
use placitum_keeper.Keeper.Mount.{
  Keeper, Random, Outside, resume_or_load, reload, define, contains_name, mount_all, mount,
  mount_set, install, same_definition,
}
use placitum_keeper.Keeper.Flow.Defined.{IsDefined, define-IsDefined}
use placitum_keeper.Keeper.Flow.Reloaded.{HoldsAll, reload-HoldsAll}
use placitum_keeper.Base.Maps.Keys.{has_key}
use placitum_keeper.Base.{◌&&◌, not}
use placitum_keeper.Keeper.Flow.Runs.{Reach, here, later, submitted, planned, HasRoom, Reach-Sound}
use placitum_keeper.Keeper.Serve.{choose_snapshot, sub_ℤ}
use placitum_keeper.Keeper.Serve.Freshness.{Chosen, choose_snapshot_lem}
use placitum_keeper.Keeper.Types.Defaults.{IsUsable, normalise-IsUsable}
use placitum_keeper.Keeper.Planner.{always, plan_jobs, gather}
use placitum_keeper.Keeper.Queue.{waiting, gather-IsExact}
use placitum_keeper.Keeper.Submit.{offer_job, enqueue_job, accepted, collect, event_values}
use placitum_keeper.Keeper.Submit.Collect.{Collected, collect-Collected}
use placitum_keeper.Keeper.Types.{normalise, SnapObj, Options, Job, Batch, Holder, new_holder}
use placitum_keeper.Sets.Committing.{commit}
use placitum_keeper.Sets.Expiry.{expired}
use placitum_keeper.Sets.Ideal.{replay, digest, ideal_run}
use placitum_keeper.Sets.Expiry.Due.{IsDue, expired-IsDue}
use placitum_keeper.Sets.Load.{load, resume}
use placitum_keeper.Sets.Load.Content.{load-Pipeline}
use placitum_keeper.Store.Meta.{Meta}
use placitum_keeper.Wire.Frames.{Event}
use placitum_keeper.Wire.Pack.{
  PackHead, PackRecord, pack, unpack, sort_records, insert_sorted, less, rec_add, kind_snapshot,
}
use placitum_keeper.Wire.Pack.Order.{IsSorted, sizes, sort_records_lem, length-pack}
use placitum_keeper.Wire.Pack.RoundTrip.{carried}
use placitum_keeper.Wire.Pack.Whole.{written, unpack-pack}
use placitum_keeper.Config.Settings.{load_config}
use placitum_keeper.Config.Settings.Checks.{Holds, IsValid, load_config-IsValid}
use placitum_keeper.Sets.SipHash.{sip_hash_bytes}
use mathlib.Core.List.{Perm}
use placitum_keeper.Sets.Netip.{Library, zero_prefix}
use placitum_keeper.Sets.Pipeline.{Pipeline, replay_plans}
use placitum_keeper.Sets.Pipeline.Dequeue.{commit-Pipeline, abort-Pipeline}
use placitum_keeper.Sets.Pipeline.Enqueue.{enqueue, plan-Pipeline, plan-ideal}
use placitum_keeper.Sets.Pipeline.Limit.{plan_limit}
use placitum_keeper.Sets.Planning.{plan, plan_loop, plan_step, plan_add, plan_lookup, plan_finish}
use placitum_keeper.Sets.State.{new, abort, hash_of, lookup_value, unix_milli}
use placitum_keeper.Sets.Types.{
  Set, Definition, Record, Delta, Plan, op_add, op_remove, type_string,
}
use placitum_keeper.Keeper.Flow.{Sound, plan_jobs-Sound, expired-Pipeline}
use placitum_keeper.Keeper.Flow.Mounted.{new-Pipeline, resume_or_load_lem}

abbrev lib : Library
lib = record {
  parse_prefix = λ v. none;
  parse_addr = λ v. none;
  prefix_string = λ p. [];
  md5_sum = λ v. v;
}

abbrev banned : Definition
banned = record {
  id = codes "1";
  name = codes "banned";
  type = type_string;
  limit = pos 2;
  ttl = pos 60;
  active = true;
  hash = false;
}

abbrev key : List ℕ
key = 0 ∷ 1 ∷ 2 ∷ 3 ∷ 4 ∷ 5 ∷ 6 ∷ 7 ∷ 8 ∷ 9 ∷ 10 ∷ 11 ∷ 12 ∷ 13 ∷ 14 ∷ 15 ∷ []

abbrev rec_a : Record
rec_a = record {
  value = codes "a";
  exp = pos 90_000;
  origin = codes "me";
  reason = codes "test";
  prefix = zero_prefix;
}

abbrev add_a : Delta
add_a = record { op = op_add; rec = rec_a; hash = 0 }

abbrev drop_a : Delta
drop_a = record { op = op_remove; rec = rec_a; hash = 0 }

abbrev empty_set : Set
empty_set = new banned 16 7 key

empty_set-Pipeline : Pipeline empty_set []
empty_set-Pipeline = new-Pipeline banned 16 7 key

empty_set-room : empty_set.pend_seq + 1 < 2 ^ 64
unfolding new
empty_set-room = omega arith

abbrev one_set : Set
one_set = (plan lib empty_set (add_a ∷ [])).0

abbrev one_plan : Plan
one_plan = (plan lib empty_set (add_a ∷ [])).1

plan-Pipeline_example : Pipeline one_set (enqueue [] one_plan)
plan-Pipeline_example =
    plan-Pipeline empty_set [] empty_set-Pipeline lib (add_a ∷ []) empty_set-room

plan-ideal_example :
    (let i =
        ideal_run
          (hash_of lib empty_set)
          empty_set.def.limit
          (record { content = replay_plans empty_set.entries []; rejected = [] })
          (add_a ∷ drop_a ∷ add_a ∷ []) in
      (replay
          (replay_plans empty_set.entries [])
          (plan lib empty_set (add_a ∷ drop_a ∷ add_a ∷ [])).1.deltas
        ≡ i.content)
      × ((plan lib empty_set (add_a ∷ drop_a ∷ add_a ∷ [])).1.rejected ≡ i.rejected))
plan-ideal_example = plan-ideal empty_set [] empty_set-Pipeline lib (add_a ∷ drop_a ∷ add_a ∷ [])

one_plan-Pipeline : Pipeline one_set (one_plan ∷ [])
unfolding plan plan_loop plan_step plan_add plan_lookup plan_finish lookup_value lookup new str_eq
one_plan-Pipeline = plan-Pipeline empty_set [] empty_set-Pipeline lib (add_a ∷ []) empty_set-room

commit-Pipeline_example :
    ((commit one_set one_plan (pos 5)).1
      ≡ some (record {
        seq = one_plan.seq;
        hash = one_plan.hash;
        at = pos 5;
        deltas = one_plan.deltas;
      }))
    × ((commit one_set one_plan (pos 5)).0.entries ≡ replay one_set.entries one_plan.deltas)
    × Pipeline (commit one_set one_plan (pos 5)).0 []
commit-Pipeline_example = commit-Pipeline one_set one_plan [] (pos 5) one_plan-Pipeline

abort-Pipeline_example :
    Pipeline (abort one_set) []
    × ((abort one_set).entries ≡ one_set.entries)
    × ((abort one_set).hash ≡ one_set.hash)
    × ((abort one_set).seq ≡ one_set.seq)
abort-Pipeline_example = abort-Pipeline one_set (one_plan ∷ []) one_plan-Pipeline

plan_limit_example :
    length (replay (replay_plans empty_set.entries []) (plan lib empty_set (add_a ∷ [])).1.deltas)
    ≤ 2
unfolding new replay_plans
plan_limit_example =
    plan_limit lib empty_set [] 2 (add_a ∷ []) empty_set-Pipeline refl (omega arith) (omega arith)

load-Pipeline_example : Pipeline (load lib empty_set (rec_a ∷ rec_a ∷ [])) []
load-Pipeline_example = load-Pipeline lib empty_set (rec_a ∷ rec_a ∷ [])

abbrev loaded_set : Set
loaded_set = load lib empty_set (rec_a ∷ [])

expired-IsDue_example :
    All
      (IsDue loaded_set (unix_milli (pos 100_000_000_000)))
      (expired loaded_set (pos 100_000_000_000)).1
expired-IsDue_example = expired-IsDue loaded_set (pos 100_000_000_000)

-- The keeper.
abbrev options : Options
options = record {
  name = codes "keeper";
  tick = pos 2_000_000_000;
  sweep = pos 1_000_000_000;
  batch_max = pos 100;
  coalesce = pos 0;
  queue_max = pos 1;
  pipeline = pos 4;
  diff_ttl = pos 90_000_000_000;
  snapshot_ttl = pos 30_000_000_000;
  inline_max = pos 1024;
}

abbrev job_a : Job
job_a = record { op = op_add; recs = rec_a ∷ []; reply = some 3; deadline = none }

abbrev idle : Holder
idle = new_holder empty_set

idle-Sound : Sound idle
idle-Sound = record { pipeline = empty_set-Pipeline; old = tt }

-- A job is submitted and planned.
abbrev run : Reach lib options idle (
    plan_jobs lib
      (enqueue_job options idle idle.queued job_a accepted).0
      (always empty_set)
      (pos 5)
      (job_a ∷ [])
      true)
run =
    later (later here (submitted idle.queued job_a accepted))
      (planned (always empty_set) (pos 5) (job_a ∷ []))

run-room : HasRoom run
unfolding HasRoom enqueue_job offer_job ◌+ℤ◌ new
run-room = ((tt, (omega arith, omega arith)), (omega arith, omega arith))

Reach-Sound_example : Sound (
    plan_jobs lib
      (enqueue_job options idle idle.queued job_a accepted).0
      (always empty_set)
      (pos 5)
      (job_a ∷ [])
      true)
Reach-Sound_example = Reach-Sound run idle-Sound run-room

abbrev batch_a : Batch
batch_a = record {
  at = pos 5;
  jobs = job_a ∷ [];
  results = [];
  plan = one_plan;
  pkg_key = codes "k";
  pkg = [];
}

abbrev busy : Holder
busy = record (new_holder one_set) { batches = batch_a ∷ [] }

one_gen : (one_plan.gen ≡ 0) × (one_set.gen ≡ 0)
unfolding plan plan_loop plan_step plan_add plan_lookup plan_finish lookup_value lookup new str_eq
one_gen = (refl, refl)

busy-Sound : Sound busy
busy-Sound = record {
  pipeline = rw (one_gen.0, one_gen.1) one_plan-Pipeline;
  old = (rw (one_gen.0, one_gen.1) (omega arith), tt);
}

busy-room : busy.s.gen + 1 < 2 ^ 64
busy-room = rw one_gen.1 (omega arith)

commit_next_promise_example :
    ((commit_next options busy true 8).s.entries ≡ replay one_set.entries one_plan.deltas)
    × ((commit_next options busy true 8).s.hash ≡ one_plan.hash)
    × ((commit_next options busy true 8).s.seq ≡ one_plan.seq)
commit_next_promise_example =
    commit_next_promise options busy batch_a [] 8 busy-Sound refl (one_gen.0 ∙ sym one_gen.1)

abbrev random_1 : Random
random_1 = record { seq0 = 16; epoch = 7; key = key }

abbrev random_2 : Random
random_2 = record { seq0 = 32; epoch = 9; key = key }

-- The meta of a set with no value.
abbrev stored_meta : Meta
stored_meta = record {
  id = codes "1";
  type = type_string;
  epoch = 7;
  key = key;
  seq = 20;
  hash = 0;
}

resume_or_load_lem_example :
    (let s = resume_or_load lib banned stored_meta (rec_a ∷ []) random_1 random_2 in
      (s.epoch ≡ 7) × (s.key ≡ key) × (s.seq ≡ 20) × (digest s.entries ≡ 0))
    ⊎ (((resume lib (new banned 16 7 key) 7 key 20 (rec_a ∷ [])).hash ≢ 0)
        × (resume_or_load lib banned stored_meta (rec_a ∷ []) random_1 random_2
            ≡ load lib (new banned 32 9 key) (rec_a ∷ [])))
resume_or_load_lem_example =
    resume_or_load_lem lib banned stored_meta (rec_a ∷ []) random_1 random_2

abbrev keeper : Keeper
keeper = record { sets = (codes "banned", busy) ∷ []; ready = true; dropped = [] }

abbrev outside : Outside
outside = record {
  loaded = present stored_meta (rec_a ∷ []);
  first = random_1;
  again = random_2;
  reset = true;
}

-- The catalog has another list too, and the store has nothing of it.
abbrev other : Definition
other = record banned { id = codes "2"; name = codes "other" }

abbrev catalog : List (Definition × Outside)
catalog = (banned, outside) ∷ (other, record outside { loaded = absent }) ∷ []

keeper-Distinct : Distinct keeper.sets
unfolding lookup
keeper-Distinct = (refl, tt)

reload-HoldsAll_example :
    HoldsAll (reload lib keeper catalog).0 catalog
    × ((j : Str)
        → (has_key j (reload lib keeper catalog).0.sets && not (contains_name j catalog)) ≡ false)
unfolding reload mount_all mount lookup same_definition mount_set install str_eq plan
reload-HoldsAll_example =
    reload-HoldsAll lib keeper catalog keeper-Distinct (((refl, refl), tt), (tt, tt)) refl

define-IsDefined_example :
    IsDefined keeper
      (codes "banned")
      (ok (some banned))
      outside
      (define lib keeper (codes "banned") (ok (some banned)) outside)
define-IsDefined_example =
    define-IsDefined lib keeper (codes "banned") (ok (some banned)) outside keeper-Distinct

-- The store took each object three nanoseconds before the clock was read after its Put.
abbrev taken : SnapObj → ℤ
taken o = sub_ℤ o.at (pos 3)

taken_late : (at : ℤ) → at ≤ℤ (sub_ℤ at (pos 3) +ℤ pos 3)
unfolding ◌+ℤ◌
taken_late at = ground arith

choose_snapshot_lem_example :
    Chosen options idle.s taken 3 idle.snap
      (pos 5)
      true
      (pos 9)
      (choose_snapshot lib options idle (pos 5) true (pos 9)).1
choose_snapshot_lem_example =
    choose_snapshot_lem lib options idle taken 3 (pos 5) true (pos 9) (λ o. taken_late o.at)

abbrev waiting_holder : Holder
waiting_holder = record idle { jobs = job_a ∷ []; queued = pos 1 }

gather-IsExact_example :
    (gather options 2 (record waiting_holder { jobs = [] }) job_a).0.queued
    ≡ pos (waiting (gather options 2 (record waiting_holder { jobs = [] }) job_a).0.jobs)
unfolding waiting
gather-IsExact_example = gather-IsExact options 2 waiting_holder job_a [] refl

abbrev event : Event
event = record {
  v = pos 1;
  set = codes "banned";
  op = op_add;
  value = codes "a";
  values = codes "b" ∷ codes " a" ∷ [];
  ttl = pos 60;
  origin = codes "me";
  reason = codes "test";
  forever = false;
  hashed = false;
}

-- Packages.
abbrev head_2 : PackHead
head_2 = record {
  kind = kind_snapshot;
  type = 2;
  flags = 1;
  epoch = 7;
  seq = 17;
  hash = 1234;
  key = key;
  count = 0;
}

abbrev pack_b : PackRecord
pack_b = record {
  op = rec_add;
  prefix = zero_prefix;
  value = codes "b";
  exp = pos 90_000;
  reason = codes "test";
}

abbrev pack_a : PackRecord
pack_a = record { op = rec_add; prefix = zero_prefix; value = codes "a"; exp = pos 0; reason = [] }

unpack-pack_example :
    unpack (pack head_2 (pack_b ∷ pack_a ∷ []))
    ≡ ok
        (record head_2 { count = 2 }, map (carried false 1) (written head_2 (pack_b ∷ pack_a ∷ [])))
unpack-pack_example =
    unpack-pack head_2 (pack_b ∷ pack_a ∷ [])
      (inr refl, omega arith, omega arith, omega arith, refl)
      (
        ((omega arith, omega arith), omega arith, omega arith),
        (((omega arith, omega arith), omega arith, omega arith), tt),
      )
      (omega arith)

-- The snapshot is written in the order of the values.
written_in_order : written head_2 (pack_b ∷ pack_a ∷ []) ≡ pack_a ∷ pack_b ∷ []
unfolding sort_records insert_sorted less
written_in_order = refl

length-pack_example :
    length (pack head_2 (pack_b ∷ pack_a ∷ [])) ≡ 52 + sizes 2 1 (pack_b ∷ pack_a ∷ [])
length-pack_example = length-pack head_2 (pack_b ∷ pack_a ∷ []) refl

abbrev environment : Str → Str
environment name =
    if str_eq name (codes "WAF_KEEPER_REDIS_URL") then codes "redis://redis:6379" else []

load_config-IsValid_example : Holds IsValid (load_config (λ v. none) environment)
load_config-IsValid_example = load_config-IsValid (λ v. none) environment

-- The reference value of SipHash-2-4 for fifteen bytes.
sip_vector :
    sip_hash_bytes key (0 ∷ 1 ∷ 2 ∷ 3 ∷ 4 ∷ 5 ∷ 6 ∷ 7 ∷ 8 ∷ 9 ∷ 10 ∷ 11 ∷ 12 ∷ 13 ∷ 14 ∷ [])
    ≡ 0xa129ca6149be45e5
unfolding sip_hash_bytes
sip_vector = refl
