-- ===== src/Tests/Timers.antt =====
-- The expiry heap, the limit, the whole way of an event and the start of the program at concrete inputs.
use mathlib.Core.List.{Mem}
use placitum_keeper.Base.{
  ℕ, ◌<◌, ◌≡◌, refl, true, false, some, none, Str, List, [], ◌∷◌, codes, arith, length, All,
}
use placitum_keeper.Base.Int.{floor_div, pos, ◌+ℤ◌}
use placitum_keeper.Base.Maps.{lookup, insert}
use placitum_keeper.Base.Results.{ok}
use placitum_keeper.Keeper.Committer.{commit_next}
use placitum_keeper.Keeper.Flow.Accepted.{accepted-Has}
use placitum_keeper.Keeper.Flow.Adds.{Has}
use placitum_keeper.Keeper.Flow.Found.{IsFound, event-IsFound}
use placitum_keeper.Keeper.Serve.{lookup_set}
use placitum_keeper.Keeper.Submit.{check_event, collect, check_ttl, expiry, event_ttl, event_values}
use placitum_keeper.Keeper.Types.{Job}
use placitum_keeper.Base.Int.{wrap64, of_u64, to_u64, ◌*ℤ◌}
use placitum_keeper.Base.Text.{trim_space}
use placitum_keeper.Sets.Canon.{canon_prefix}
use placitum_keeper.Sets.Netip.{zero_prefix}
use placitum_keeper.Sets.Types.{Record, op_add}
use placitum_keeper.Tests.{event, banned}
use placitum_keeper.Sets.Committing.{
  commit, commit_loop, commit_step, commit_add, commit_remove, commit_finish, release,
}
use placitum_keeper.Sets.Ideal.{add_of, remove_of}
use placitum_keeper.Sets.Expiry.{sweep_loop}
use placitum_keeper.Sets.Heap.{push, up_loop}
use placitum_keeper.Sets.Types.{Set, Delta, Plan}
use placitum_keeper.Base.Maps.{erase}
use placitum_keeper.Sets.Planning.{
  plan_loop, plan_step, plan_add, plan_remove, plan_lookup, plan_finish, merge_over,
}
use placitum_keeper.Sets.State.{abort}
use placitum_keeper.Keeper.Planner.{
  always, plan_results, split_results, results_for, answer_all, answer,
}
use placitum_keeper.Keeper.Committer.{commit_batch, fail}
use placitum_keeper.Keeper.Types.{Holder, JobResult, new_holder}
use placitum_keeper.Base.{map}
use placitum_keeper.Keeper.Flow.Reminders.{Reminded, IsTimedRun, IsTimedStep, Reach-Reminded}
use placitum_keeper.Keeper.Planner.{admit, admit_job, admit_add, no_admission, plan_jobs}
use placitum_keeper.Keeper.Planner.Whole.{admitted_whole}
use placitum_keeper.Keeper.Submit.{accepted, enqueue_job}
use placitum_keeper.Program.Start.{World}
use placitum_keeper.Sets.Expiry.{expired, is_planned}
use placitum_keeper.Sets.Expiry.Cover.{expired_twice}
use placitum_keeper.Sets.Heap.{
  init, init_loop, down, down_loop, smaller_child, swap, set_at, at, pop,
}
use placitum_keeper.Sets.Heap.Down.{init-IsHeap}
use placitum_keeper.Sets.Heap.Removal.{Popped, pop-Popped}
use placitum_keeper.Sets.Load.{load, load_loop, load_step}
use placitum_keeper.Sets.Load.Reminders.{load-Covered}
use placitum_keeper.Sets.Planning.{plan, entry_of}
use placitum_keeper.Sets.State.{new, settle, hash_of, fresh, lookup_value}
use placitum_keeper.Sets.Types.{ExpItem, Entry}
use placitum_keeper.Tests.{
  lib, options, idle, idle-Sound, empty_set, empty_set-Pipeline, empty_set-room, rec_a, job_a, run,
  loaded_set, environment, outside,
}
use placitum_keeper.Base.{str_eq}

abbrev timer : ℕ → ExpItem
timer n = record { value = codes "a"; exp = pos n }

-- Four items, in order.
abbrev heap : List ExpItem
heap = init (timer 7 ∷ timer 5 ∷ timer 9 ∷ timer 2 ∷ [])

heap-full : 0 < length heap
unfolding init init_loop down down_loop smaller_child swap set_at at
heap-full = omega arith

pop-Popped_example : Popped heap (pop heap)
pop-Popped_example =
    pop-Popped heap (init-IsHeap (timer 7 ∷ timer 5 ∷ timer 9 ∷ timer 2 ∷ [])).0 heap-full

-- The least of four comes first.
pop_least : (pop heap).0 ≡ timer 2
unfolding init init_loop down down_loop smaller_child swap set_at at pop
pop_least = refl

abbrev entry_a : Entry
entry_a = entry_of rec_a (hash_of lib empty_set rec_a)

entry_a-loaded : lookup (codes "a") loaded_set.entries ≡ some entry_a
unfolding load load_loop load_step settle lookup str_eq insert
entry_a-loaded = refl

entry_a-free : is_planned (lookup (codes "a") loaded_set.pend) ≡ false
unfolding load settle lookup
entry_a-free = refl

expired_twice_example :
    Mem (codes "a") (expired (expired loaded_set (pos 100_000_000_000)).0 (pos 101_000_000_000)).1
unfolding floor_div
expired_twice_example =
    expired_twice loaded_set (pos 100_000_000_000) (pos 101_000_000_000) (codes "a") entry_a
      (load-Covered lib empty_set (rec_a ∷ []) (omega arith, tt)) entry_a-loaded (omega arith)
      (omega arith) (omega arith) entry_a-free

-- A value that is removed and added again has two items, and a sweep hands it out twice.
abbrev plan_of : ℕ → Delta → Plan
plan_of n d = record { deltas = d ∷ []; rejected = []; seq = n; hash = 0; gen = 0 }

abbrev added_again : Set
added_again =
    (commit (commit loaded_set (plan_of 8 (remove_of rec_a 5)) (pos 5)).0
      (plan_of 9 (add_of rec_a 5)) (pos 5)).0

handed_out_twice : (expired added_again (pos 100_000_000_000)).1 ≡ codes "a" ∷ codes "a" ∷ []
unfolding load load_loop load_step settle lookup insert erase str_eq commit commit_loop commit_step
    commit_add commit_remove commit_finish release push up_loop swap set_at at expired sweep_loop
    pop down down_loop smaller_child floor_div init init_loop new
handed_out_twice = refl

idle-Reminded : Reminded idle
unfolding new lookup
idle-Reminded = record {
  covered = record {
    distinct = tt;
    heap = λ c p q r. absurd (omega arith);
    covers = λ v e found. absurd (ground (arith, found));
  };
  timed = tt;
}

run-timed : IsTimedRun run
unfolding IsTimedRun IsTimedStep
run-timed = ((tt, tt), ((omega arith, tt), tt))

Reach-Reminded_example : Reminded (
    plan_jobs lib
      (enqueue_job options idle idle.queued job_a accepted).0
      (always empty_set)
      (pos 5)
      (job_a ∷ [])
      true)
Reach-Reminded_example = Reach-Reminded run idle-Reminded run-timed

admitted_whole_example :
    (plan lib empty_set
      (admit
        (always empty_set)
        (pos 5)
        (no_admission empty_set)
        (job_a ∷ job_a ∷ [])).deltas).1.rejected
    ≡ []
admitted_whole_example =
    admitted_whole lib empty_set [] empty_set-Pipeline (pos 5) (job_a ∷ job_a ∷ [])

job_a-taken :
    (admit (always empty_set) (pos 5) (no_admission empty_set) (job_a ∷ [])).codes ≡ [] ∷ []
unfolding admit admit_job admit_add fresh lookup_value lookup new ◌+ℤ◌ str_eq
job_a-taken = refl

accepted-Has_example :
    All
      (Has
        (commit_next options
          (plan_jobs lib idle (always empty_set) (pos 5) (job_a ∷ []) true)
          true
          8).s.entries)
      (rec_a ∷ [])
accepted-Has_example =
    accepted-Has lib options idle job_a idle-Sound refl empty_set-room (pos 5) 8 refl (refl, tt)
      job_a-taken

abbrev event_record : Str → Record
event_record v = record {
  value = v;
  exp = pos 60_000;
  origin = codes "me";
  reason = codes "test";
  prefix = zero_prefix;
}

-- The job of the event: the third value is the first one again.
abbrev event_job : Job
event_job = record {
  op = op_add;
  recs = event_record (codes "a") ∷ event_record (codes "b") ∷ [];
  reply = some 3;
  deadline = none;
}

event-checked : check_event lib banned event (pos 5) ≡ ok (op_add, event_job.recs)
unfolding check_event collect canon_prefix trim_space check_ttl expiry floor_div wrap64 of_u64
    to_u64 str_eq ◌+ℤ◌ ◌*ℤ◌
event-checked = refl

event-taken :
    (admit (always empty_set) (pos 5) (no_admission empty_set) (event_job ∷ [])).codes ≡ [] ∷ []
unfolding admit admit_job admit_add fresh lookup_value lookup new ◌+ℤ◌ str_eq
event-taken = refl

event-IsFound_example :
    (let g =
        commit_next options
          (plan_jobs lib idle (always empty_set) (pos 5) (event_job ∷ []) true)
          true
          8 in
      All
        (λ raw.
          IsFound
            (expiry (pos 5) (event_ttl banned event))
            (lookup_set lib g.s raw (pos 1_000_000_000)))
        (event_values event))
unfolding floor_div expiry new ◌+ℤ◌ ◌*ℤ◌ wrap64 of_u64 to_u64
event-IsFound_example =
    event-IsFound lib options idle event event_job (pos 5) (pos 5) (pos 1_000_000_000) 8 idle-Sound
      refl empty_set-room refl refl event-checked event-taken (omega arith)

-- The admission sees a removal in flight, the store refuses it, and Plan runs after the abort: a
-- record of an admitted job is rejected, and its sender is told that all is done.
abbrev before_abort : Set
before_abort =
    (plan lib (load lib empty_set (rec_a ∷ event_record (codes "b") ∷ []))
      (remove_of rec_a 0 ∷ [])).0

abbrev pair_job : Job
pair_job = record {
  op = op_add;
  recs = event_record (codes "c") ∷ record (event_record (codes "b")) { exp = pos 61_000 } ∷ [];
  reply = some 3;
  deadline = none;
}

abbrev after_race : Holder
after_race =
    commit_next options
      (plan_jobs lib (new_holder (abort before_abort)) (always before_abort) (pos 5) (pair_job ∷ [])
        true)
      true 8

answered_as_done :
    (lookup (codes "c") after_race.s.entries ≡ none)
    × (map (λ (p : ℕ × JobResult). p.1.code) after_race.sent ≡ [] ∷ [])
unfolding load load_loop load_step settle lookup insert erase str_eq commit commit_loop commit_step
    commit_add commit_remove commit_finish release init init_loop new plan plan_loop plan_step
    plan_add plan_remove plan_lookup lookup_value plan_finish merge_over abort plan_jobs admit
    admit_job admit_add fresh plan_results split_results results_for answer_all answer commit_next
    commit_batch fail ◌+ℤ◌
answered_as_done = (refl, refl)

-- Every server answers, and the catalog has one list.
abbrev world : World Str Str Str Str
world = record {
  parse_duration = λ v. none;
  get = environment;
  opens = λ url i. record { outcome = ok (codes "pool"); cancelled = none };
  dial = λ url o. ok (codes "nats");
  open_state = λ url t. ok (codes "redis");
  pings = λ i. record { outcome = ok tt; cancelled = none };
  rows = ok (
    ok (record {
      id = codes "1";
      name = codes "banned";
      type = codes "string";
      max_entries = pos 2;
      ttl = codes "60";
      active = true;
      hash = false;
    })
        ∷ [],
    none,
  );
  outside = λ d. outside;
  subscribe = λ s. none;
  flush = none;
}
