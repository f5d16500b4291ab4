-- ===== src/Tests/Restart.antt =====
-- Runs of a set with a server in memory: what is stored, and what a restart makes of it.
use placitum_keeper.Base.{
  ◌+◌, ◌^◌, ◌<◌, ◌≡◌, refl, true, false, some, [], ◌∷◌, codes, All, arith, inl, str_eq,
  if◌then◌else◌, length,
}
use placitum_keeper.Base.Floats.{float_of_small}
use placitum_keeper.Base.Bytes.{IsByte}
use placitum_keeper.Base.Int.{pos, ◌+ℤ◌}
use placitum_keeper.Base.Maps.{lookup, Distinct}
use placitum_keeper.Keeper.Durability.{Ready, Backed, store_next, commit_next-Backed}
use placitum_keeper.Keeper.Durability.Restart.{AllStored, server_after, Reach-Continues}
use placitum_keeper.Keeper.Durability.Lives.{
  Life, begun, worked, IsUsual, first_set, reset_for, mounted_holder, Life-Backed,
}
use placitum_keeper.Store.Commands.{absent}
use placitum_keeper.Keeper.Flow.Runs.{Reach, here, later, planned, committed, HasRoom}
use placitum_keeper.Keeper.Types.{Holder}
use placitum_keeper.Keeper.Durability.Contents.{CanTake}
use placitum_keeper.Keeper.Committer.{commit_next}
use placitum_keeper.Keeper.Mount.{Mounted, mount_set, meta_of, publish_tick}
use placitum_keeper.Keeper.Planner.{
  always, plan_jobs, admit, admit_job, admit_add, plan_results, results_for, split_results,
  answer_all, answer,
}
use placitum_keeper.Sets.Planning.{plan, plan_loop, plan_step, plan_add, plan_lookup, plan_finish}
use placitum_keeper.Sets.Ideal.{replay}
use placitum_keeper.Sets.Material.{hash_value, material}
use placitum_keeper.Sets.SipHash.{sip_hash_bytes}
use placitum_keeper.Sets.State.{new, hash_of, lookup_value, fresh}
use placitum_keeper.Store.Meta.{Meta, parse_meta, meta_fields, meta_key, why_key, set_key}
use placitum_keeper.Store.Meta.RoundTrip.{IsMeta, parse_meta_written, meta_fields-Writes}
use placitum_keeper.Store.Redis
use placitum_keeper.Store.Redis.Durable.{Durable, IsForeign, renewed, commit-Durable}
use placitum_keeper.Store.Redis.Memory.{Memory, no_rows, memory_redis, memory_redis-IsLawful}
use placitum_keeper.Store.Redis.Recovery.{Synced, Continues, mount_set-Continues}
use placitum_keeper.Tests.{
  lib, banned, key, add_a, empty_set, empty_set-Pipeline, options, job_a, idle, idle-Sound,
  stored_meta, random_1, random_2,
}

key_bytes : (length key ≡ 16) × All IsByte key
key_bytes = (refl, omega arith)

stored_meta-IsMeta : IsMeta stored_meta
stored_meta-IsMeta = record {
  type = (omega arith, omega arith);
  epoch = omega arith;
  key = key_bytes;
  seq = omega arith;
  hash = omega arith;
}

parse_meta_written_example : parse_meta (meta_fields stored_meta) ≡ some stored_meta
parse_meta_written_example =
    parse_meta_written (meta_fields stored_meta) stored_meta (meta_fields-Writes stored_meta)
      stored_meta-IsMeta

meta_fields-Distinct : (m : Meta) → Distinct (meta_fields m)
unfolding meta_fields lookup str_eq
meta_fields-Distinct m = (refl, (refl, (refl, (refl, (refl, (refl, tt))))))

-- A server with the meta of the set that has no value yet.
abbrev first_memory : Memory
first_memory = record {
  sorted_sets = λ j. no_rows;
  hashes = λ j.
      if str_eq j (meta_key (codes "banned"))
      then record {
        rows = meta_fields (meta_of empty_set);
        distinct = meta_fields-Distinct (meta_of empty_set);
      }
      else no_rows;
}

empty_set-Durable : Durable memory_redis first_memory (codes "banned") (meta_of empty_set) []
unfolding meta_key why_key str_eq lookup
empty_set-Durable = record {
  score = λ v. refl;
  why = λ v. refl;
  meta = meta_fields-Writes (meta_of empty_set);
}

empty_set-Synced : Synced lib memory_redis first_memory empty_set
unfolding new lookup
empty_set-Synced = record {
  held = empty_set-Durable;
  widths = record {
    type = (omega arith, omega arith);
    epoch = omega arith;
    key = key_bytes;
    seq = omega arith;
    hash = omega arith;
  };
  storable = λ v e there. absurd (ground arith);
}

idle-Backed : Backed lib memory_redis first_memory idle
unfolding Ready
idle-Backed = record { sound = idle-Sound; synced = empty_set-Synced; ready = tt }

key_k : IsForeign (codes "k") (codes "banned")
unfolding set_key why_key meta_key str_eq
key_k = record { set = refl; why = refl; meta = refl }

idle-room : idle.s.gen + 1 < 2 ^ 64
unfolding new
idle-room = omega arith

mount_set-Continues_example : Continues empty_set (
    mount_set lib banned false
      (Redis.load memory_redis first_memory (codes "banned"))
      random_1
      random_2)
unfolding new
mount_set-Continues_example =
    mount_set-Continues lib memory_redis memory_redis-IsLawful first_memory empty_set
      empty_set-Synced [] empty_set-Pipeline random_1 random_2

-- The value is planned and stored.
abbrev stored_run :
    Reach lib options idle
      (commit_next options (plan_jobs lib idle (always empty_set) (pos 5) (job_a ∷ []) true) true 8)
stored_run = later (later here (planned (always empty_set) (pos 5) (job_a ∷ []))) (committed true 8)

-- Whatever else the holder has.
planned_counters :
    (h : Holder)
    → ((plan_jobs lib
          (record h { s = empty_set })
          (always empty_set)
          (pos 5)
          (job_a ∷ [])
          true).s.pend_seq
        ≡ 17)
      × ((plan_jobs lib
            (record h { s = empty_set })
            (always empty_set)
            (pos 5)
            (job_a ∷ [])
            true).s.gen
          ≡ 0)
unfolding plan_jobs admit admit_job admit_add plan_results results_for split_results answer_all
    answer plan plan_loop plan_step plan_add plan_lookup plan_finish lookup_value lookup fresh new
    str_eq ◌+ℤ◌
planned_counters h = (refl, refl)

stored_run-room : HasRoom stored_run
unfolding HasRoom new
stored_run-room = (
  (tt, (omega arith, omega arith)),
  (omega (arith, (planned_counters idle).0), omega (arith, (planned_counters idle).1)),
)

job_a-CanTake :
    All (CanTake lib empty_set.key empty_set.def.type (hash_of lib empty_set)) (job_a ∷ [])
unfolding new hash_of hash_value sip_hash_bytes material
job_a-CanTake = (
  (
    (λ e. record {
      exp = float_of_small 90_000 (omega arith);
      origin = (omega arith, (omega arith, tt));
      hash = refl;
      bytes = (omega arith, tt);
    }),
    tt,
  ),
  tt,
)

stored_run-AllStored : AllStored stored_run
unfolding AllStored
stored_run-AllStored = ((tt, job_a-CanTake), tt)

Reach-Continues_example :
    Continues
      (commit_next options
        (plan_jobs lib idle (always empty_set) (pos 5) (job_a ∷ []) true)
        true
        8).s
      (mount_set lib
        (commit_next options
          (plan_jobs lib idle (always empty_set) (pos 5) (job_a ∷ []) true)
          true
          8).s.def
        false
        (Redis.load memory_redis
          (server_after memory_redis stored_run first_memory)
          (commit_next options
            (plan_jobs lib idle (always empty_set) (pos 5) (job_a ∷ []) true)
            true
            8).s.def.name)
        random_1
        random_2)
Reach-Continues_example =
    Reach-Continues lib options memory_redis memory_redis-IsLawful stored_run first_memory
      idle-Backed stored_run-room stored_run-AllStored random_1 random_2

commit_next-Backed_example :
    Backed lib memory_redis
      (store_next memory_redis options idle first_memory true)
      (commit_next options idle true 8)
commit_next-Backed_example =
    commit_next-Backed lib memory_redis memory_redis-IsLawful options idle first_memory true 8
      idle-Backed idle-room

commit-Durable_example :
    Durable memory_redis
      (Redis.commit memory_redis first_memory
        (codes "banned")
        (add_a ∷ [])
        17
        99
        (codes "k")
        []
        (pos 90))
      (codes "banned")
      (renewed (meta_of empty_set) 17 99)
      (replay [] (add_a ∷ []))
commit-Durable_example =
    commit-Durable memory_redis memory_redis-IsLawful first_memory (codes "banned") (add_a ∷ []) 17
      99 (codes "k") [] (pos 90) key_k (meta_of empty_set) [] empty_set-Durable tt (inl refl, tt)

-- A server that has nothing.
abbrev blank : Memory
blank = record { sorted_sets = λ j. no_rows; hashes = λ j. no_rows }

abbrev first_mount : Mounted
first_mount = record { s = first_set banned random_1; keep = false }

blank-absent : Redis.load memory_redis blank (codes "banned") ≡ absent
unfolding Redis.load
blank-absent = refl

mounts_first :
    mount_set lib banned false (Redis.load memory_redis blank (codes "banned")) random_1 random_2
    ≡ some first_mount
unfolding Redis.load mount_set
mounts_first = refl

abbrev first_life :
    Life lib options memory_redis
      (mounted_holder first_mount.s)
      (reset_for memory_redis blank first_mount)
first_life = begun blank banned random_1 random_2 first_mount blank-absent mounts_first

-- The set is mounted, a value is planned and stored.
abbrev life :
    Life lib options memory_redis
      (commit_next options
        (plan_jobs lib (mounted_holder first_mount.s) (always empty_set) (pos 5) (job_a ∷ []) true)
        true
        8)
      (store_next memory_redis options
        (plan_jobs lib (mounted_holder first_mount.s) (always empty_set) (pos 5) (job_a ∷ []) true)
        (reset_for memory_redis blank first_mount)
        true)
life =
    worked (worked first_life (planned (always empty_set) (pos 5) (job_a ∷ []))) (committed true 8)

life-IsUsual : IsUsual life
unfolding IsUsual publish_tick new
life-IsUsual = (
  (empty_set-Synced.widths, (omega arith, omega arith), job_a-CanTake),
  (
    omega (arith, (planned_counters (mounted_holder first_mount.s)).0),
    omega (arith, (planned_counters (mounted_holder first_mount.s)).1),
  ),
  tt,
)

Life-Backed_example :
    Backed lib memory_redis
      (store_next memory_redis options
        (plan_jobs lib (mounted_holder first_mount.s) (always empty_set) (pos 5) (job_a ∷ []) true)
        (reset_for memory_redis blank first_mount)
        true)
      (commit_next options
        (plan_jobs lib (mounted_holder first_mount.s) (always empty_set) (pos 5) (job_a ∷ []) true)
        true
        8)
Life-Backed_example =
    Life-Backed lib memory_redis memory_redis-IsLawful options _ _ life life-IsUsual
