-- ===== src/Keeper/Durability/Restart.antt =====
-- The goroutines of one set in internal/keeper/keeper.go with the server, in any order of their steps,
-- and a restart after any of them.
use placitum_keeper.Base.{false, All}
use placitum_keeper.Keeper.Durability.{Backed, store_next, commit_next-Backed}
use placitum_keeper.Keeper.Durability.Contents.{CanTake}
use placitum_keeper.Keeper.Durability.Runs.{plan_jobs-Backed, Kept-Backed, expired-Backed}
use placitum_keeper.Keeper.Flow.{current}
use placitum_keeper.Keeper.Flow.Runs.{
  Step, submitted, gathered, planned, swept, committed, Reach, here, later, Room, HasRoom,
  enqueue_job-Kept, gather-Kept,
}
use placitum_keeper.Keeper.Mount.{Random, mount_set}
use placitum_keeper.Keeper.Planner.{gather}
use placitum_keeper.Keeper.Submit.{enqueue_job}
use placitum_keeper.Keeper.Types.{Options, Holder}
use placitum_keeper.Sets.Netip.{Library}
use placitum_keeper.Sets.State.{hash_of}
use placitum_keeper.Store.Redis
use placitum_keeper.Store.Redis.{Redis, IsLawful}
use placitum_keeper.Store.Redis.Recovery.{Continues, mount_set-Continues}

-- Only the committer writes to the server.
abbrev pub server :
    {lib : Library} {opts : Options} {h g : Holder} (R : Redis)
    → Step lib opts h g
    → R.State
    → R.State
server R (submitted load j choice) st = st
server R (gathered k first rest is) st = st
server R (planned seen now jobs) st = st
server R (swept now) st = st
server {opts = opts} {h = h} R (committed stored ms) st = store_next R opts h st stored

-- The records that are planned can be stored: expiry, origin and hash are read back as they are.
abbrev pub Storable : {lib : Library} {opts : Options} {h g : Holder} → Step lib opts h g → Type 0
Storable (submitted load j choice) = Unit {0}
Storable (gathered k first rest is) = Unit {0}
Storable {lib = lib} {h = h} (planned seen now jobs) =
    All (CanTake lib h.s.key h.s.def.type (hash_of lib h.s)) jobs
Storable (swept now) = Unit {0}
Storable (committed stored ms) = Unit {0}

unfoldable pub server_after :
    {lib : Library} {opts : Options} {start h : Holder} (R : Redis)
    → Reach lib opts start h
    → R.State
    → R.State
unfolding store_next
server_after R here st = st
server_after R (later r step) st = server R step (server_after R r st)

unfoldable pub AllStored :
    {lib : Library} {opts : Options} {start h : Holder} → Reach lib opts start h → Type 0
AllStored here = Unit {0}
AllStored (later r step) = AllStored r × Storable step

module _ (lib : Library) (opts : Options) (R : Redis) (L : IsLawful R) where
  pub Step-Backed :
      (st : R.State) (h g : Holder) (step : Step lib opts h g)
      → Backed lib R st h
      → Room h
      → Storable step
      → Backed lib R (server R step st) g
  Step-Backed st h _ (submitted load j choice) k room can =
      Kept-Backed lib R st (enqueue_job opts h load j choice).0 h
        (enqueue_job-Kept opts h load j choice) k
  Step-Backed st h _ (gathered n first rest is) k room can =
      Kept-Backed lib R st (gather opts n (record h { jobs = rest }) first).0
        (record h { jobs = rest }) (gather-Kept opts n (record h { jobs = rest }) first)
        (record {
          sound = record { pipeline = k.sound.pipeline; old = k.sound.old };
          synced = k.synced;
          ready = k.ready;
        })
  Step-Backed st h _ (planned seen now jobs) k room can =
      plan_jobs-Backed lib R st h seen now jobs k can room.0
  Step-Backed st h _ (swept now) k room can = expired-Backed lib R st h now k
  Step-Backed st h _ (committed stored ms) k room can =
      commit_next-Backed lib R L opts h st stored ms k room.1

  pub Reach-Backed :
      {start h : Holder} (r : Reach lib opts start h) (st : R.State)
      → Backed lib R st start
      → HasRoom r
      → AllStored r
      → Backed lib R (server_after R r st) h
  unfolding server_after HasRoom AllStored
  Reach-Backed here st k room can = k
  Reach-Backed (later r step) st k room can =
      Step-Backed (server_after R r st) _ _ step (Reach-Backed r st k room.0 can.0) room.1 can.1

  -- Whatever the goroutines of a set do, in any order, a restart at that moment goes on with the
  -- set as it was committed last: mount on what the server then has keeps the stored state, the
  -- epoch, the key, the number, the hash and the content. It starts from a set in step with the
  -- server, which meets the laws; the records that are planned can be stored, a transaction that
  -- reports an error did not run, and the two counters of the set do not wrap.
  pub Reach-Continues :
      {start h : Holder} (r : Reach lib opts start h) (st : R.State)
      → Backed lib R st start
      → HasRoom r
      → AllStored r
      → (r1 r2 : Random)
      → Continues h.s
          (mount_set lib h.s.def false (Redis.load R (server_after R r st) h.s.def.name) r1 r2)
  Reach-Continues {h = h} r st k room can r1 r2 =
      let now = Reach-Backed r st k room can in
      mount_set-Continues lib R L (server_after R r st) h.s now.synced (current h.s.gen h.batches)
        now.sound.pipeline r1 r2
