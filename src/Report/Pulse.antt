-- ===== src/Report/Pulse.antt =====
-- Build of internal/pulse/pulse.go. The frame that shared.NewFrame makes is an argument, with the time
-- in it. The counters are not bounded: none of them loses a count.
use placitum_keeper.Base.{ℕ, ◌+◌, Str, if◌then◌else◌, ltb, List, [], ◌∷◌, ◌++◌, length, codes}
use placitum_keeper.Base.Int.{ℤ, pos, ◌+ℤ◌}
use placitum_keeper.Keeper.Statistics.{SetStat}

pub record Work : Type 0 where
  pub sets : ℕ
  pub entries : ℕ
  pub writes : ℕ
  pub rejects : ℕ
  pub snapshots : ℕ
  pub packs : ℕ
  pub expired : ℕ
  pub queued : ℤ
  pub overloaded : ℕ
  pub stale : ℕ

pub record Error : Type 0 where
  pub at : Str
  pub msg : Str
  pub count : ℕ
  pub source : Str

pub record Message (F : Type 0) : Type 0 where
  pub frame : F
  pub work : Work
  pub sets : List SetStat
  pub errors : List Error

abbrev pub no_work : Work
no_work = record {
  sets = 0;
  entries = 0;
  writes = 0;
  rejects = 0;
  snapshots = 0;
  packs = 0;
  expired = 0;
  queued = pos 0;
  overloaded = 0;
  stale = 0;
}

-- The sums of one round of the loop.
abbrev pub add_work : Work → SetStat → Work
add_work w s = record {
  sets = w.sets;
  entries = w.entries + s.entries;
  writes = w.writes + s.writes;
  rejects = w.rejects + s.rejects;
  snapshots = w.snapshots + s.snapshots;
  packs = w.packs + s.packs;
  expired = w.expired + s.expired;
  queued = w.queued +ℤ s.queued;
  overloaded = w.overloaded + s.overloaded;
  stale = w.stale + s.stale;
}

abbrev pub error_of : Str → SetStat → Error
error_of at s = record {
  at = at;
  msg = codes "state commit failed: " ++ s.name;
  count = s.store_err;
  source = codes "redis-internal";
}

-- `msg.Errors = append(...)` where the set has an error.
abbrev pub add_error : Str → List Error → SetStat → List Error
add_error at es s = if ltb 0 s.store_err then es ++ (error_of at s ∷ []) else es

-- The loop over the sets.
unfoldable pub build_loop : Str → Work → List Error → List SetStat → Work × List Error
unfolding ◌+ℤ◌
build_loop at w es [] = (w, es)
build_loop at w es (s ∷ ss) = build_loop at (add_work w s) (add_error at es s) ss

-- Build, on the frame and its time.
unfoldable pub build : {F : Type 0} → F → Str → List SetStat → Message F
unfolding build_loop
build f at stats =
    let r = build_loop at (record no_work { sets = length stats }) [] stats in
    record { frame = f; work = r.0; sets = stats; errors = r.1 }
