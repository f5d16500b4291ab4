-- ===== src/Keeper/Types.antt =====
-- The types of internal/keeper/keeper.go. Times and durations are in nanoseconds.
pub mod Defaults
use placitum_keeper.Base.{ℕ, ◌*◌, Bool, Option, none, Str, if◌then◌else◌, List, [], codes, ◌∷◌}
use placitum_keeper.Base.Int.{ℤ, pos, ltb_ℤ, leb_ℤ, ◌*ℤ◌, wrap64}
use placitum_keeper.Sets.Types.{Set, Plan, Record}
use placitum_keeper.Wire.Frames.{Frame}

abbrev pub second : ℕ
second = 1_000_000_000

pub record Options : Type 0 where
  pub name : Str
  pub tick : ℤ
  pub sweep : ℤ
  pub batch_max : ℤ
  pub coalesce : ℤ
  pub queue_max : ℤ
  pub pipeline : ℤ
  pub diff_ttl : ℤ
  pub snapshot_ttl : ℤ
  pub inline_max : ℤ

abbrev pub default_to : ℤ → ℕ → ℤ
default_to x d = if leb_ℤ x (pos 0) then pos d else x

-- The defaults that New puts in.
unfoldable pub normalise : Options → Options
unfolding ◌*ℤ◌ wrap64
normalise o =
    let snap = default_to o.snapshot_ttl (30 * second) in
    record o {
      batch_max = default_to o.batch_max 10_000;
      queue_max = default_to o.queue_max 50_000;
      pipeline = default_to o.pipeline 4;
      sweep = default_to o.sweep second;
      snapshot_ttl = snap;
      diff_ttl =
          if ltb_ℤ o.diff_ttl (wrap64 (pos 2 *ℤ snap)) then wrap64 (pos 2 *ℤ snap) else o.diff_ttl;
    }

-- A reply channel is a number; a job of the sweep has none. A zero deadline is `none`.
pub record Job : Type 0 where
  pub op : Str
  pub recs : List Record
  pub reply : Option ℕ
  pub deadline : Option ℤ

pub record JobResult : Type 0 where
  pub code : Str
  pub seq : ℕ
  pub epoch : ℕ

abbrev pub empty_result : JobResult
empty_result = record { code = []; seq = 0; epoch = 0 }

-- "\x00stale"
abbrev pub code_stale : Str
code_stale = 0 ∷ codes "stale"

-- The counters of a set; `store_ms` is the last time of a commit.
pub record Stats : Type 0 where
  pub writes : ℕ
  pub rejects : ℕ
  pub diffs : ℕ
  pub inline : ℕ
  pub expired : ℕ
  pub snapshots : ℕ
  pub packs : ℕ
  pub store_err : ℕ
  pub store_ms : ℕ
  pub overloaded : ℕ
  pub stale : ℕ

abbrev pub zero_stats : Stats
zero_stats = record {
  writes = 0;
  rejects = 0;
  diffs = 0;
  inline = 0;
  expired = 0;
  snapshots = 0;
  packs = 0;
  store_err = 0;
  store_ms = 0;
  overloaded = 0;
  stale = 0;
}

pub record Batch : Type 0 where
  pub at : ℤ
  pub jobs : List Job
  pub results : List JobResult
  pub plan : Plan
  pub pkg_key : Str
  pub pkg : List ℕ

pub record SnapObj : Type 0 where
  pub key : Str
  pub epoch : ℕ
  pub seq : ℕ
  pub hash : ℕ
  pub count : ℕ
  pub bytes : ℕ
  pub at : ℤ

-- `jobs` and `batches` are the contents of the channels, first in first out. `sent` is what went to
-- the reply channels and `published` what went to the bus, oldest first.
pub record Holder : Type 0 where
  pub s : Set
  pub jobs : List Job
  pub queued : ℤ
  pub batches : List Batch
  pub stopped : Bool
  pub stats : Stats
  pub snap : Option SnapObj
  pub sent : List (ℕ × JobResult)
  pub published : List Frame

abbrev pub new_holder : Set → Holder
new_holder s = record {
  s = s;
  jobs = [];
  queued = pos 0;
  batches = [];
  stopped = Bool.false;
  stats = zero_stats;
  snap = none;
  sent = [];
  published = [];
}
