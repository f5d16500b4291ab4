-- ===== src/Keeper/Types/Defaults.antt =====
-- The defaults that New of internal/keeper/keeper.go puts into the options.
use placitum_keeper.Base.{ℕ, ◌*◌, ◌<◌, arith, inl, inr, Bool-cases, if◌then◌else◌}
use placitum_keeper.Base.Int.{ℤ, pos, ◌*ℤ◌, ◌≤ℤ◌, ◌<ℤ◌, ltb_ℤ, leb_ℤ, wrap64}
use placitum_keeper.Keeper.Types.{Options, normalise, default_to, second}

default_to_positive : (x : ℤ) (d : ℕ) → 0 < d → pos 0 <ℤ default_to x d
default_to_positive x d h = elim (Bool-cases (leb_ℤ x (pos 0))) [
  | inl e ↦ rw e (omega arith)
  | inr e ↦ rw e (ground arith)
]

-- What the keeper runs on.
pub record IsUsable (o : Options) : Type 0 where
  pub batch_max : pos 0 <ℤ o.batch_max
  pub queue_max : pos 0 <ℤ o.queue_max
  pub pipeline : pos 0 <ℤ o.pipeline
  pub sweep : pos 0 <ℤ o.sweep
  pub snapshot_ttl : pos 0 <ℤ o.snapshot_ttl
  pub diff_ttl : wrap64 (pos 2 *ℤ o.snapshot_ttl) ≤ℤ o.diff_ttl

diff_enough : (d t : ℤ) → t ≤ℤ (if ltb_ℤ d t then t else d)
diff_enough d t = ground arith

-- Whatever the options are, those that New leaves are usable: batches, the queue, the pipeline, the
-- sweep and the life of a snapshot are positive, and a diff lives at least as long as two snapshots,
-- twice the life of one as an int64.
pub normalise-IsUsable : (o : Options) → IsUsable (normalise o)
unfolding normalise
normalise-IsUsable o = record {
  batch_max = default_to_positive o.batch_max 10_000 (omega arith);
  queue_max = default_to_positive o.queue_max 50_000 (omega arith);
  pipeline = default_to_positive o.pipeline 4 (omega arith);
  sweep = default_to_positive o.sweep second (omega arith);
  snapshot_ttl = default_to_positive o.snapshot_ttl (30 * second) (omega arith);
  diff_ttl = diff_enough o.diff_ttl (wrap64 (pos 2 *ℤ default_to o.snapshot_ttl (30 * second)));
}
