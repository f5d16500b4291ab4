-- ===== src/Keeper/Statistics.antt =====
-- SetStat, Stats and the round of the tick loop of internal/keeper/keeper.go.
use placitum_keeper.Base.{ℕ, Str, if◌then◌else◌, List, [], ◌∷◌}
use placitum_keeper.Base.Int.{ℤ, pos, leb_ℤ}
use placitum_keeper.Base.Maps.{Map}
use placitum_keeper.Keeper.Mount.{Keeper, publish_tick}
use placitum_keeper.Sets.State.{len_of}
use placitum_keeper.Keeper.Types.{Options, Holder}
use placitum_keeper.Wire.Frames.{hex}

pub record SetStat : Type 0 where
  pub name : Str
  pub entries : ℕ
  pub epoch : Str
  pub seq : ℕ
  pub hash : Str
  pub limit : ℤ
  pub writes : ℕ
  pub rejects : ℕ
  pub diffs : ℕ
  pub inline : ℕ
  pub expired : ℕ
  pub snapshots : ℕ
  pub packs : ℕ
  pub store_err : ℕ
  pub store_ms : ℕ
  pub queued : ℤ
  pub overloaded : ℕ
  pub stale : ℕ

unfoldable pub stat_of : Str → Holder → SetStat
unfolding hex
stat_of name h = record {
  name = name;
  entries = len_of h.s;
  epoch = hex h.s.epoch;
  seq = h.s.seq;
  hash = hex h.s.hash;
  limit = h.s.def.limit;
  writes = h.stats.writes;
  rejects = h.stats.rejects;
  diffs = h.stats.diffs;
  inline = h.stats.inline;
  expired = h.stats.expired;
  snapshots = h.stats.snapshots;
  packs = h.stats.packs;
  store_err = h.stats.store_err;
  store_ms = h.stats.store_ms;
  queued = h.queued;
  overloaded = h.stats.overloaded;
  stale = h.stats.stale;
}

unfoldable pub stats_from : Map Holder → List SetStat
unfolding stat_of
stats_from [] = []
stats_from ((name, h) ∷ m) = stat_of name h ∷ stats_from m

-- Stats.
abbrev pub stats : Keeper → List SetStat
stats k = stats_from k.sets

unfoldable pub tick_sets : Map Holder → Map Holder
unfolding publish_tick
tick_sets [] = []
tick_sets ((name, h) ∷ m) = (name, publish_tick h) ∷ tick_sets m

-- One round of tickLoop: a tick of every set; there is none where the period is not positive.
abbrev pub tick_round : Options → Keeper → Keeper
tick_round opts k = if leb_ℤ opts.tick (pos 0) then k else record k { sets = tick_sets k.sets }
