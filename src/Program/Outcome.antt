-- ===== src/Program/Outcome.antt =====
-- What the start in cmd/keeper/main.go comes to.
use placitum_keeper.Base.{◌≡◌, true, false, []}
use placitum_keeper.Base.Int.{pos, ◌≤ℤ◌, ◌<ℤ◌}
use placitum_keeper.Base.Results.{Result, ok, err}
use placitum_keeper.Bus.{Bus, subjects}
use placitum_keeper.Config.Catalog.{options_of}
use placitum_keeper.Config.Settings.{Config, ConfigError}
use placitum_keeper.Keeper.Flow.Mounted.{AllSound}
use placitum_keeper.Keeper.Mount.{Keeper}
use placitum_keeper.Keeper.Types.{normalise}
use placitum_keeper.Keeper.Types.Defaults.{IsUsable}
use placitum_keeper.Program.Start.{World, Run, Outcome, exited, serving, panicked}
use placitum_keeper.Sets.Netip.{Library}

-- The ways a start comes out, from the configuration.
abbrev pub IsStart : Result ConfigError Config → Outcome → Run → Type 0
IsStart (err e) (exited n) r = (n ≡ 2) × (r.listening ≡ false) × (r.subscribed ≡ [])
IsStart (err e) (serving opts k) r = ⊥
IsStart (err e) panicked r = ⊥
IsStart (ok c) (exited n) r = n ≡ 1
IsStart (ok c) (serving opts k) r =
    (opts ≡ normalise (options_of c))
    × IsUsable opts
    × (k.ready ≡ true)
    × AllSound k.sets
    × (pos 0 <ℤ c.pulse)
    × (r.listening ≡ true)
    × (r.subscribed ≡ subjects)
IsStart (ok c) panicked r = (c.pulse ≡ pos 0) × (r.listening ≡ true) × (r.subscribed ≡ subjects)

module _ {E Pool Nats Redis : Type 0} (lib : Library) (w : World E Pool Nats Redis) (c : Config)
    (timed : pos 0 ≤ℤ c.pulse) where
  abbrev Fine : Run → Type 0
  Fine r = IsStart (ok c) r.outcome r
