-- ===== src/Program/Start.antt =====
-- main of cmd/keeper/main.go. The servers, the clock and the signal are what a `World` says; the
-- journal is left out. The listener of HTTP ends the program when it fails, at any time: that exit is
-- not among the outcomes.
use placitum_keeper.Base.{
  ℕ, suc, ◌*◌, Bool, true, false, Option, none, some, Str, List, [], ◌∷◌, ◌++◌, codes, map,
  if◌then◌else◌,
}
use placitum_keeper.Base.Int.{ℤ, pos, leb_ℤ}
use placitum_keeper.Base.Results.{Result, ok, err}
use placitum_keeper.Bus.{Bus}
use placitum_keeper.Config.Catalog.{Rows, load_definitions, options_of}
use placitum_keeper.Config.Settings.{Config, ConfigError, load_config}
use placitum_keeper.Config.Startup.{Attempt, Returned, open_definitions, wait_state}
use placitum_keeper.Keeper.Mount.{Keeper, Outside, start}
use placitum_keeper.Keeper.Types.{Options, normalise, second}
use placitum_keeper.Program.Connections.{NatsOptions, connect, serve}
use placitum_keeper.Sets.Netip.{Library}
use placitum_keeper.Sets.Types.{Definition}

-- What the program meets: `opens` and `pings` say what each round of the two loops gives.
pub record World (E Pool Nats Redis : Type 0) : Type 0 where
  pub parse_duration : Str → Option ℤ
  pub get : Str → Str
  pub opens : Str → ℕ → Attempt E Pool
  pub dial : Str → NatsOptions → Result E Nats
  pub open_state : Str → ℤ → Result E Redis
  pub pings : ℕ → Attempt E (Unit {0})
  pub rows : Rows E
  pub outside : Definition → Outside
  pub subscribe : Str → Option E
  pub flush : Option E

pub data Outcome : Type 0 where
  exited : ℕ → Outcome
  serving : Options → Keeper → Outcome
  panicked : Outcome

-- Whether the listener of HTTP was started, and the subjects that are subscribed.
pub record Run : Type 0 where
  pub outcome : Outcome
  pub listening : Bool
  pub subscribed : List Str

abbrev failed : ℕ → Run
failed code = record { outcome = exited code; listening = false; subscribed = [] }

-- New's map is empty, and the keeper is not ready.
abbrev pub new_keeper : Keeper
new_keeper = record { sets = []; ready = false; dropped = [] }

module _ {E Pool Nats Redis : Type 0} (lib : Library) (w : World E Pool Nats Redis) where
  -- What follows Serve: `time.NewTicker` panics where the interval is not positive.
  abbrev pub after_serve : Config → Keeper → List Str × Option E → Run
  after_serve c k (ss, none) = record {
    outcome = if leb_ℤ c.pulse (pos 0) then panicked else serving (normalise (options_of c)) k;
    listening = true;
    subscribed = ss;
  }
  after_serve c k (ss, some e) = record { outcome = exited 1; listening = true; subscribed = ss }

  abbrev pub after_mount : Config → Keeper × Bool → Run
  after_mount c (k, true) = after_serve c k (serve w.subscribe w.flush)
  after_mount c (k, false) = record { outcome = exited 1; listening = true; subscribed = [] }

  abbrev pub with_outside : Definition → Definition × Outside
  with_outside d = (d, w.outside d)

  -- Start, with the query of the catalog.
  abbrev pub after_query : Config → Result E (List Definition) → Run
  after_query c (err e) = record { outcome = exited 1; listening = true; subscribed = [] }
  after_query c (ok ds) = after_mount c (start lib new_keeper (map with_outside ds))

  abbrev pub after_wait : Config → Option E → Run
  after_wait c (some e) = failed 1
  after_wait c none = after_query c (load_definitions w.rows)

  abbrev pub after_state : Config → Result E Redis → Run
  after_state c (err e) = failed 1
  after_state c (ok st) = after_wait c (wait_state w.pings)

  abbrev pub after_bus : Config → Result E (Nats × Bus) → Run
  after_bus c (err e) = failed 1
  after_bus c (ok b) = after_state c (w.open_state c.redis_url (pos (5 * second)))

  abbrev pub after_definitions : Config → Returned E Pool → Run
  after_definitions c (defs, some e) = failed 1
  after_definitions c (defs, none) =
      after_bus c (connect w.dial c.nats_url (codes "waf-" ++ c.name))

  abbrev pub after_config : Result ConfigError Config → Run
  after_config (err e) = failed 2
  after_config (ok c) = after_definitions c (open_definitions (w.opens c.database_url))

  unfoldable pub main : Run
  unfolding load_config options_of load_definitions open_definitions wait_state normalise connect
      serve start
  main = after_config (load_config w.parse_duration w.get)

-- What the select of main's last loop takes: the ticker, or the context's end.
pub data Wake : Type 0 where
  beat done : Wake

-- The pulses that are published after the first, and whether the program has come to its end.
unfoldable pub beats : List Wake → ℕ × Bool
beats [] = (0, false)
beats (beat ∷ ws) = let r = beats ws in (suc r.0, r.1)
beats (done ∷ ws) = (0, true)
