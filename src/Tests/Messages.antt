-- ===== src/Tests/Messages.antt =====
-- The bus, the reports, the start and the sweep at concrete inputs.
use placitum_keeper.Base.{ℕ, ◌+◌, ◌≡◌, refl, true, some, none, Str, [], ◌∷◌, codes, arith}
use placitum_keeper.Base.Int.{pos, ◌+ℤ◌, ◌≤ℤ◌, ◌<ℤ◌}
use placitum_keeper.Base.Results.{ok, err}
use placitum_keeper.Bus.{Msg, on_event}
use placitum_keeper.Bus.Slots.{Runs, start, next, arrived, Answered, Runs-Answered}
use placitum_keeper.Config.Startup.{Attempt, Ends, open_definitions, open_definitions-Ends}
use placitum_keeper.Keeper.Queue.Race.{
  Race, Reach, here, later, pass, count, slack, Reach-IsCounted,
}
use placitum_keeper.Keeper.Planner.{sweep}
use placitum_keeper.Keeper.Planner.Sweeps.{SweepsAll, sweep-SweepsAll}
use placitum_keeper.Keeper.Statistics.{stats}
use placitum_keeper.Keeper.Submit.{accepted, submit, add_queued}
use placitum_keeper.Keeper.Submit.Outcome.{SubmitOutcome, submit-Outcome}
use placitum_keeper.Keeper.Queue.{waiting}
use placitum_keeper.Base.{str_eq}
use placitum_keeper.Base.Maps.{lookup}
use placitum_keeper.Keeper.Serve.{lookup_set}
use placitum_keeper.Keeper.Serve.Agreement.{kept_value, lookup_set-contains}
use placitum_keeper.Sets.Canon.{canon, canon_prefix}
use placitum_keeper.Sets.State.{new, contains}
use placitum_keeper.Sets.Types.{Set}
use placitum_keeper.Tests.{empty_set}
use placitum_keeper.Report.Pulse.{build}
use placitum_keeper.Report.Totals.{IsReport, build-IsReport}
use placitum_keeper.Sets.Expiry.{expired}
use placitum_keeper.Tests.{lib, options, idle, keeper, job_a, event, loaded_set}
use placitum_keeper.Keeper.Types.{Holder, new_holder}

submit-Outcome_example :
    SubmitOutcome (some idle) 3 (submit lib options true (some idle) event (pos 5) none 3 accepted)
unfolding waiting
submit-Outcome_example =
    submit-Outcome lib options event (pos 5) none 3 accepted true (some idle) refl

abbrev message : Msg
message = record {
  subject = codes "waf.sets.banned.event";
  reply = codes "inbox";
  body = codes "{}";
}

-- One event arrives.
abbrev one_event :
    Runs (message ∷ []) (on_event (record { slots = 0; handling = []; replied = [] }) message)
one_event = next (message ∷ []) start (arrived message)

Runs-Answered_example :
    Answered
      (codes "inbox")
      (message ∷ [])
      (on_event (record { slots = 0; handling = []; replied = [] }) message)
Runs-Answered_example = Runs-Answered (codes "inbox") (message ∷ []) _ refl one_event

-- Two calls of Submit pass the check before either has counted its record: the counter is two, where
-- the bound is one.
abbrev no_calls : Race
no_calls = record { h = idle; checked = []; offering = [] }

abbrev overrun : Race
overrun = record {
  h = add_queued (add_queued idle (pos 1)) (pos 1);
  checked = [];
  offering = job_a ∷ job_a ∷ [];
}

two_calls : Reach options 1 no_calls overrun
unfolding ◌+ℤ◌
two_calls =
    later
      (later
        (later (later here (pass job_a (omega arith) (omega arith) refl refl))
          (pass job_a (omega arith) (omega arith) refl refl))
        (count [] job_a (job_a ∷ []) refl refl))
      (count [] job_a [] refl refl)

overrun_lem : options.queue_max <ℤ overrun.h.queued
unfolding ◌+ℤ◌
overrun_lem = omega arith

idle-exact : idle.queued ≡ pos (waiting idle.jobs)
unfolding waiting
idle-exact = refl

Reach-IsCounted_example :
    (overrun.h.queued ≡ pos (waiting overrun.h.jobs + waiting overrun.offering))
    × (overrun.h.queued ≤ℤ (options.queue_max +ℤ pos (slack 1)))
Reach-IsCounted_example = Reach-IsCounted options 1 idle overrun idle-exact (omega arith) two_calls

build-IsReport_example :
    IsReport
      (codes "now")
      (stats keeper)
      (build (codes "frame") (codes "now") (stats keeper)).work
      (build (codes "frame") (codes "now") (stats keeper)).errors
build-IsReport_example = build-IsReport (codes "now") (codes "frame") (stats keeper)

-- The catalog answers the second time.
abbrev attempts : ℕ → Attempt Str Str
attempts i = elim i [
  | ℕ.zero ↦ record { outcome = err (codes "refused"); cancelled = none }
  | ℕ.suc n ↦ record { outcome = ok (codes "pool"); cancelled = none }
]

open_definitions-Ends_example : Ends attempts 30 (open_definitions attempts)
open_definitions-Ends_example = open_definitions-Ends attempts

abbrev due : Holder
due = new_holder loaded_set

sweep-SweepsAll_example :
    SweepsAll lib options
      (pos 100_000_000_000)
      (record due { s = (expired loaded_set (pos 100_000_000_000)).0 })
      (expired loaded_set (pos 100_000_000_000)).1
      (sweep lib options due (pos 100_000_000_000))
sweep-SweepsAll_example = sweep-SweepsAll lib options (pos 100_000_000_000) due (omega arith)

-- A set with one value.
abbrev one_value : Set
one_value = record empty_set {
  entries =
      (codes "a", record { exp = pos 90_000; origin = codes "me"; reason = codes "test"; hash = 0 })
      ∷ [];
}

canon_a : canon lib one_value.def.type (codes "a") ≡ ok (codes "a")
unfolding canon canon_prefix new
canon_a = refl

lookup_set-contains_example :
    (lookup_set lib one_value (codes "a") (pos 5)).found
    ≡ contains one_value (kept_value lib one_value (codes "a")) (pos 5)
unfolding lookup new str_eq
lookup_set-contains_example =
    lookup_set-contains lib one_value (codes "a") (codes "a") (pos 5) canon_a (omega arith)
