-- ===== src/Bus/Handlers.antt =====
-- The handlers of internal/bus/bus.go on the sets of the keeper.
use placitum_keeper.Base.{
  ℕ, ◌≡◌, refl, Bool, true, false, Option, some, none, Str, ◌==◌, str_eq, List, [], ◌∷◌, length,
  inl, inr, arith, Bool-cases, Option-cases,
}
use placitum_keeper.Base.Int.{ℤ}
use placitum_keeper.Base.Maps.{Map, lookup}
use placitum_keeper.Base.Results.{Result, ok, err}
use placitum_keeper.Bus.{
  Msg, Decoders, put_back, event_set, set_of, begin_event, on_snapshot, on_define, reload_all,
  on_reload,
}
use placitum_keeper.Keeper.Flow.{Sound, Sound-same}
use placitum_keeper.Keeper.Flow.Mounted.{
  AllSound, insert-AllSound, define-AllSound, reload-AllSound,
}
use placitum_keeper.Keeper.Flow.Runs.{Kept, enqueue_job-Kept}
use placitum_keeper.Keeper.Mount.{Keeper, Outside}
use placitum_keeper.Keeper.Serve.{
  choose_snapshot, serve_snapshot, snapshot, pack_snapshot, is_stale,
}
use placitum_keeper.Keeper.Submit.{Offer, Checked, submit, submit_checked, check_event}
use placitum_keeper.Keeper.Types.{Options, Holder}
use placitum_keeper.Sets.Netip.{Library}
use placitum_keeper.Sets.Types.{Definition}
use placitum_keeper.Wire.Frames.{Event}
use mathlib.Core.Path.{subst}
use mathlib.Core.Option.{some-injective}

-- The keeper after a message on one of the subjects, up to the wait of an event for its result.
pub data Handled (d : Decoders) (lib : Library) (opts : Options) (k : Keeper) (msg : Msg)
    : Keeper → Type 0 where
  submitted :
      (now : ℤ) (deadline : Option ℤ) (chan : ℕ) (choice : Offer)
      → Handled d lib opts k msg (begin_event d lib opts k msg now deadline chan choice).0
  served :
      (now : ℤ) (put : Bool) (at : ℤ)
      → Handled d lib opts k msg (on_snapshot lib opts k msg now put at).0
  defined :
      (found : Str → Result (Unit {0}) (Option Definition)) (o : Outside)
      → Handled d lib opts k msg (on_define d lib k msg found o).0
  reloaded :
      (defs : Result (Unit {0}) (List (Definition × Outside)))
      → Handled d lib opts k msg (on_reload lib k defs).0
  looked_up : Handled d lib opts k msg k

lookup-AllSound :
    (name : Str) (h : Holder) (m : Map Holder) → lookup name m ≡ some h → AllSound m → Sound h
unfolding lookup
lookup-AllSound name h [] is ks = absurd (ground arith)
lookup-AllSound name h ((n, g) ∷ m) is ks = elim (Bool-cases (str_eq n name)) [
  | inl e ↦ subst Sound (some-injective g h (rw e at is)) ks.0
  | inr e ↦ lookup-AllSound name h m (rw e at is) ks.1
]

abbrev KeptBack : Option Holder → Option Holder → Type 0
KeptBack o none = Unit {0}
KeptBack none (some g) = ⊥
KeptBack (some h) (some g) = Kept g h

put_back-AllSound :
    (k : Keeper) (name : Str) (o : Option Holder)
    → AllSound k.sets
    → KeptBack (lookup name k.sets) o
    → AllSound (put_back k name o).sets
put_back-AllSound k name none ks same = ks
put_back-AllSound k name (some g) ks same = elim (Option-cases (lookup name k.sets)) [
  | inl e ↦ absurd (rw e at same)
  | inr (h, e) ↦
      let kept : Kept g h = rw e at same in
      unfold Kept in
      insert-AllSound name g k.sets
        (Sound-same g h kept.0 kept.1 (lookup-AllSound name h k.sets e ks)) ks
]

submit_checked-KeptBack :
    (opts : Options) (h : Holder) (deadline : Option ℤ) (chan : ℕ) (choice : Offer) (c : Checked)
    → KeptBack (some h) (submit_checked opts h deadline chan choice c).0
unfolding submit_checked
submit_checked-KeptBack opts h deadline chan choice (err code) = unfold Kept in (refl, refl)
submit_checked-KeptBack opts h deadline chan choice (ok (op, recs)) =
    enqueue_job-Kept opts h h.queued
      (record { op = op; recs = recs; reply = some chan; deadline = deadline }) choice

submit-KeptBack :
    (lib : Library) (opts : Options) (ready : Bool) (mounted : Option Holder) (ev : Event) (now : ℤ)
    (deadline : Option ℤ) (chan : ℕ) (choice : Offer)
    → KeptBack mounted (submit lib opts ready mounted ev now deadline chan choice).0
unfolding submit Kept
submit-KeptBack lib opts false none ev now deadline chan choice = tt
submit-KeptBack lib opts false (some h) ev now deadline chan choice = (refl, refl)
submit-KeptBack lib opts true none ev now deadline chan choice = tt
submit-KeptBack lib opts true (some h) ev now deadline chan choice =
    submit_checked-KeptBack opts h deadline chan choice (check_event lib h.s.def ev now)

choose_snapshot-Kept :
    (lib : Library) (opts : Options) (h : Holder) (now : ℤ) (put : Bool) (at : ℤ)
    → Kept (choose_snapshot lib opts h now put at).0 h
unfolding choose_snapshot Kept
choose_snapshot-Kept lib opts h now put at = elim (Bool-cases (is_stale opts h.s now h.snap)) [
  | inr e ↦ rw e (refl, refl)
  | inl e ↦ rw e (elim (Option-cases (pack_snapshot lib h.s put at)) [
    | inl f ↦ rw f (refl, refl)
    | inr (o, f) ↦ rw f (refl, refl)
  ])
]

serve_snapshot-Kept :
    (lib : Library) (opts : Options) (name : Str) (h : Holder) (now : ℤ) (put : Bool) (at : ℤ)
    → Kept (serve_snapshot lib opts name h now put at).0 h
unfolding serve_snapshot
serve_snapshot-Kept lib opts name h now put at =
    let kept = choose_snapshot-Kept lib opts h now put at in
    elim (Option-cases ((choose_snapshot lib opts h now put at).1)) [
      | inl f ↦ unfold Kept in rw (serve_snapshot, f) kept
      | inr (o, f) ↦ unfold Kept in rw (serve_snapshot, f) kept
    ]

snapshot-KeptBack :
    (lib : Library) (opts : Options) (ready : Bool) (name : Str) (mounted : Option Holder) (now : ℤ)
    (put : Bool) (at : ℤ)
    → KeptBack mounted (snapshot lib opts ready name mounted now put at).0
unfolding snapshot Kept
snapshot-KeptBack lib opts false name none now put at = tt
snapshot-KeptBack lib opts false name (some h) now put at = (refl, refl)
snapshot-KeptBack lib opts true name none now put at = tt
snapshot-KeptBack lib opts true name (some h) now put at =
    serve_snapshot-Kept lib opts name h now put at

on_define-AllSound :
    (d : Decoders) (lib : Library) (k : Keeper) (msg : Msg)
    (found : Str → Result (Unit {0}) (Option Definition)) (o : Outside)
    → AllSound k.sets
    → AllSound (on_define d lib k msg found o).0.sets
unfolding on_define
on_define-AllSound d lib k msg found o ks = elim (Option-cases (d.define msg.body)) [
  | inl e ↦ rw (on_define, e) ks
  | inr (name, e) ↦
      rw (on_define, e)
        (elim (Bool-cases (length name == 0)) [
          | inl f ↦ rw f ks
          | inr f ↦ rw f (define-AllSound lib k name (found name) o ks)
        ])
]

reload_all-AllSound :
    (lib : Library) (k : Keeper) (defs : Result (Unit {0}) (List (Definition × Outside)))
    → AllSound k.sets
    → AllSound (reload_all lib k defs).0.sets
reload_all-AllSound lib k (err e) ks = ks
reload_all-AllSound lib k (ok ds) ks = reload-AllSound lib k ds ks

begin_event-AllSound :
    (d : Decoders) (lib : Library) (opts : Options) (k : Keeper) (msg : Msg) (now : ℤ)
    (deadline : Option ℤ) (chan : ℕ) (choice : Offer)
    → AllSound k.sets
    → AllSound (begin_event d lib opts k msg now deadline chan choice).0.sets
unfolding begin_event
begin_event-AllSound d lib opts k msg now deadline chan choice ks =
    elim (Option-cases (d.event msg.body)) [
      | inl e ↦ rw (begin_event, e) ks
      | inr (ev, e) ↦
          rw (begin_event, e)
            (put_back-AllSound k (event_set msg ev) _ ks (
              submit-KeptBack lib opts k.ready (lookup (event_set msg ev) k.sets) ev now deadline
                chan choice))
    ]

-- Whatever message arrives on the bus, an event, a request for a snapshot, a definition, a reload or a
-- lookup, and whatever JSON, the stores, the clock and the random values give: every set of the keeper
-- stays in step with its waiting batches.
pub Handled-AllSound :
    (d : Decoders) (lib : Library) (opts : Options) (k : Keeper) (msg : Msg) (g : Keeper)
    → Handled d lib opts k msg g
    → AllSound k.sets
    → AllSound g.sets
Handled-AllSound d lib opts k msg _ (submitted now deadline chan choice) ks =
    begin_event-AllSound d lib opts k msg now deadline chan choice ks
Handled-AllSound d lib opts k msg _ (served now put at) ks =
    unfold on_snapshot in
    put_back-AllSound k (set_of msg.subject) _ ks (
      snapshot-KeptBack lib opts k.ready (set_of msg.subject) (lookup (set_of msg.subject) k.sets)
        now put at)
Handled-AllSound d lib opts k msg _ (defined found o) ks = on_define-AllSound d lib k msg found o ks
Handled-AllSound d lib opts k msg _ (reloaded defs) ks =
    unfold on_reload in reload_all-AllSound lib k defs ks
Handled-AllSound d lib opts k msg _ looked_up ks = ks
