-- ===== src/Bus.antt =====
-- internal/bus/bus.go: the handlers of the subscriptions. The decoders of JSON and the case of the
-- client that runs out of time are arguments; a reply is the value that is encoded.
pub mod Slots
pub mod Subjects
pub mod Handlers
use placitum_keeper.Base.{
  ℕ, suc, zero, ◌+◌, ◌-◌, ◌≡◌, Bool, true, false, ◌||◌, Option, some, none, Str, if◌then◌else◌, ltb,
  ◌==◌, str_eq, List, [], ◌∷◌, ◌++◌, length, codes,
}
use placitum_keeper.Base.Int.{ℤ}
use placitum_keeper.Base.Maps.{Map, lookup, insert}
use placitum_keeper.Base.Results.{Result, ok, err}
use placitum_keeper.Keeper.Mount.{Keeper, is_ready, holder_of, Outside, define, reload}
use placitum_keeper.Keeper.Serve.{snapshot, lookup_value}
use placitum_keeper.Keeper.Submit.{Offer, submit, refusal, reply_of}
use placitum_keeper.Keeper.Types.{Options, Holder, JobResult}
use placitum_keeper.Sets.Netip.{Library}
use placitum_keeper.Sets.Types.{Definition}
use placitum_keeper.Wire.Frames.{
  Frame, Event, EventReply, DefineReply, LookupReply, err_bad_request, err_overloaded,
  err_store_unavailable,
}

abbrev pub prefix : Str
prefix = codes "waf.sets."

abbrev pub event_inflight : ℕ
event_inflight = 1024

-- What the handlers read of a nats.Msg.
pub record Msg : Type 0 where
  pub subject : Str
  pub reply : Str
  pub body : List ℕ

pub record LookupRequest : Type 0 where
  pub set : Str
  pub value : Str

-- json.Unmarshal into the requests; `none` is an error. DefineRequest is its name.
pub record Decoders : Type 0 where
  pub event : List ℕ → Option Event
  pub define : List ℕ → Option Str
  pub lookup : List ℕ → Option LookupRequest

pub data Reply : Type 0 where
  of_event : EventReply → Reply
  of_frame : Frame → Reply
  of_define : DefineReply → Reply
  of_lookup : LookupReply → Reply

-- strings.Split at the dots.
unfoldable pub split : Str → List Str
split [] = [] ∷ []
split (c ∷ cs) =
    let rest = split cs in
    if c == 46 then [] ∷ rest else (elim rest [ [] ↦ (c ∷ []) ∷ [] | p ∷ ps ↦ (c ∷ p) ∷ ps ])

abbrev pub third : List Str → Str
third (a ∷ b ∷ c ∷ ps) = c
third (a ∷ b ∷ []) = []
third (a ∷ []) = []
third [] = []

-- setOf.
unfoldable pub set_of : Str → Str
unfolding split
set_of subject = third (split subject)

-- The goroutines of events that run, and the replies sent so far, oldest first.
pub record Bus : Type 0 where
  pub slots : ℕ
  pub handling : List Msg
  pub replied : List (Str × Reply)

-- reply.
unfoldable pub reply : Bus → Msg → Reply → Bus
reply b msg v =
    if length msg.reply == 0 then b else record b { replied = b.replied ++ ((msg.reply, v) ∷ []) }

-- onEvent up to the goroutine.
unfoldable pub on_event : Bus → Msg → Bus
unfolding reply
on_event b msg =
    if ltb b.slots event_inflight
    then record b { slots = b.slots + 1; handling = b.handling ++ (msg ∷ []) }
    else reply b msg (of_event (refusal err_overloaded))

-- The end of the goroutine: the reply, and then the slot is free.
unfoldable pub end_event : Bus → List Msg → Msg → EventReply → Bus
unfolding reply
end_event b others msg r =
    let c = reply b msg (of_event r) in record c { slots = c.slots - 1; handling = others }

-- A holder goes back to its set.
abbrev pub put_back : Keeper → Str → Option Holder → Keeper
put_back k name none = k
put_back k name (some h) = record k { sets = insert name h k.sets }

abbrev pub event_set : Msg → Event → Str
event_set msg ev = if length (set_of msg.subject) == 0 then ev.set else set_of msg.subject

-- The goroutine of an event up to the wait for its result: `none` is no answer yet.
abbrev pub submit_event :
    Library → Options → Keeper → Str → Event → ℤ → Option ℤ → ℕ → Offer → Keeper × Option EventReply
submit_event lib opts k name ev now deadline chan choice =
    let r = submit lib opts (is_ready k) (holder_of k name) ev now deadline chan choice in
    (put_back k name r.0, r.1)

unfoldable pub begin_event :
    Decoders
    → Library
    → Options
    → Keeper
    → Msg
    → ℤ
    → Option ℤ
    → ℕ
    → Offer
    → Keeper × Option EventReply
unfolding set_of submit
begin_event d lib opts k msg now deadline chan choice = elim (d.event msg.body) [
  | none ↦ (k, some (refusal err_bad_request))
  | some ev ↦ submit_event lib opts k (event_set msg ev) ev now deadline chan choice
]

-- onSnapshot; what the request says is not read.
unfoldable pub on_snapshot : Library → Options → Keeper → Msg → ℤ → Bool → ℤ → Keeper × Reply
unfolding snapshot set_of
on_snapshot lib opts k msg now put at =
    let name = set_of msg.subject in
    let r = snapshot lib opts (is_ready k) name (holder_of k name) now put at in
    (put_back k name r.0, of_frame r.1)

abbrev pub bad_define : Reply
bad_define = of_define (record { ok = false; epoch = []; error = err_bad_request })

-- onDefine: `found` is what LoadDefinition gave for the name.
unfoldable pub on_define :
    Decoders
    → Library
    → Keeper
    → Msg
    → (Str → Result (Unit {0}) (Option Definition))
    → Outside
    → Keeper × Reply
unfolding define
on_define d lib k msg found o = elim (d.define msg.body) [
  | none ↦ (k, bad_define)
  | some name ↦
      let r = define lib k name (found name) o in
      if length name == 0 then (k, bad_define) else (r.0, of_define r.1)
]

-- Reload, the query of the catalog included.
abbrev pub reload_all :
    Library → Keeper → Result (Unit {0}) (List (Definition × Outside)) → Keeper × Bool
reload_all lib k (err e) = (k, false)
reload_all lib k (ok ds) = reload lib k ds

-- onReload.
unfoldable pub on_reload :
    Library → Keeper → Result (Unit {0}) (List (Definition × Outside)) → Keeper × Reply
unfolding reload
on_reload lib k defs =
    let r = reload_all lib k defs in
    (
      r.0,
      of_define (
          if r.1
          then record { ok = true; epoch = []; error = [] }
          else record { ok = false; epoch = []; error = err_store_unavailable }),
    )

-- onLookup.
unfoldable pub on_lookup : Decoders → Library → Keeper → Msg → ℤ → Reply
unfolding lookup_value
on_lookup d lib k msg now = elim (d.lookup msg.body) [
  | none ↦ of_lookup (record { ok = false; found = false; exp = ℤ.pos 0; error = err_bad_request })
  | some q ↦
      if length q.set == 0
      then of_lookup (record { ok = false; found = false; exp = ℤ.pos 0; error = err_bad_request })
      else of_lookup (lookup_value lib (holder_of k q.set) q.value now)
]

-- The subjects that Serve subscribes to, in this order.
abbrev pub subjects : List Str
subjects =
    (prefix ++ codes "*.event")
    ∷ (prefix ++ codes "*.snapshot")
    ∷ codes "waf.keeper.define"
    ∷ codes "waf.keeper.reload"
    ∷ codes "waf.keeper.lookup"
    ∷ []
