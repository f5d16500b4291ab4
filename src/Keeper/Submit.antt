-- ===== src/Keeper/Submit.antt =====
-- Submit of internal/keeper/keeper.go: the checks of an event, the place in the queue, the answer.
pub mod Collect
pub mod Complete
pub mod Outcome
use placitum_keeper.Base.{
  ℕ, suc, ◌+◌, ◌≡◌, Bool, true, false, not, ◌&&◌, ◌||◌, Option, some, none, Str, if◌then◌else◌,
  ◌==◌, str_eq, List, [], ◌∷◌, ◌++◌, length, codes, map,
}
use placitum_keeper.Base.Int.{neg_of, ℤ, pos, negsuc, ◌+ℤ◌, ◌*ℤ◌, ltb_ℤ, leb_ℤ, wrap64}
use placitum_keeper.Base.Results.{Result, ok, err}
use placitum_keeper.Base.Text.{trim_space}
use placitum_keeper.Keeper.Types.{Options, Job, JobResult, Holder, second}
use placitum_keeper.Sets.Canon.{CanonError, CanonResult, err_too_long, canon_prefix, md5_hex}
use placitum_keeper.Sets.Netip.{Library, Prefix}
use placitum_keeper.Sets.State.{unix_milli}
use placitum_keeper.Sets.Types.{Definition, Record, op_add, op_remove}
use placitum_keeper.Wire.Frames
use placitum_keeper.Wire.Frames.{
  Event, EventReply, hex, err_unknown_set, err_full, err_wrong_type, err_no_origin, err_no_ttl,
  err_bad_op, err_store_unavailable, err_not_ready, err_overloaded, err_forever,
}

abbrev pub refusal : Str → EventReply
refusal code = record { ok = false; seq = 0; epoch = []; error = code; limit = pos 0 }

abbrev pub contains_str : Str → List Str → Bool
contains_str v [] = false
contains_str v (x ∷ xs) = str_eq x v || contains_str v xs

-- The loop variables: the records, and the values that are in them already.
abbrev code_of : CanonError → Str
code_of CanonError.err_empty = err_wrong_type
code_of CanonError.err_too_long = Frames.err_too_long
code_of CanonError.err_type = err_wrong_type

module _ (lib : Library) (def : Definition) (ev : Event) where
  -- `value = set.MD5Hex(value)` in a hashed set, unless the sender has hashed it.
  abbrev pub stored_value : Str → Str
  stored_value v = if def.hash && not ev.hashed then md5_hex lib v else v

  record_for : Str → Prefix → Record
  record_for v p = record {
    value = v;
    exp = pos 0;
    origin = ev.origin;
    reason = ev.reason;
    prefix = p;
  }

  abbrev consed : Str → Prefix → Result Str (List Record) → Result Str (List Record)
  consed v p (ok rs) = ok (record_for v p ∷ rs)
  consed v p (err c) = err c

  -- One record per value: a value that came before is dropped.
  unfoldable pub collect : List Str → List Str → Result Str (List Record)
  unfolding record_for canon_prefix md5_hex
  collect seen [] = ok []
  collect seen (raw ∷ raws) = elim (canon_prefix lib def.type raw) [
    | err e ↦ err (code_of e)
    | ok (v, p) ↦
        let same = collect seen raws in
        let more = collect (stored_value v ∷ seen) raws in
        if contains_str (stored_value v) seen then same else consed (stored_value v) p more
  ]

-- `values = append([]string{ev.Value}, values...)`
abbrev pub event_values : Event → List Str
event_values ev = if length ev.value == 0 then ev.values else ev.value ∷ ev.values

abbrev pub event_op : Event → Str
event_op ev = if length ev.op == 0 then op_add else ev.op

abbrev pub event_ttl : Definition → Event → ℤ
event_ttl def ev = if leb_ℤ ev.ttl (pos 0) then def.ttl else ev.ttl

-- `k.now().Add(time.Duration(ttl) * time.Second).UnixMilli()`: the product is an int64.
unfoldable pub expiry : ℤ → ℤ → ℤ
unfolding wrap64 ◌+ℤ◌ ◌*ℤ◌
expiry now ttl = unix_milli (now +ℤ wrap64 (ttl *ℤ pos second))

abbrev pub with_exp : ℤ → Record → Record
with_exp exp r = record r { exp = exp }

-- What Submit has after its checks: a refusal, or the operation and the records.
abbrev pub Checked : Type 0
Checked = Result Str (Str × List Record)

unfoldable pub check_ttl : Definition → Event → ℤ → Str → List Record → Checked
unfolding expiry
check_ttl def ev now op recs =
    if str_eq op op_add
    then (if ev.forever
        then err err_forever
        else (if leb_ℤ (event_ttl def ev) (pos 0)
            then err err_no_ttl
            else ok (op, map (with_exp (expiry now (event_ttl def ev))) recs)))
    else ok (op, recs)

abbrev then_ttl : Definition → Event → ℤ → Str → Result Str (List Record) → Checked
then_ttl def ev now op (err c) = err c
then_ttl def ev now op (ok recs) = check_ttl def ev now op recs

-- The checks of Submit on a set that is mounted.
unfoldable pub check_event : Library → Definition → Event → ℤ → Checked
unfolding collect check_ttl trim_space
check_event lib def ev now =
    let op = event_op ev in
    if not (str_eq op op_add) && not (str_eq op op_remove)
    then err err_bad_op
    else (if length (trim_space ev.origin) == 0
        then err err_no_origin
        else (if length (event_values ev) == 0
            then err err_wrong_type
            else then_ttl def ev now op (collect lib def ev [] (event_values ev))))

-- Which case of the first `select` is taken.
pub data Offer : Type 0 where
  accepted cancelled stopping : Offer

abbrev pub add_queued : Holder → ℤ → Holder
add_queued h n = record h { queued = h.queued +ℤ n }

-- The first `select`: the records are counted, and counted off again where the job is not taken.
unfoldable pub offer_job : Holder → Job → Offer → Holder × Option EventReply
offer_job h j accepted =
    (record (add_queued h (pos (length j.recs))) { jobs = h.jobs ++ (j ∷ []) }, none)
offer_job h j cancelled = (
  add_queued (add_queued h (pos (length j.recs))) (neg_of (length j.recs)),
  some (refusal err_store_unavailable),
)
offer_job h j stopping = (
  add_queued (add_queued h (pos (length j.recs))) (neg_of (length j.recs)),
  some (refusal err_unknown_set),
)

-- `h.queued.Load()+n > int64(k.opts.QueueMax)`, where `load` is what Load gave.
abbrev pub is_overloaded : Options → ℤ → ℕ → Bool
is_overloaded opts load n = ltb_ℤ opts.queue_max (load +ℤ pos n)

abbrev pub count_overloaded : Holder → Holder
count_overloaded h = record h { stats = record (h.stats) { overloaded = h.stats.overloaded + 1 } }

-- The place in the queue; the records of the job are counted while it waits. Load and Add are two
-- operations: other calls of Submit may come between them, so `load` need not be the holder's count.
unfoldable pub enqueue_job : Options → Holder → ℤ → Job → Offer → Holder × Option EventReply
unfolding offer_job ◌+ℤ◌
enqueue_job opts h load j choice =
    if is_overloaded opts load (length j.recs)
    then (count_overloaded h, some (refusal err_overloaded))
    else offer_job h j choice

-- The answer to the sender, from the result of the job; `none` where the time ran out first.
unfoldable pub reply_of : Definition → Option JobResult → EventReply
unfolding hex
reply_of def none = refusal err_store_unavailable
reply_of def (some r) =
    if length r.code == 0
    then record { ok = true; seq = r.seq; epoch = hex r.epoch; error = []; limit = pos 0 }
    else record (refusal r.code) { limit = if str_eq r.code err_full then def.limit else pos 0 }

-- What follows the checks: the job with the records goes to the queue. No other Submit comes between
-- the Load and the Add of this one.
unfoldable pub submit_checked :
    Options → Holder → Option ℤ → ℕ → Offer → Checked → Option Holder × Option EventReply
unfolding enqueue_job
submit_checked opts h deadline reply choice (err code) = (some h, some (refusal code))
submit_checked opts h deadline reply choice (ok (op, recs)) =
    let j : Job = record { op = op; recs = recs; reply = some reply; deadline = deadline } in
    let r = enqueue_job opts h h.queued j choice in (some r.0, r.1)

-- Submit up to the wait for the result: `mounted` is what `k.get(name)` gave.
unfoldable pub submit :
    Library
    → Options
    → Bool
    → Option Holder
    → Event
    → ℤ
    → Option ℤ
    → ℕ
    → Offer
    → Option Holder × Option EventReply
unfolding check_event submit_checked
submit lib opts ready mounted ev now deadline reply choice =
    if not ready then (mounted, some (refusal err_not_ready)) else (elim mounted [
      | none ↦ (none, some (refusal err_unknown_set))
      | some h ↦ submit_checked opts h deadline reply choice (check_event lib h.s.def ev now)
    ])
