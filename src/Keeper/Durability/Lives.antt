-- ===== src/Keeper/Durability/Lives.antt =====
-- A set of internal/keeper/keeper.go from its first mount on, through any steps of its goroutines and
-- any number of restarts.
use placitum_keeper.Base.{◌≡◌, sym, ap, ◌∙◌, true, false, some, Str, List, arith}
use placitum_keeper.Base.Maps.{Map, lookup}
use placitum_keeper.Base.Maps.Extensional.{Same}
use placitum_keeper.Keeper.Durability.{Ready, Backed}
use placitum_keeper.Keeper.Durability.Restart.{server, Storable, Step-Backed}
use placitum_keeper.Keeper.Flow.{current}
use placitum_keeper.Keeper.Flow.Mounted.{new-Pipeline}
use placitum_keeper.Keeper.Flow.Runs.{Step, Room}
use placitum_keeper.Keeper.Mount.{Random, Mounted, mount_set, meta_of, publish_tick}
use placitum_keeper.Keeper.Types.{Options, Holder, new_holder}
use placitum_keeper.Sets.Netip.{Library}
use placitum_keeper.Sets.Pipeline.{Pipeline}
use placitum_keeper.Sets.State.{new}
use placitum_keeper.Sets.Types.{Set, Definition, Entry, Plan}
use placitum_keeper.Store.Commands.{absent}
use placitum_keeper.Store.Meta.{Meta}
use placitum_keeper.Store.Meta.RoundTrip.{IsMeta}
use placitum_keeper.Store.Redis
use placitum_keeper.Store.Redis.{Redis, IsLawful}
use placitum_keeper.Store.Redis.Durable.{Durable, score_of, why_of}
use placitum_keeper.Store.Redis.Effects.{read_by}
use placitum_keeper.Store.Redis.Loads.{AllStorable}
use placitum_keeper.Store.Redis.Recovery.{
  Synced, resumed, resumed-Same, resumed-Pipeline, resumed_hash, resumed_kept, mounted,
}
use placitum_keeper.Store.Redis.Resets.{reset-Durable_kept, reset-Durable_new}
use mathlib.Core.Path.{subst, transport}
use mathlib.Core.Option.{some-injective}

-- The server after the Reset with which mount ends.
abbrev pub reset_for : (R : Redis) → R.State → Mounted → R.State
reset_for R st m = Redis.reset R st m.s.def.name (meta_of m.s) m.keep

-- The holder that mount installs.
abbrev pub mounted_holder : Set → Holder
mounted_holder s = publish_tick (new_holder s)

abbrev pub first_set : Definition → Random → Set
first_set d r = new d r.seq0 r.epoch r.key

-- The set is mounted where the server has nothing of it; then its goroutines make steps, and the
-- program is restarted.
pub data Life (lib : Library) (opts : Options) (R : Redis) : Holder → R.State → Type 0 where
  begun :
      (st : R.State) (d : Definition) (r1 r2 : Random) (m : Mounted)
      → Redis.load R st d.name ≡ absent
      → mount_set lib d false (Redis.load R st d.name) r1 r2 ≡ some m
      → Life lib opts R (mounted_holder m.s) (reset_for R st m)
  worked :
      {h g : Holder} {st : R.State}
      → Life lib opts R h st
      → (step : Step lib opts h g) → Life lib opts R g (server R step st)
  restarted :
      {h : Holder} {st : R.State}
      → Life lib opts R h st
      → (r1 r2 : Random) (m : Mounted)
      → mount_set lib h.s.def false (Redis.load R st h.s.def.name) r1 r2 ≡ some m
      → Life lib opts R (mounted_holder m.s) (reset_for R st m)

-- The first epoch and key have their widths, no counter wraps, and the records that are planned can be
-- stored.
unfoldable pub IsUsual :
    {lib : Library} {opts : Options} {R : Redis} {h : Holder} {st : R.State}
    → Life lib opts R h st
    → Type 0
IsUsual (begun st d r1 r2 m is from) = IsMeta (meta_of (first_set d r1))
IsUsual (worked {h} life step) = IsUsual life × Room h × Storable step
IsUsual (restarted life r1 r2 m from) = IsUsual life

module _ (lib : Library) (R : Redis) (L : IsLawful R) where
  Durable-Same :
      (st : R.State) (name : Str) (m : Meta) (w v : Map Entry)
      → Same v w
      → Durable R st name m w
      → Durable R st name m v
  Durable-Same st name m w v same held = record {
    score = λ k. held.score k ∙ ap (read_by score_of) (sym (same k));
    why = λ k. held.why k ∙ ap (read_by why_of) (sym (same k));
    meta = held.meta;
  }

  module _ (st : R.State) (s : Set) (sync : Synced lib R st s) (q : List Plan) (inv : Pipeline s q)
      (r1 r2 : Random) where
    abbrev t : Set
    t = resumed lib R L st s sync q inv r1 r2

    same_meta : meta_of t ≡ meta_of s
    same_meta =
        let kept = resumed_kept lib R L st s sync q inv r1 r2 in
        λ i. record {
          id = (kept.3 i).id;
          type = (kept.3 i).type;
          epoch = kept.0 i;
          key = kept.1 i;
          seq = kept.2 i;
          hash = resumed_hash lib R L st s sync q inv r1 r2 i;
        }

    again-Synced : Synced lib R (reset_for R st (record { s = t; keep = true })) t
    again-Synced =
        let kept = resumed_kept lib R L st s sync q inv r1 r2 in
        let same = resumed-Same lib R L st s sync q inv r1 r2 in
        let held =
          transport (λ i. Durable R st (sym kept.3 i).name (meta_of s) s.entries) sync.held in
        record {
          held =
              Durable-Same _ t.def.name (meta_of t) s.entries t.entries same
                (reset-Durable_kept R L st t.def.name (meta_of t) (meta_of s) s.entries held);
          widths = subst IsMeta (sym same_meta) sync.widths;
          storable = λ v e there.
              transport (λ i. AllStorable lib (sym kept.1 i) (sym kept.3 i).type s.entries)
                sync.storable v e (sym (same v) ∙ there);
        }

    again-Backed : Backed lib R (reset_for R st (record { s = t; keep = true })) (mounted_holder t)
    again-Backed =
        unfold Ready publish_tick in
        record {
          sound = record { pipeline = resumed-Pipeline lib R L st s sync q inv r1 r2; old = tt };
          synced = again-Synced;
          ready = tt;
        }

  abbrev BackedBy : R.State → Mounted → Type 0
  BackedBy st m = Backed lib R (reset_for R st m) (mounted_holder m.s)

  first-Backed :
      (st : R.State) (d : Definition) (r : Random)
      → IsMeta (meta_of (first_set d r))
      → BackedBy st (record { s = first_set d r; keep = false })
  unfolding Ready new publish_tick lookup
  first-Backed st d r widths = record {
    sound = record { pipeline = new-Pipeline d r.seq0 r.epoch r.key; old = tt };
    synced = record {
      held = reset-Durable_new R L st d.name (meta_of (first_set d r));
      widths = widths;
      storable = λ v e there. absurd (ground arith);
    };
    ready = tt;
  }

  first_mounted :
      (st : R.State) (d : Definition) (r1 r2 : Random) (m : Mounted)
      → Redis.load R st d.name ≡ absent
      → mount_set lib d false (Redis.load R st d.name) r1 r2 ≡ some m
      → record { s = first_set d r1; keep = false } ≡ m
  unfolding mount_set
  first_mounted st d r1 r2 m is from =
      some-injective _ m (sym (ap (λ l. mount_set lib d false l r1 r2) is) ∙ from)

  -- In every moment of the life of a set, from its first mount on, where the server has nothing of
  -- it, and through any number of restarts with its definition, the set and its waiting batches
  -- are in step, and Redis has the committed state in a form that can be read back. The server
  -- meets the laws, the first epoch and key have their widths, the records that are planned can be
  -- stored, a transaction that reports an error did not run, and the two counters of the set do
  -- not wrap.
  pub Life-Backed :
      (opts : Options) (h : Holder) (st : R.State) (life : Life lib opts R h st)
      → IsUsual life
      → Backed lib R st h
  unfolding IsUsual
  Life-Backed opts _ _ (begun st d r1 r2 m is from) usual =
      subst (BackedBy st) (first_mounted st d r1 r2 m is from) (first-Backed st d r1 usual)
  Life-Backed opts _ _ (worked {h} {g} {st} life step) usual =
      Step-Backed lib opts R L st h g step (Life-Backed opts h st life usual.0) usual.1 usual.2
  Life-Backed opts _ _ (restarted {h} {st} life r1 r2 m from) usual =
      let k = Life-Backed opts h st life usual in
      let q = current h.s.gen h.batches in
      subst (BackedBy st)
        (some-injective _ m (sym (mounted lib R L st h.s k.synced q k.sound.pipeline r1 r2) ∙ from))
        (again-Backed st h.s k.synced q k.sound.pipeline r1 r2)
