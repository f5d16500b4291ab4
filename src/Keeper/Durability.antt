-- ===== src/Keeper/Durability.antt =====
-- The committer of internal/keeper/keeper.go together with the server that internal/state/state.go
-- writes to: what a batch leaves in Redis and what it leaves in memory.
pub mod Contents
pub mod Runs
pub mod Restart
pub mod Lives
use placitum_keeper.Base.{
  ℕ, suc, ◌+◌, ◌^◌, ◌<◌, ◌≡◌, refl, sym, ap, ◌∙◌, Bool, true, false, ◌&&◌, Option, some, none, Str,
  if◌then◌else◌, ◌==◌, List, [], ◌∷◌, length, All, arith, inl, inr, Bool-cases,
}
use placitum_keeper.Base.Int.{ℤ}
use placitum_keeper.Base.Maps.{Map}
use placitum_keeper.Keeper.Committer.{commit_next}
use placitum_keeper.Keeper.Durability.Contents.{digest_lt}
use placitum_keeper.Keeper.Flow.{Sound, IsOld, current}
use placitum_keeper.Keeper.Flow.Commits.{
  commit_next-Sound, commit_gen, abort_gen, commit_next_empty, commit_next_stale,
  commit_next_refused, commit_next_stored, first_batch, current_first, commit_seq,
}
use placitum_keeper.Keeper.Mount.{meta_of}
use placitum_keeper.Keeper.Types.{Options, Batch, Holder}
use placitum_keeper.Sets.Committing.{commit, commit_finish}
use placitum_keeper.Sets.Committing.Loop.{commit_loop-SameFrame}
use placitum_keeper.Sets.Ideal.{replay, digest}
use placitum_keeper.Sets.Netip.{Library}
use placitum_keeper.Sets.Pipeline.{Pipeline}
use placitum_keeper.Sets.Pipeline.Dequeue.{commit-Pipeline}
use placitum_keeper.Sets.State.{abort, settle}
use placitum_keeper.Sets.Types.{Set, SetType, Entry, Plan}
use placitum_keeper.Store.Meta.RoundTrip.{IsMeta}
use placitum_keeper.Store.Redis
use placitum_keeper.Store.Redis.{Redis, IsLawful}
use placitum_keeper.Store.Redis.Durable.{Durable, IsForeign, renewed, commit-Durable}
use placitum_keeper.Store.Redis.Effects.{IsChange}
use placitum_keeper.Store.Redis.Loads.{AllStorable}
use placitum_keeper.Store.Redis.Recovery.{Synced}
use mathlib.Core.Path.{subst, transport}

-- What Redis gets of a batch, where `w` is the content that the batch comes upon, can be read back.
pub record CanStore (lib : Library) (key : List ℕ) (t : SetType) (name : Str) (w : Map Entry)
    (b : Batch) : Type 0 where
  pub foreign : IsForeign b.pkg_key name
  pub changes : All IsChange b.plan.deltas
  pub storable : AllStorable lib key t (replay w b.plan.deltas)
  pub seq : b.plan.seq < 2 ^ 64

-- The waiting batches of a generation, each on the content that the ones before it leave.
unfoldable pub Ready : Library → List ℕ → SetType → Str → ℕ → Map Entry → List Batch → Type 0
Ready lib key t name gen w [] = Unit {0}
Ready lib key t name gen w (b ∷ bs) =
    ((b.plan.gen == gen) ≡ true
      → CanStore lib key t name w b × Ready lib key t name gen (replay w b.plan.deltas) bs)
    × ((b.plan.gen == gen) ≡ false → Ready lib key t name gen w bs)

abbrev pub ReadyOn : Library → Set → List Batch → Type 0
ReadyOn lib s bs = Ready lib s.key s.def.type s.def.name s.gen s.entries bs

-- A set, its waiting batches and the server in step: what waits is sound and can be stored, and the
-- server has the committed state.
pub record Backed (lib : Library) (R : Redis) (st : R.State) (h : Holder) : Type 0 where
  pub sound : Sound h
  pub synced : Synced lib R st h.s
  pub ready : ReadyOn lib h.s h.batches

-- The server after `case b := <-h.batches`: a batch of the set's generation is sent, and the
-- transaction runs where the store reports no error.
unfoldable pub store_next : (R : Redis) → Options → Holder → R.State → Bool → R.State
store_next R opts h st stored = elim h.batches [
  | [] ↦ st
  | b ∷ bs ↦
      if (b.plan.gen == h.s.gen) && stored
      then Redis.commit R st h.s.def.name b.plan.deltas b.plan.seq b.plan.hash b.pkg_key b.pkg
          opts.diff_ttl
      else st
]

store_next_empty :
    (R : Redis) (opts : Options) (h : Holder) (st : R.State) (stored : Bool)
    → h.batches ≡ []
    → store_next R opts h st stored ≡ st
unfolding store_next
store_next_empty R opts h st stored first = rw first refl

store_next_first :
    (R : Redis) (opts : Options) (h : Holder) (b : Batch) (bs : List Batch) (st : R.State)
    (stored : Bool)
    → h.batches ≡ b ∷ bs
    → store_next R opts h st stored ≡ (
        if (b.plan.gen == h.s.gen) && stored
        then Redis.commit R st h.s.def.name b.plan.deltas b.plan.seq b.plan.hash b.pkg_key b.pkg
            opts.diff_ttl
        else st)
unfolding store_next
store_next_first R opts h b bs st stored first = rw first refl

commit_frame :
    (s : Set) (p : Plan) (now : ℤ)
    → ((commit s p now).0.def ≡ s.def)
      × ((commit s p now).0.epoch ≡ s.epoch)
      × ((commit s p now).0.key ≡ s.key)
unfolding commit commit_finish
commit_frame s p now =
    let f = commit_loop-SameFrame p.seq p.deltas s in
    (ground (arith, f.def), ground (arith, f.epoch), ground (arith, f.key))

module _ (lib : Library) (R : Redis) (L : IsLawful R) where
  pub same-Synced :
      (st st' : R.State) (s s' : Set) → st' ≡ st → s' ≡ s → Synced lib R st s → Synced lib R st' s'
  same-Synced st st' s s' e f k = transport (λ i. Synced lib R (sym e i) (sym f i)) k

  abort-Synced : (st : R.State) (s : Set) → Synced lib R st s → Synced lib R st (abort s)
  unfolding abort settle
  abort-Synced st s k = record { held = k.held; widths = k.widths; storable = k.storable }

  stored-Synced :
      (st : R.State) (s : Set) (b : Batch) (q : List Plan) (ttl : ℤ)
      → Synced lib R st s
      → Pipeline s (b.plan ∷ q)
      → CanStore lib s.key s.def.type s.def.name s.entries b
      → Synced lib R
          (Redis.commit R st s.def.name b.plan.deltas b.plan.seq b.plan.hash b.pkg_key b.pkg ttl)
          (commit s b.plan b.at).0
  stored-Synced st s b q ttl k inv can =
      let t : Set = (commit s b.plan b.at).0 in
      let done = commit-Pipeline s b.plan q b.at inv in
      let frame = commit_frame s b.plan b.at in
      let number : t.seq ≡ b.plan.seq = commit_seq s b.plan b.at inv.order.1 in
      let hash : t.hash ≡ b.plan.hash = done.2.hash ∙ ap digest done.1 ∙ sym inv.order.2 in
      let meta : meta_of t ≡ renewed (meta_of s) b.plan.seq b.plan.hash = (λ i. record {
        id = (frame.0 i).id;
        type = (frame.0 i).type;
        epoch = frame.1 i;
        key = frame.2 i;
        seq = number i;
        hash = hash i;
      }) in
      let storable : AllStorable lib t.key t.def.type t.entries =
        transport (λ i. AllStorable lib (sym frame.2 i) (sym frame.0 i).type (sym done.1 i))
          can.storable in
      let width : b.plan.hash < 2 ^ 64 =
        subst (λ n. n < 2 ^ 64) hash
          (subst (λ n. n < 2 ^ 64) (sym done.2.hash)
            (digest_lt lib t.key t.def.type t.entries done.2.distinct storable)) in
      let held =
        commit-Durable R L st s.def.name b.plan.deltas b.plan.seq b.plan.hash b.pkg_key b.pkg ttl
          can.foreign (meta_of s) s.entries k.held inv.distinct can.changes in
      record {
        held =
            transport
              (λ i.
                Durable R
                  (Redis.commit R st s.def.name b.plan.deltas b.plan.seq b.plan.hash b.pkg_key b.pkg
                    ttl)
                  (sym frame.0 i).name (sym meta i) (sym done.1 i))
              held;
        widths = subst IsMeta (sym meta) (record {
          type = k.widths.type;
          epoch = k.widths.epoch;
          key = k.widths.key;
          seq = can.seq;
          hash = width;
        });
        storable = storable;
      }

  -- The server and the memory of a set stay in step.
  next-Synced :
      (opts : Options) (h : Holder) (st : R.State) (stored : Bool) (ms : ℕ) (cs : List Batch)
      → h.batches ≡ cs
      → Sound h
      → Synced lib R st h.s
      → ReadyOn lib h.s cs
      → Synced lib R (store_next R opts h st stored) (commit_next opts h stored ms).s
  unfolding Ready
  next-Synced opts h st stored ms [] first k sync ready =
      same-Synced st _ h.s _ (store_next_empty R opts h st stored first)
        (ap (λ g. g.s) (commit_next_empty opts h stored ms first)) sync
  next-Synced opts h st stored ms (b ∷ bs) first k sync ready =
      let sent = store_next_first R opts h b bs st stored first in
      elim (Bool-cases (b.plan.gen == h.s.gen)) [
        | inr g ↦
            same-Synced st _ h.s _ (sent ∙ rw g refl)
              (commit_next_stale opts h b bs stored ms first g).0 sync
        | inl g ↦ elim (Bool-cases stored) [
          | inr e ↦ rw e (
              same-Synced st _ (abort h.s) _ (rw (g, e) at sent)
                (commit_next_refused opts h b bs ms first g).0 (abort-Synced st h.s sync))
          | inl e ↦ rw e (
              same-Synced _ _ (commit h.s b.plan b.at).0 _ (rw (g, e) at sent)
                (commit_next_stored opts h b bs ms first g).0
                (stored-Synced st h.s b (current h.s.gen bs) opts.diff_ttl sync
                  (current_first h b bs (first_batch h b bs k first).0 g) (ready.0 g).0))
        ]
      ]

  -- No batch of an older generation is current.
  Ready-none :
      (key : List ℕ) (t : SetType) (name : Str) (gen : ℕ) (w : Map Entry) (bs : List Batch)
      → All (IsOld gen) bs
      → Ready lib key t name (suc gen) w bs
  unfolding Ready
  Ready-none key t name gen w [] old = tt
  Ready-none key t name gen w (b ∷ bs) old =
      (λ e. absurd (ground (arith, old.0)), λ e. Ready-none key t name gen w bs old.1)

  abbrev ReadyAt : Set → Map Entry → List Batch → Type 0
  ReadyAt s w bs = Ready lib s.key s.def.type s.def.name s.gen w bs

  committed-Ready :
      (s : Set) (b : Batch) (bs : List Batch) (q : List Plan)
      → Pipeline s (b.plan ∷ q)
      → ReadyAt s (replay s.entries b.plan.deltas) bs
      → ReadyOn lib (commit s b.plan b.at).0 bs
  committed-Ready s b bs q inv ready =
      let frame = commit_frame s b.plan b.at in
      transport
        (λ i.
          Ready lib (sym frame.2 i) (sym frame.0 i).type (sym frame.0 i).name
            (sym (commit_gen s b.plan b.at) i) (sym (commit-Pipeline s b.plan q b.at inv).1 i) bs)
        ready

  aborted-Ready :
      (s : Set) (bs : List Batch)
      → All (IsOld s.gen) bs
      → s.gen + 1 < 2 ^ 64
      → ReadyOn lib (abort s) bs
  aborted-Ready s bs old room =
      unfold abort settle in
      transport (λ i. Ready lib s.key s.def.type s.def.name (sym (abort_gen s room) i) s.entries bs)
        (Ready-none s.key s.def.type s.def.name s.gen s.entries bs old)

  pub same-Ready :
      (g : Holder) (s : Set) (bs : List Batch)
      → (g.s ≡ s) × (g.batches ≡ bs)
      → ReadyOn lib s bs
      → ReadyOn lib g.s g.batches
  same-Ready g s bs same ready = transport (λ i. ReadyOn lib (sym same.0 i) (sym same.1 i)) ready

  next-Ready :
      (opts : Options) (h : Holder) (stored : Bool) (ms : ℕ) (cs : List Batch)
      → h.batches ≡ cs
      → Sound h
      → h.s.gen + 1 < 2 ^ 64
      → ReadyOn lib h.s cs
      → ReadyOn lib (commit_next opts h stored ms).s (commit_next opts h stored ms).batches
  unfolding Ready
  next-Ready opts h stored ms [] first k room ready =
      let same = commit_next_empty opts h stored ms first in
      same-Ready (commit_next opts h stored ms) h.s []
        (ap (λ g. g.s) same, ap (λ g. g.batches) same ∙ first) ready
  next-Ready opts h stored ms (b ∷ bs) first k room ready =
      let start = first_batch h b bs k first in
      elim (Bool-cases (b.plan.gen == h.s.gen)) [
        | inr g ↦
            same-Ready (commit_next opts h stored ms) h.s bs
              (commit_next_stale opts h b bs stored ms first g) (ready.1 g)
        | inl g ↦ elim (Bool-cases stored) [
          | inr e ↦ rw e (
              same-Ready (commit_next opts h false ms) (abort h.s) bs
                (commit_next_refused opts h b bs ms first g) (aborted-Ready h.s bs start.1.1 room))
          | inl e ↦ rw e (
              same-Ready (commit_next opts h true ms) (commit h.s b.plan b.at).0 bs
                (commit_next_stored opts h b bs ms first g)
                (committed-Ready h.s b bs (current h.s.gen bs) (current_first h b bs start.0 g)
                  (ready.0 g).1))
        ]
      ]

  -- The committer keeps a set, its waiting batches and the server in step, whether no batch waits,
  -- the batch is out of date, the store refuses it, or the store takes it. The server meets the
  -- laws, a transaction that reports an error did not run, and the generation does not wrap.
  pub commit_next-Backed :
      (opts : Options) (h : Holder) (st : R.State) (stored : Bool) (ms : ℕ)
      → Backed lib R st h
      → h.s.gen + 1 < 2 ^ 64
      → Backed lib R (store_next R opts h st stored) (commit_next opts h stored ms)
  commit_next-Backed opts h st stored ms k room = record {
    sound = commit_next-Sound opts h stored ms k.sound room;
    synced = next-Synced opts h st stored ms h.batches refl k.sound k.synced k.ready;
    ready = next-Ready opts h stored ms h.batches refl k.sound room k.ready;
  }
