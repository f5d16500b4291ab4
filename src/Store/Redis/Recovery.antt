-- ===== src/Store/Redis/Recovery.antt =====
-- A restart: mount of internal/keeper/keeper.go on what internal/state/state.go kept.
use placitum_keeper.Base.{
  ℕ, ◌≡◌, refl, sym, ap, ◌∙◌, true, false, Option, some, none, Str, str_eq_refl, List, [], inl, inr,
  Option-cases, ==_iff,
}
use placitum_keeper.Base.Int.{eqb_ℤ_iff}
use placitum_keeper.Base.Maps.{Map, lookup}
use placitum_keeper.Base.Maps.Extensional.{Same, xor_all-Same}
use placitum_keeper.Keeper.Mount.{Random, Mounted, mount_set, resume_or_load, belongs, meta_of}
use placitum_keeper.Sets.Load.{resume, load}
use placitum_keeper.Sets.Load.Content.{load-Pipeline, resume_kept}
use placitum_keeper.Sets.Material.{hash_value}
use placitum_keeper.Sets.Netip.{Library}
use placitum_keeper.Sets.Pipeline.{Pipeline}
use placitum_keeper.Sets.State.{new, settle}
use placitum_keeper.Sets.Types.{Definition, Set, Entry, Plan, SetType}
use placitum_keeper.Store.Commands.{why_parts}
use placitum_keeper.Store.Meta.{Meta, set_key, why_key}
use placitum_keeper.Store.Meta.RoundTrip.{IsMeta}
use placitum_keeper.Store.Redis
use placitum_keeper.Store.Redis.{Redis, IsLawful}
use placitum_keeper.Store.Redis.Durable.{Durable, why_of}
use placitum_keeper.Store.Redis.Effects.{read_by}
use placitum_keeper.Store.Redis.Loads.{
  IsStorable, AllStorable, picked, load_loop_entries, load-Durable, records, cut-why,
}
use mathlib.Core.Path.{subst}

module _ (lib : Library) (R : Redis) (L : IsLawful R) (st : R.State) (name : Str) where
  -- What the server keeps of one value is the entry.
  read_back :
      (key : List ℕ) (t : SetType) (w : Map Entry) (v : Str) (m : Meta)
      → Durable R st name m w
      → AllStorable lib key t w
      → picked lib (R.fields st (why_key name)) key t v (lookup v (R.scores st (set_key name))) none
        ≡ lookup v w
  read_back key t w v m held ok = elim (Option-cases (lookup v w)) [
    | inl absent ↦ rw (held.score v) (rw absent refl)
    | inr (e, there) ↦
        let s : IsStorable lib key t v e = ok v e there in
        let parts : why_parts (lookup v (R.fields st (why_key name))) ≡ (e.origin, e.reason) =
          ap why_parts (held.why v ∙ ap (read_by why_of) there)
          ∙ cut-why e.origin e.reason s.origin in
        let tag : hash_value lib key t v ≡ e.hash = sym s.hash in
        rw (held.score v) (
          rw there (λ i.
            some
              (record { exp = s.exp i; origin = (parts i).0; reason = (parts i).1; hash = tag i })))
  ]

  -- The reads of a set that is resumed from the server's copy are those of the set that was stored.
  resume-Same :
      (s : Set) (epoch : ℕ) (key : List ℕ) (seq : ℕ) (m : Meta) (w : Map Entry)
      → Durable R st name m w
      → AllStorable lib key s.def.type w
      → Same (resume lib s epoch key seq (records R st name)).entries w
  unfolding resume load settle lookup
  resume-Same s epoch key seq m w held ok v =
      load_loop_entries lib (R.fields st (why_key name)) (R.scores st (set_key name)) _ key
        s.def.type v (L.distinct st (set_key name)) (λ u x there. refl) refl refl
      ∙ read_back key s.def.type w v m held ok

-- The server has the committed state of a set, in a form that can be read back.
pub record Synced (lib : Library) (R : Redis) (st : R.State) (s : Set) : Type 0 where
  pub held : Durable R st s.def.name (meta_of s) s.entries
  pub widths : IsMeta (meta_of s)
  pub storable : AllStorable lib s.key s.def.type s.entries

-- A mounted set that goes on where `s` was: same epoch, key, number and hash, and the same content.
abbrev pub Continues : Set → Option Mounted → Type 0
Continues s none = ⊥
Continues s (some m) =
    (m.keep ≡ true)
    × (m.s.epoch ≡ s.epoch)
    × (m.s.key ≡ s.key)
    × (m.s.seq ≡ s.seq)
    × (m.s.hash ≡ s.hash)
    × Same m.s.entries s.entries

new_def : (d : Definition) (seq0 epoch : ℕ) (key : List ℕ) → (new d seq0 epoch key).def ≡ d
unfolding new
new_def d seq0 epoch key = refl

module _ (lib : Library) (R : Redis) (L : IsLawful R) (st : R.State) (s : Set)
    (sync : Synced lib R st s) (q : List Plan) (inv : Pipeline s q) (r1 r2 : Random) where
  abbrev pub resumed : Set
  resumed =
      resume lib (new s.def r1.seq0 r1.epoch r1.key) s.epoch s.key s.seq (records R st s.def.name)

  pub resumed-Same : Same resumed.entries s.entries
  unfolding new
  resumed-Same =
      resume-Same lib R L st s.def.name (new s.def r1.seq0 r1.epoch r1.key) s.epoch s.key s.seq
        (meta_of s) s.entries sync.held sync.storable

  pub resumed-Pipeline : Pipeline resumed []
  unfolding resume
  resumed-Pipeline =
      load-Pipeline lib
        (record (new s.def r1.seq0 r1.epoch r1.key) { epoch = s.epoch; key = s.key; seq = s.seq })
        (records R st s.def.name)

  pub resumed_hash : resumed.hash ≡ s.hash
  resumed_hash =
      resumed-Pipeline.hash
      ∙ xor_all-Same (λ e. e.hash) resumed.entries s.entries resumed-Pipeline.distinct inv.distinct
          resumed-Same
      ∙ sym inv.hash

  goes_on : resume_or_load lib s.def (meta_of s) (records R st s.def.name) r1 r2 ≡ resumed
  unfolding resume_or_load
  goes_on = rw ((==_iff resumed.hash s.hash).1 resumed_hash) refl

  own : belongs (meta_of s) s.def ≡ true
  own = rw (str_eq_refl s.def.id) ((eqb_ℤ_iff s.def.type s.def.type).1 refl)

  pub mounted :
      mount_set lib s.def false (Redis.load R st s.def.name) r1 r2
      ≡ some (record { s = resumed; keep = true })
  unfolding mount_set
  mounted =
      ap (λ l. mount_set lib s.def false l r1 r2)
        (load-Durable R st s.def.name (meta_of s) s.entries sync.held sync.widths)
      ∙ rw own (ap (λ t. some (record { s = t; keep = true })) goes_on)

  pub resumed_kept :
      (resumed.epoch ≡ s.epoch)
      × (resumed.key ≡ s.key)
      × (resumed.seq ≡ s.seq)
      × (resumed.def ≡ s.def)
  resumed_kept =
      let kept =
        resume_kept lib (new s.def r1.seq0 r1.epoch r1.key) s.epoch s.key s.seq
          (records R st s.def.name) in
      (kept.0, kept.1, kept.2, kept.3 ∙ new_def s.def r1.seq0 r1.epoch r1.key)

  -- After a restart, mount on what the server has gives the set that was committed last: it keeps
  -- the state in Redis, goes on with the same epoch, key, number and hash, and has the same
  -- content. The set satisfied the invariant with its waiting plans, and the server, which meets
  -- the laws, had its committed state in a form that can be read back.
  pub mount_set-Continues :
      Continues s (mount_set lib s.def false (Redis.load R st s.def.name) r1 r2)
  mount_set-Continues =
      subst (Continues s) (sym mounted)
        (refl, resumed_kept.0, resumed_kept.1, resumed_kept.2, resumed_hash, resumed-Same)
