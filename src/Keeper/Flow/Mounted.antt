-- ===== src/Keeper/Flow/Mounted.antt =====
-- Mounting, defining, reloading and dropping, in internal/keeper/keeper.go: the keeper's sets stay
-- in step with their waiting batches.
use placitum_keeper.Base.{
  ℕ, ◌≡◌, ◌≢◌, refl, sym, ◌∙◌, if◌then◌else◌, Bool, true, false, not, ◌⊎◌, Option, some, none, Str,
  str_eq, List, [], ◌∷◌, ◌==◌, ==_iff, arith, inl, inr, Bool-cases, Option-cases,
}
use placitum_keeper.Base.Maps.{Map, lookup, insert, erase, xor_all}
use placitum_keeper.Base.Results.{Result, ok, err}
use placitum_keeper.Keeper.Flow.{Sound}
use placitum_keeper.Keeper.Mount.{
  Keeper, Random, Mounted, Outside, drop_held, install_mounted, mount_by, is_mounted, define_reply,
  dropped_reply, resume_or_load, mount_set, belongs, install, without_renamed, is_renamed,
  publish_tick, mount, mount_all, drop, drop_all, define, reload, gone,
}
use placitum_keeper.Keeper.Types.{Holder, new_holder}
use placitum_keeper.Sets.Ideal.{digest}
use placitum_keeper.Sets.Load.{load, resume}
use placitum_keeper.Sets.Load.Content.{load-Pipeline, resume_kept}
use placitum_keeper.Sets.Netip.{Library}
use placitum_keeper.Sets.Pipeline.{Pipeline, replay_plans, owner, last_seq}
use placitum_keeper.Sets.State.{new, lookup_value}
use placitum_keeper.Sets.Types.{Set, Definition, Record}
use placitum_keeper.Store.Commands.{Loaded, failed, absent, bad_meta, present}
use placitum_keeper.Store.Meta.{Meta}
use placitum_keeper.Wire.Frames.{DefineReply}
use mathlib.Core.Path.{subst}

pub new-Pipeline :
    (d : Definition) (seq0 random : ℕ) (key : List ℕ) → Pipeline (new d seq0 random key) []
unfolding new lookup_value replay_plans owner last_seq lookup xor_all
new-Pipeline d seq0 random key = record {
  distinct = tt;
  distinct_pend = tt;
  hash = refl;
  view = λ k. refl;
  size = refl;
  pend_hash = refl;
  seq = refl;
  order = tt;
  owners = λ k. refl;
}

module _ (lib : Library) (d : Definition) where
  resume-Pipeline :
      (s : Set) (epoch : ℕ) (key : List ℕ) (seq : ℕ) (rs : List Record)
      → Pipeline (resume lib s epoch key seq rs) []
  unfolding resume
  resume-Pipeline s epoch key seq rs =
      load-Pipeline lib (record s { epoch = epoch; key = key; seq = seq }) rs

  -- A set that is mounted over stored state goes on with the stored epoch, key and number where the
  -- resumed content has the stored hash, which is then its digest; where it has not, the records are
  -- loaded into a new set, with the epoch, key and number of that one.
  pub resume_or_load_lem :
      (m : Meta) (recs : List Record) (r1 r2 : Random)
      → (let s = resume_or_load lib d m recs r1 r2 in
          (s.epoch ≡ m.epoch) × (s.key ≡ m.key) × (s.seq ≡ m.seq) × (digest s.entries ≡ m.hash))
        ⊎ (((resume lib (new d r1.seq0 r1.epoch r1.key) m.epoch m.key m.seq recs).hash ≢ m.hash)
            × (resume_or_load lib d m recs r1 r2 ≡ load lib (new d r2.seq0 r2.epoch r2.key) recs))
  unfolding resume_or_load
  resume_or_load_lem m recs r1 r2 =
      let fresh : Set = new d r1.seq0 r1.epoch r1.key in
      let s = resume lib fresh m.epoch m.key m.seq recs in
      let kept = resume_kept lib fresh m.epoch m.key m.seq recs in
      let inv = resume-Pipeline fresh m.epoch m.key m.seq recs in
      elim (Bool-cases (s.hash == m.hash)) [
        | inl e ↦ rw e (inl (kept.0, kept.1, kept.2, sym inv.hash ∙ (==_iff s.hash m.hash).0 e))
        | inr e ↦ rw e (inr (ground arith, refl))
      ]

  resume_or_load-Pipeline :
      (m : Meta) (recs : List Record) (r1 r2 : Random)
      → Pipeline (resume_or_load lib d m recs r1 r2) []
  unfolding resume_or_load
  resume_or_load-Pipeline m recs r1 r2 =
      elim (Bool-cases
        ((resume lib (new d r1.seq0 r1.epoch r1.key) m.epoch m.key m.seq recs).hash == m.hash)) [
          | inl e ↦ rw e (resume-Pipeline (new d r1.seq0 r1.epoch r1.key) m.epoch m.key m.seq recs)
          | inr e ↦ rw e (load-Pipeline lib (new d r2.seq0 r2.epoch r2.key) recs)
        ]

  abbrev pub Empty : Option Mounted → Type 0
  Empty none = Unit {0}
  Empty (some m) = Pipeline m.s []

  pub mount_set-Pipeline :
      (fresh : Bool) (loaded : Loaded) (r1 r2 : Random) → Empty (mount_set lib d fresh loaded r1 r2)
  unfolding mount_set
  mount_set-Pipeline fresh failed r1 r2 = tt
  mount_set-Pipeline fresh absent r1 r2 = new-Pipeline d r1.seq0 r1.epoch r1.key
  mount_set-Pipeline fresh (bad_meta recs) r1 r2 =
      load-Pipeline lib (new d r1.seq0 r1.epoch r1.key) recs
  mount_set-Pipeline fresh (present m recs) r1 r2 = elim (Bool-cases (belongs m d)) [
    | inr e ↦ rw e (new-Pipeline d r1.seq0 r1.epoch r1.key)
    | inl e ↦ rw e (elim (Bool-cases fresh) [
      | inl f ↦ rw f (load-Pipeline lib (new d r1.seq0 r1.epoch r1.key) recs)
      | inr f ↦ rw f (resume_or_load-Pipeline m recs r1 r2)
    ])
  ]

-- Every set of a keeper is in step with its waiting batches.
module _ where
  abbrev pub AllSound : Map Holder → Type 0
  AllSound [] = Unit {0}
  AllSound ((name, h) ∷ m) = Sound h × AllSound m

  pub insert-AllSound :
      (name : Str) (h : Holder) (m : Map Holder) → Sound h → AllSound m → AllSound (insert name h m)
  unfolding insert
  insert-AllSound name h [] k ks = (k, tt)
  insert-AllSound name h ((n, g) ∷ m) k ks = elim (Bool-cases (str_eq n name)) [
    | inl e ↦ rw e (k, ks.1)
    | inr e ↦ rw e (ks.0, insert-AllSound name h m k ks.1)
  ]

  erase-AllSound : (name : Str) (m : Map Holder) → AllSound m → AllSound (erase name m)
  unfolding erase
  erase-AllSound name [] ks = tt
  erase-AllSound name ((n, g) ∷ m) ks = elim (Bool-cases (str_eq n name)) [
    | inl e ↦ rw e ks.1
    | inr e ↦ rw e (ks.0, erase-AllSound name m ks.1)
  ]

  without_renamed-AllSound :
      (d : Definition) (m : Map Holder) → AllSound m → AllSound (without_renamed d m)
  unfolding without_renamed
  without_renamed-AllSound d [] ks = tt
  without_renamed-AllSound d ((n, g) ∷ m) ks = elim (Bool-cases (is_renamed d n g)) [
    | inl e ↦ rw e (without_renamed-AllSound d m ks.1)
    | inr e ↦ rw e (ks.0, without_renamed-AllSound d m ks.1)
  ]

  publish_tick-Sound : (h : Holder) → Sound h → Sound (publish_tick h)
  unfolding publish_tick
  publish_tick-Sound h k = record { pipeline = k.pipeline; old = k.old }

  install-AllSound :
      (k : Keeper) (d : Definition) (s : Set)
      → Pipeline s []
      → AllSound k.sets
      → AllSound (install k d s).sets
  unfolding install
  install-AllSound k d s inv ks =
      let h = publish_tick-Sound (new_holder s) (record { pipeline = inv; old = tt }) in
      without_renamed-AllSound d _ (insert-AllSound d.name _ k.sets h ks)

  drop_held-AllSound :
      (k : Keeper) (name : Str) (o : Option Holder)
      → AllSound k.sets
      → AllSound (drop_held k name o).sets
  drop_held-AllSound k name none ks = ks
  drop_held-AllSound k name (some h) ks = erase-AllSound name k.sets ks

  drop-AllSound : (k : Keeper) (name : Str) → AllSound k.sets → AllSound (drop k name).sets
  unfolding drop
  drop-AllSound k name ks = drop_held-AllSound k name (lookup name k.sets) ks

  drop_all-AllSound :
      (k : Keeper) (names : List Str) → AllSound k.sets → AllSound (drop_all k names).sets
  unfolding drop_all
  drop_all-AllSound k [] ks = ks
  drop_all-AllSound k (n ∷ ns) ks = drop_all-AllSound (drop k n) ns (drop-AllSound k n ks)

  abbrev KeptSound : Option Keeper → Type 0
  KeptSound none = Unit {0}
  KeptSound (some k) = AllSound k.sets

  install_mounted-KeptSound :
      (k : Keeper) (d : Definition) (o : Option Mounted) (reset : Bool)
      → AllSound k.sets
      → (lib : Library) → Empty lib d o
      → KeptSound (install_mounted k d o reset)
  install_mounted-KeptSound k d none reset ks lib e = tt
  install_mounted-KeptSound k d (some m) true ks lib e = install-AllSound k d m.s e ks
  install_mounted-KeptSound k d (some m) false ks lib e = tt

module _ (lib : Library) where
  mount-KeptSound :
      (k : Keeper) (d : Definition) (fresh : Bool) (o : Outside)
      → AllSound k.sets
      → KeptSound (mount_by lib k d fresh o)
  unfolding mount
  mount-KeptSound k d fresh o ks = elim (Bool-cases (is_mounted (lookup d.name k.sets) fresh d)) [
    | inl e ↦ rw e ks
    | inr e ↦ rw e (
        install_mounted-KeptSound k d _ o.reset ks lib
          (mount_set-Pipeline lib d fresh o.loaded o.first o.again))
  ]

  pub mount_all-AllSound :
      (k : Keeper) (ds : List (Definition × Outside))
      → AllSound k.sets
      → AllSound (mount_all lib k ds).0.sets
  unfolding mount_all
  mount_all-AllSound k [] ks = ks
  mount_all-AllSound k ((d, o) ∷ ds) ks = elim (Option-cases (mount_by lib k d false o)) [
    | inl e ↦ rw (mount_all, e) ks
    | inr (g, e) ↦
        rw (mount_all, e)
          (mount_all-AllSound g ds (subst KeptSound e (mount-KeptSound k d false o ks)))
  ]

  define_reply-AllSound :
      (k : Keeper) (name : Str) (o : Option Keeper)
      → AllSound k.sets
      → KeptSound o
      → AllSound (define_reply k name o).0.sets
  define_reply-AllSound k name none ks e = ks
  define_reply-AllSound k name (some g) ks e = e

  -- Define keeps every set of the keeper in step with its waiting batches, whatever the catalog,
  -- the store, the clock and the random values give.
  pub define-AllSound :
      (k : Keeper) (name : Str) (found : Result (Unit {0}) (Option Definition)) (o : Outside)
      → AllSound k.sets
      → AllSound (define lib k name found o).0.sets
  unfolding define
  define-AllSound k name (err e) o ks = ks
  define-AllSound k name (ok none) o ks = drop-AllSound k name ks
  define-AllSound k name (ok (some d)) o ks =
      let tried = define_reply k name (mount_by lib k d true o) in
      let gone : Keeper × DefineReply = (drop k name, dropped_reply) in
      elim d.active as (λ b. AllSound (if not b then gone else tried).0.sets) [
        | true ↦ define_reply-AllSound k name _ ks (mount-KeptSound k d true o ks)
        | false ↦ drop-AllSound k name ks
      ]

  -- Reload keeps every set of the keeper in step with its waiting batches, also where a mount
  -- fails halfway.
  pub reload-AllSound :
      (k : Keeper) (ds : List (Definition × Outside))
      → AllSound k.sets
      → AllSound (reload lib k ds).0.sets
  unfolding reload
  reload-AllSound k ds ks =
      let g = (mount_all lib k ds).0 in
      elim (Bool-cases ((mount_all lib k ds).1)) [
        | inl e ↦ rw e (drop_all-AllSound g (gone ds g.sets) (mount_all-AllSound k ds ks))
        | inr e ↦ rw e (mount_all-AllSound k ds ks)
      ]
