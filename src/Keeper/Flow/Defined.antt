-- ===== src/Keeper/Flow/Defined.antt =====
-- What Define of internal/keeper/keeper.go leaves.
use placitum_keeper.Base.{
  ◌≡◌, refl, Bool, true, false, not, ◌⊎◌, if◌then◌else◌, Option, some, none, Str, str_eq, List, [],
  inl, inr, Bool-cases, ◌==◌,
}
use placitum_keeper.Base.Maps.{lookup, Distinct}
use placitum_keeper.Base.Results.{Result, ok, err}
use placitum_keeper.Keeper.Flow.Mounted.{mount_set-Pipeline, new-Pipeline}
use placitum_keeper.Keeper.Flow.Names.{stays, lookup-install, lookup-drop}
use placitum_keeper.Keeper.Mount.{
  Keeper, Mounted, Outside, Random, belongs, define, define_reply, drop, dropped_reply, epoch_of,
  install_mounted, is_mounted, mount, mount_by, mount_set, publish_tick, refused_define,
  resume_or_load,
}
use placitum_keeper.Keeper.Types.{Holder, new_holder}
use placitum_keeper.Sets.Load.{load, resume}
use placitum_keeper.Sets.Load.Content.{load-Pipeline, load_kept, resume_kept}
use placitum_keeper.Sets.Netip.{Library}
use placitum_keeper.Sets.Pipeline.{Pipeline}
use placitum_keeper.Sets.State.{new, random_u64}
use placitum_keeper.Sets.Types.{Definition, Record}
use placitum_keeper.Store.Commands.{Loaded, failed, absent, bad_meta, present}
use placitum_keeper.Store.Meta.{Meta}
use placitum_keeper.Wire.Frames.{DefineReply}

-- The set that mount builds has the definition, whatever the store gave.
abbrev pub Defines : Definition → Option Mounted → Type 0
Defines d none = Unit {0}
Defines d (some m) = m.s.def ≡ d

-- Where mount is asked for a fresh set, the set has the new epoch; there is none only where the
-- state could not be read.
abbrev pub IsNew : Definition → Loaded → Random → Option Mounted → Type 0
IsNew d loaded r none = loaded ≡ failed
IsNew d loaded r (some m) = (m.s.def ≡ d) × (m.s.epoch ≡ random_u64 r.epoch) × Pipeline m.s []

module _ (lib : Library) (d : Definition) where
  load-new :
      (r : Random) (rs : List Record)
      → ((load lib (new d r.seq0 r.epoch r.key) rs).epoch ≡ random_u64 r.epoch)
        × ((load lib (new d r.seq0 r.epoch r.key) rs).def ≡ d)
  unfolding new
  load-new r rs = load_kept lib (new d r.seq0 r.epoch r.key) rs

  resume_or_load-def :
      (m : Meta) (recs : List Record) (r1 r2 : Random) → (resume_or_load lib d m recs r1 r2).def ≡ d
  unfolding resume_or_load new
  resume_or_load-def m recs r1 r2 =
      elim (Bool-cases
        ((resume lib (new d r1.seq0 r1.epoch r1.key) m.epoch m.key m.seq recs).hash == m.hash)) [
          | inl e ↦
              rw e ((resume_kept lib (new d r1.seq0 r1.epoch r1.key) m.epoch m.key m.seq recs).3)
          | inr e ↦ rw e ((load-new r2 recs).1)
        ]

  pub mount_set-Defines :
      (fresh : Bool) (loaded : Loaded) (r1 r2 : Random)
      → Defines d (mount_set lib d fresh loaded r1 r2)
  unfolding mount_set new
  mount_set-Defines fresh failed r1 r2 = tt
  mount_set-Defines fresh absent r1 r2 = refl
  mount_set-Defines fresh (bad_meta recs) r1 r2 = (load-new r1 recs).1
  mount_set-Defines fresh (present m recs) r1 r2 = elim (Bool-cases (belongs m d)) [
    | inr e ↦ rw e refl
    | inl e ↦ rw e (elim (Bool-cases fresh) [
      | inl f ↦ rw f ((load-new r1 recs).1)
      | inr f ↦ rw f (resume_or_load-def m recs r1 r2)
    ])
  ]

  mount_set-IsNew :
      (loaded : Loaded) (r1 r2 : Random) → IsNew d loaded r1 (mount_set lib d true loaded r1 r2)
  unfolding mount_set new
  mount_set-IsNew failed r1 r2 = refl
  mount_set-IsNew absent r1 r2 = (refl, refl, mount_set-Pipeline lib d true absent r1 r2)
  mount_set-IsNew (bad_meta recs) r1 r2 =
      let kept = load-new r1 recs in
      (kept.1, kept.0, mount_set-Pipeline lib d true (bad_meta recs) r1 r2)
  mount_set-IsNew (present m recs) r1 r2 = elim (Bool-cases (belongs m d)) [
    | inr e ↦ rw e (refl, refl, new-Pipeline d r1.seq0 r1.epoch r1.key)
    | inl e ↦
        let kept = load-new r1 recs in
        rw e (kept.1, kept.0, load-Pipeline lib (new d r1.seq0 r1.epoch r1.key) recs)
  ]

-- The set is mounted: its name holds it with the definition, a new epoch, sound content and no
-- waiting batch; the set that had its ID under another name is gone, and no other name changes.
abbrev pub IsMounted : Keeper → Str → Definition → Outside → Keeper × DefineReply → Type 0
IsMounted k name d o r =
    (h : Holder) × (h.s.def ≡ d)
    × (h.s.epoch ≡ random_u64 o.first.epoch)
    × Pipeline h.s []
    × (h.batches ≡ [])
    × ((j : Str)
        → lookup j r.0.sets ≡ (if str_eq d.name j then some h else stays d (lookup j k.sets)))
    × (r.1 ≡ record { ok = true; epoch = epoch_of (lookup name r.0.sets); error = [] })

-- The name holds nothing, and no other name changes.
abbrev pub IsDropped : Keeper → Str → Keeper × DefineReply → Type 0
IsDropped k name r =
    ((j : Str) → lookup j r.0.sets ≡ (if str_eq name j then none else lookup j k.sets))
    × (r.1 ≡ dropped_reply)

abbrev pub IsRefused : Keeper → Keeper × DefineReply → Type 0
IsRefused k r = r ≡ (k, refused_define)

-- By whether the set is active: mounted where its state was written, refused where it was not read or
-- not written.
abbrev pub ByActive : Keeper → Str → Definition → Outside → Bool → Keeper × DefineReply → Type 0
ByActive k name d o false r = IsDropped k name r
ByActive k name d o true r =
    ((o.reset ≡ true) × IsMounted k name d o r)
    ⊎ (((o.loaded ≡ failed) ⊎ (o.reset ≡ false)) × IsRefused k r)

abbrev pub IsDefined :
    Keeper → Str → Result (Unit {0}) (Option Definition) → Outside → Keeper × DefineReply → Type 0
IsDefined k name (err e) o r = IsRefused k r
IsDefined k name (ok none) o r = IsDropped k name r
IsDefined k name (ok (some d)) o r = ByActive k name d o d.active r

-- A fresh set is asked for also where the definition is the same.
asks_again : (d : Definition) (old : Option Holder) → is_mounted old true d ≡ false
asks_again d none = refl
asks_again d (some h) = refl

module _ (k : Keeper) (name : Str) (distinct : Distinct k.sets) (d : Definition) (o : Outside) where
  by_reset :
      (m : Option Mounted) (reset : Bool)
      → o.reset ≡ reset
      → IsNew d o.loaded o.first m
      → ByActive k name d o true (define_reply k name (install_mounted k d m reset))
  unfolding publish_tick
  by_reset none reset is built = inr (inl built, refl)
  by_reset (some m) false is built = inr (inr is, refl)
  by_reset (some m) true is built = inl (
    is,
    (
      publish_tick (new_holder m.s),
      built.0,
      built.1,
      built.2,
      refl,
      (λ j. lookup-install k d m.s j distinct),
      refl,
    ),
  )

-- What Define comes to, for any set of names, each of which the map holds once. Where the catalog
-- cannot be asked, nothing changes and the reply is an error. Where the set is not in the catalog, or
-- not active, its name holds nothing and no other name changes. An active set is mounted where its
-- state could be read and written: with the catalog's definition, a new epoch, sound content and no
-- waiting batch; the set that had its ID under another name is gone, and every other name is as
-- before. Where the state was not read or not written, nothing changes and the reply is an error.
pub define-IsDefined :
    (lib : Library) (k : Keeper) (name : Str) (found : Result (Unit {0}) (Option Definition))
    (o : Outside)
    → Distinct k.sets
    → IsDefined k name found o (define lib k name found o)
unfolding define mount
define-IsDefined lib k name (err e) o distinct = refl
define-IsDefined lib k name (ok none) o distinct = ((λ j. lookup-drop k name j distinct), refl)
define-IsDefined lib k name (ok (some d)) o distinct =
    let dropped : Keeper × DefineReply = (drop k name, dropped_reply) in
    let tried = define_reply k name (mount_by lib k d true o) in
    elim d.active as (λ b. ByActive k name d o b (if not b then dropped else tried)) [
      | false ↦ ((λ j. lookup-drop k name j distinct), refl)
      | true ↦ rw (asks_again d (lookup d.name k.sets)) (
          by_reset k name distinct d o (mount_set lib d true o.loaded o.first o.again) o.reset refl
            (mount_set-IsNew lib d o.loaded o.first o.again))
    ]
