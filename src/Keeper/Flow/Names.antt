-- ===== src/Keeper/Flow/Names.antt =====
-- What mounting and dropping leave under each name, in internal/keeper/keeper.go.
use placitum_keeper.Base.{
  ◌≡◌, refl, ◌∙◌, if◌then◌else◌, Option, some, none, Str, str_eq, str_eq_iff, [], ◌∷◌, arith, inl,
  inr, Bool-cases, Option-cases,
}
use placitum_keeper.Base.Maps.{
  Map, lookup, insert, Distinct, lookup-insert, lookup-erase, Distinct-insert, Distinct-erase,
}
use placitum_keeper.Keeper.Mount.{Keeper, drop, install, is_renamed, publish_tick, without_renamed}
use placitum_keeper.Keeper.Types.{Holder, new_holder}
use placitum_keeper.Sets.Types.{Set, Definition}

-- What stays of the holder under another name when `d` is mounted: the set that had its ID goes.
abbrev pub stays : Definition → Option Holder → Option Holder
stays d none = none
stays d (some h) = if str_eq h.s.def.id d.id then none else some h

abbrev still : Definition → Str → Option Holder → Option Holder
still d j none = none
still d j (some h) = if is_renamed d j h then none else some h

lookup-without_renamed :
    (d : Definition) (j : Str) (m : Map Holder)
    → Distinct m
    → lookup j (without_renamed d m) ≡ still d j (lookup j m)
unfolding without_renamed lookup
lookup-without_renamed d j [] t = refl
lookup-without_renamed d j ((n, h) ∷ m) t =
    ground (arith, lookup-without_renamed d j m t.1, t.0, str_eq_iff n j)

pub Distinct-without_renamed :
    (d : Definition) (m : Map Holder) → Distinct m → Distinct (without_renamed d m)
unfolding without_renamed
Distinct-without_renamed d [] t = tt
Distinct-without_renamed d ((n, h) ∷ m) t = elim (Bool-cases (is_renamed d n h)) [
  | inl e ↦ rw e (Distinct-without_renamed d m t.1)
  | inr e ↦
      rw e
        ((ground (arith, lookup-without_renamed d n m t.1, t.0), Distinct-without_renamed d m t.1))
]

-- The map after a mount: the new holder, and what stays of the others.
pub lookup-install :
    (k : Keeper) (d : Definition) (s : Set) (j : Str)
    → Distinct k.sets
    → lookup j (install k d s).sets
      ≡ (if str_eq d.name j then some (publish_tick (new_holder s)) else stays d (lookup j k.sets))
unfolding install is_renamed
lookup-install k d s j t =
    let h = publish_tick (new_holder s) in
    lookup-without_renamed d j (insert d.name h k.sets) (Distinct-insert d.name h k.sets t)
    ∙ ground (arith, lookup-insert d.name j h k.sets, str_eq_iff d.name j, str_eq_iff j d.name)

pub Distinct-install :
    (k : Keeper) (d : Definition) (s : Set) → Distinct k.sets → Distinct (install k d s).sets
unfolding install
Distinct-install k d s t = Distinct-without_renamed d _ (Distinct-insert d.name _ k.sets t)

pub lookup-drop :
    (k : Keeper) (name j : Str)
    → Distinct k.sets
    → lookup j (drop k name).sets ≡ (if str_eq name j then none else lookup j k.sets)
unfolding drop
lookup-drop k name j t = elim (Option-cases (lookup name k.sets)) [
  | inl e ↦ rw e (ground (arith, e, str_eq_iff name j))
  | inr (h, e) ↦ rw e (lookup-erase name j k.sets t)
]

pub Distinct-drop : (k : Keeper) (name : Str) → Distinct k.sets → Distinct (drop k name).sets
unfolding drop
Distinct-drop k name t = elim (Option-cases (lookup name k.sets)) [
  | inl e ↦ rw e t
  | inr (h, e) ↦ rw e (Distinct-erase name k.sets t)
]
