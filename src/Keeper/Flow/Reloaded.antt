-- ===== src/Keeper/Flow/Reloaded.antt =====
-- What Reload of internal/keeper/keeper.go leaves, against the catalog's rows.
use placitum_keeper.Base.{
  ◌≡◌, refl, sym, ap, ◌∙◌, Bool, true, false, not, ◌&&◌, if◌then◌else◌, Option, some, none, Str,
  str_eq, str_eq_iff, str_eq_refl, List, [], ◌∷◌, arith, inl, inr, Bool-cases, Option-cases,
}
use placitum_keeper.Base.Int.{eqb_ℤ_iff}
use placitum_keeper.Base.Maps.{Map, lookup, Distinct}
use placitum_keeper.Base.Maps.Keys.{has_key}
use placitum_keeper.Keeper.Flow.Defined.{Defines, mount_set-Defines}
use placitum_keeper.Keeper.Flow.Names.{lookup-install, lookup-drop, Distinct-install, Distinct-drop}
use placitum_keeper.Keeper.Mount.{
  Keeper, Mounted, Outside, contains_name, drop, drop_all, gone, install, install_mounted,
  is_mounted, mount, mount_all, mount_by, publish_tick, reload, same_definition,
}
use placitum_keeper.Keeper.Submit.{contains_str}
use placitum_keeper.Keeper.Types.{Holder, new_holder}
use placitum_keeper.Sets.Netip.{Library}
use placitum_keeper.Sets.Types.{Set, Definition}
use mathlib.Core.Path.{subst}

-- Two rows of the catalog have other names and other IDs.
abbrev pub Apart : Definition → Definition → Type 0
Apart d e = (str_eq d.name e.name ≡ false) × (str_eq e.id d.id ≡ false)

abbrev pub ApartAll : Definition → List (Definition × Outside) → Type 0
ApartAll d [] = Unit {0}
ApartAll d ((e, o) ∷ ds) = Apart e d × ApartAll d ds

-- No name and no ID comes twice.
abbrev pub IsCatalog : List (Definition × Outside) → Type 0
IsCatalog [] = Unit {0}
IsCatalog ((d, o) ∷ ds) = ApartAll d ds × IsCatalog ds

-- The name of the row holds a set with its definition.
abbrev pub Holds : Keeper → Definition → Type 0
Holds k d = (h : Holder) × (lookup d.name k.sets ≡ some h) × (same_definition h.s.def d ≡ true)

abbrev pub HoldsAll : Keeper → List (Definition × Outside) → Type 0
HoldsAll k [] = Unit {0}
HoldsAll k ((d, o) ∷ ds) = Holds k d × HoldsAll k ds

same_definition_refl : (d : Definition) → same_definition d d ≡ true
unfolding same_definition
same_definition_refl d = ground (
  arith,
  str_eq_refl d.id,
  str_eq_refl d.name,
  eqb_ℤ_iff d.type d.type,
  eqb_ℤ_iff d.limit d.limit,
  eqb_ℤ_iff d.ttl d.ttl,
)

same_definition-id : (a b : Definition) → same_definition a b ≡ true → a.id ≡ b.id
unfolding same_definition
same_definition-id a b e = ground (arith, str_eq_iff a.id b.id)

-- What a mount leaves: its row is held, and so is every row apart from it that was.
record Mounts (k : Keeper) (d : Definition) (g : Keeper) : Type 0 where
  own : Holds g d
  others : (e : Definition) → Apart d e → Holds k e → Holds g e
  distinct : Distinct g.sets

abbrev MountsIf : Keeper → Definition → Option Keeper → Type 0
MountsIf k d none = Unit {0}
MountsIf k d (some g) = Mounts k d g

install-Mounts :
    (k : Keeper) (d : Definition) (s : Set)
    → Distinct k.sets
    → s.def ≡ d
    → Mounts k d (install k d s)
unfolding publish_tick
install-Mounts k d s distinct def = record {
  own = (
    publish_tick (new_holder s),
    lookup-install k d s d.name distinct ∙ rw (str_eq_refl d.name) refl,
    rw def (same_definition_refl d),
  );
  others = λ e apart held.
      let (h, found, same) = held in
      (
        h,
        lookup-install k d s e.name distinct
            ∙ rw (apart.0, found) (ground (arith, same_definition-id h.s.def e same, apart.1)),
        same,
      );
  distinct = Distinct-install k d s distinct;
}

install_mounted-Mounts :
    (k : Keeper) (d : Definition) (m : Option Mounted) (reset : Bool)
    → Distinct k.sets
    → Defines d m
    → MountsIf k d (install_mounted k d m reset)
install_mounted-Mounts k d none reset distinct def = tt
install_mounted-Mounts k d (some m) false distinct def = tt
install_mounted-Mounts k d (some m) true distinct def = install-Mounts k d m.s distinct def

held_already :
    (k : Keeper) (d : Definition) (old : Option Holder)
    → lookup d.name k.sets ≡ old
    → is_mounted old false d ≡ true
    → Holds k d
held_already k d none found e = absurd (ground arith)
held_already k d (some h) found e = (h, found, e)

module _ (lib : Library) where
  mount-Mounts :
      (k : Keeper) (d : Definition) (o : Outside)
      → Distinct k.sets
      → MountsIf k d (mount_by lib k d false o)
  unfolding mount
  mount-Mounts k d o distinct = elim (Bool-cases (is_mounted (lookup d.name k.sets) false d)) [
    | inl e ↦ rw e (record {
      own = held_already k d (lookup d.name k.sets) refl e;
      others = λ f apart held. held;
      distinct = distinct;
    })
    | inr e ↦ rw e (
        install_mounted-Mounts k d _ o.reset distinct
          (mount_set-Defines lib d false o.loaded o.first o.again))
  ]

  -- What the loop leaves when it comes to its end.
  record MountsAll (k : Keeper) (ds : List (Definition × Outside)) (g : Keeper) : Type 0 where
    own : HoldsAll g ds
    others : (e : Definition) → ApartAll e ds → Holds k e → Holds g e
    distinct : Distinct g.sets

  mount_all-MountsAll :
      (k : Keeper) (ds : List (Definition × Outside))
      → Distinct k.sets
      → IsCatalog ds
      → (mount_all lib k ds).1 ≡ true
      → MountsAll k ds (mount_all lib k ds).0
  unfolding mount_all
  mount_all-MountsAll k [] distinct rows done = record {
    own = tt;
    others = λ e apart held. held;
    distinct = distinct;
  }
  mount_all-MountsAll k ((d, o) ∷ ds) distinct rows done =
      elim (Option-cases (mount_by lib k d false o)) [
        | inl e ↦
            let same : mount_all lib k ((d, o) ∷ ds) ≡ (k, false) = rw (mount_all, e) refl in
            absurd (ground (arith, sym (ap (λ r. r.1) same) ∙ done))
        | inr (g, e) ↦
            let one : Mounts k d g = subst (MountsIf k d) e (mount-Mounts k d o distinct) in
            let same : mount_all lib k ((d, o) ∷ ds) ≡ mount_all lib g ds =
              rw (mount_all, e) refl in
            let rest =
              mount_all-MountsAll g ds one.distinct rows.1 (sym (ap (λ r. r.1) same) ∙ done) in
            rw same (record {
              own = (rest.others d rows.0 one.own, rest.own);
              others = λ f apart held. rest.others f apart.1 (one.others f apart.0 held);
              distinct = rest.distinct;
            })
      ]

gone-lookup :
    (ds : List (Definition × Outside)) (j : Str) (m : Map Holder)
    → contains_str j (gone ds m) ≡ (has_key j m && not (contains_name j ds))
unfolding gone has_key lookup
gone-lookup ds j [] = refl
gone-lookup ds j ((n, h) ∷ m) = ground (arith, gone-lookup ds j m, str_eq_iff n j)

lookup-drop_all :
    (k : Keeper) (names : List Str) (j : Str)
    → Distinct k.sets
    → lookup j (drop_all k names).sets ≡ (if contains_str j names then none else lookup j k.sets)
unfolding drop_all
lookup-drop_all k [] j distinct = refl
lookup-drop_all k (n ∷ ns) j distinct =
    lookup-drop_all (drop k n) ns j (Distinct-drop k n distinct)
    ∙ ground (arith, lookup-drop k n j distinct)

-- The names that are left: of the held ones, those of the catalog.
left_names :
    (ds : List (Definition × Outside)) (g : Keeper) (j : Str)
    → Distinct g.sets
    → lookup j (drop_all g (gone ds g.sets)).sets
      ≡ (if contains_name j ds then lookup j g.sets else none)
unfolding has_key
left_names ds g j distinct =
    lookup-drop_all g (gone ds g.sets) j distinct ∙ ground (arith, gone-lookup ds j g.sets)

-- A row of the catalog is not dropped.
HoldsAll-left :
    (all ds : List (Definition × Outside)) (g u : Keeper)
    → ((j : Str) → lookup j u.sets ≡ (if contains_name j all then lookup j g.sets else none))
    → ((j : Str) → contains_name j ds ≡ true → contains_name j all ≡ true)
    → HoldsAll g ds
    → HoldsAll u ds
HoldsAll-left all [] g u left within held = tt
HoldsAll-left all ((d, o) ∷ ds) g u left within ((h, found, same), rest) = (
  (h, left d.name ∙ rw (within d.name (rw (str_eq_refl d.name) refl)) found, same),
  HoldsAll-left all ds g u left (λ j e. within j (ground arith)) rest,
)

-- Where no name and no ID comes twice in the catalog, and the map holds each name once, a Reload that
-- succeeds leaves exactly the sets of the catalog: under the name of each row is a set with the
-- definition of the row, also where a set had this ID under another name before, and no other name
-- holds a set.
pub reload-HoldsAll :
    (lib : Library) (k : Keeper) (ds : List (Definition × Outside))
    → Distinct k.sets
    → IsCatalog ds
    → (reload lib k ds).1 ≡ true
    → HoldsAll (reload lib k ds).0 ds
      × ((j : Str) → (has_key j (reload lib k ds).0.sets && not (contains_name j ds)) ≡ false)
unfolding reload has_key
reload-HoldsAll lib k ds distinct rows done = elim (Bool-cases ((mount_all lib k ds).1)) [
  | inr e ↦ absurd (ground (arith, done, e))
  | inl e ↦
      let g = (mount_all lib k ds).0 in
      let mounts = mount_all-MountsAll lib k ds distinct rows e in
      let left = λ (j : Str). left_names ds g j mounts.distinct in
      rw e (
        HoldsAll-left ds ds g (drop_all g (gone ds g.sets)) left (λ j h. h) mounts.own,
        (λ j. ground (arith, left j)),
      )
]
