-- ===== src/Keeper/Serve/Freshness.antt =====
-- The snapshot object that Snapshot of internal/keeper/keeper.go hands out.
use placitum_keeper.Base.{
  zero, suc, ◌+◌, ◌≡◌, refl, Bool, true, false, Option, some, none, ◌⊎◌, length, ℕ, arith, inl, inr,
  Bool-cases, Option-cases,
}
use placitum_keeper.Base.Int.{ℤ, pos, negsuc, pos_part, neg_part, ◌≤ℤ◌, ltb_ℤ, add_parts, ◌+ℤ◌}
use placitum_keeper.Keeper.Serve.{
  choose_snapshot, pack_snapshot, is_stale, snap_margin, sub_ℤ, neg_ℤ,
}
use placitum_keeper.Keeper.Types.{Options, Holder, SnapObj}
use placitum_keeper.Sets.Netip.{Library}
use placitum_keeper.Sets.Types.{Set}
use mathlib.Core.Path.{subst}

neg_parts : (a : ℤ) → (pos_part (neg_ℤ a) ≡ neg_part a) × (neg_part (neg_ℤ a) ≡ pos_part a)
neg_parts (pos zero) = (refl, refl)
neg_parts (pos (suc n)) = (refl, refl)
neg_parts (negsuc n) = (refl, refl)

sub_parts :
    (a b : ℤ)
    → pos_part (sub_ℤ a b) + (neg_part a + pos_part b)
      ≡ neg_part (sub_ℤ a b) + (pos_part a + neg_part b)
sub_parts a b = omega (arith, add_parts a (neg_ℤ b), (neg_parts b).0, (neg_parts b).1)

-- What an object has left at `t` where the store took it at `taken`: its life counts from then.
abbrev pub life_left : Options → ℤ → ℤ → ℤ
life_left opts taken t = sub_ℤ (taken +ℤ opts.snapshot_ttl) t

kept_left :
    (opts : Options) (margin now at taken : ℤ) (lag : ℕ)
    → ltb_ℤ (sub_ℤ opts.snapshot_ttl margin) (sub_ℤ now at) ≡ false
    → at ≤ℤ (taken +ℤ pos lag)
    → margin ≤ℤ (life_left opts taken now +ℤ pos lag)
kept_left opts margin now at taken lag h slow =
    let order : sub_ℤ now at ≤ℤ sub_ℤ opts.snapshot_ttl margin = ground arith in
    omega (
      arith,
      order,
      slow,
      sub_parts opts.snapshot_ttl margin,
      sub_parts now at,
      add_parts taken (pos lag),
      add_parts taken opts.snapshot_ttl,
      sub_parts (taken +ℤ opts.snapshot_ttl) now,
      add_parts (life_left opts taken now) (pos lag),
    )

new_left :
    (opts : Options) (at taken : ℤ) (lag : ℕ)
    → at ≤ℤ (taken +ℤ pos lag)
    → opts.snapshot_ttl ≤ℤ (life_left opts taken at +ℤ pos lag)
new_left opts at taken lag slow = omega (
  arith,
  slow,
  add_parts taken (pos lag),
  add_parts taken opts.snapshot_ttl,
  sub_parts (taken +ℤ opts.snapshot_ttl) at,
  add_parts (life_left opts taken at) (pos lag),
)

module _ (opts : Options) (s : Set) (taken : SnapObj → ℤ) (lag : ℕ) where
  -- A kept object has the margin left, less the time that its Put took to return.
  abbrev pub IsKept : ℤ → SnapObj → Type 0
  IsKept now o =
      (o.epoch ≡ s.epoch) × (pos snap_margin ≤ℤ (life_left opts (taken o) now +ℤ pos lag))

  -- A new object is the set as it is, and has its time to live, less the same.
  abbrev pub IsPacked : ℤ → SnapObj → Type 0
  IsPacked at o =
      (o.epoch ≡ s.epoch)
      × (o.seq ≡ s.seq)
      × (o.hash ≡ s.hash)
      × (o.count ≡ length s.entries)
      × (opts.snapshot_ttl ≤ℤ (life_left opts (taken o) at +ℤ pos lag))

  -- There is no object only where the store did not take it.
  abbrev pub Chosen : Option SnapObj → ℤ → Bool → ℤ → Option SnapObj → Type 0
  Chosen old now put at none = put ≡ false
  Chosen old now put at (some o) = ((old ≡ some o) × IsKept now o) ⊎ ((put ≡ true) × IsPacked at o)

  module _ (slow : (o : SnapObj) → o.at ≤ℤ (taken o +ℤ pos lag)) where
    not_stale :
        (now : ℤ) (put : Bool) (at : ℤ) (o : Option SnapObj)
        → is_stale opts s now o ≡ false
        → Chosen o now put at o
    not_stale now put at none h = absurd (ground arith)
    not_stale now put at (some o) h = inl (
      refl,
      (
        ground arith,
        kept_left opts (pos snap_margin) now o.at (taken o) lag (ground arith) (slow o),
      ),
    )

    packed :
        (lib : Library) (old : Option SnapObj) (now : ℤ) (put : Bool) (at : ℤ)
        → Chosen old now put at (pack_snapshot lib s put at)
    unfolding pack_snapshot
    packed lib old now true at =
        inr (refl, (refl, refl, refl, refl, new_left opts at (taken _) lag (slow _)))
    packed lib old now false at = refl

-- Where the store had taken each object at most `lag` before the clock was read after its Put, the
-- object that Snapshot hands out is of the set's epoch and is one of two. A kept one has at least the
-- margin less `lag` left in the store when the request comes. A new one has the set's number,
-- hash and count, and at least the time to live less `lag` left when the clock is read after its Put.
-- There is none only where the store did not take a new one.
pub choose_snapshot_lem :
    (lib : Library) (opts : Options) (h : Holder) (taken : SnapObj → ℤ) (lag : ℕ) (now : ℤ)
    (put : Bool) (at : ℤ)
    → ((o : SnapObj) → o.at ≤ℤ (taken o +ℤ pos lag))
    → Chosen opts h.s taken lag h.snap now put at (choose_snapshot lib opts h now put at).1
unfolding choose_snapshot
choose_snapshot_lem lib opts h taken lag now put at slow =
    elim (Bool-cases (is_stale opts h.s now h.snap)) [
      | inr e ↦ rw e (not_stale opts h.s taken lag slow now put at h.snap e)
      | inl e ↦ rw e (elim (Option-cases (pack_snapshot lib h.s put at)) [
        | inl none_packed ↦ rw none_packed (
            subst (Chosen opts h.s taken lag h.snap now put at) none_packed
              (packed opts h.s taken lag slow lib h.snap now put at))
        | inr (o, some_packed) ↦ rw some_packed (
            subst (Chosen opts h.s taken lag h.snap now put at) some_packed
              (packed opts h.s taken lag slow lib h.snap now put at))
      ])
    ]
