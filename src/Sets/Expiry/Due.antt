-- ===== src/Sets/Expiry/Due.antt =====
-- What Expired of internal/set/set.go hands out.
use placitum_keeper.Base.{
  ℕ, zero, suc, ◌==◌, ◌||◌, length, ◌≡◌, refl, ◌∙◌, Bool, false, Option, some, none, Str, List, [],
  ◌∷◌, arith, inl, inr, Bool-cases, All, All-append,
}
use placitum_keeper.Base.Int.{ℤ, ltb_ℤ, eqb_ℤ, ◌≤ℤ◌}
use placitum_keeper.Base.Maps.{lookup}
use placitum_keeper.Sets.Expiry.{Sweep, sweep_item, sweep_loop, is_planned, expired}
use placitum_keeper.Sets.Heap.{at, pop}
use placitum_keeper.Sets.State.{unix_milli}
use placitum_keeper.Sets.Types.{Set, Entry, ExpItem}

-- A value whose committed entry is over at `ms`, and that no waiting plan writes.
abbrev pub IsDue : Set → ℤ → Str → Type 0
IsDue s ms v =
    (is_planned (lookup v s.pend) ≡ false)
    × ((e : Entry) × (lookup v s.entries ≡ some e) × (e.exp ≤ℤ ms))

module _ (s : Set) (ms : ℤ) where
  sweep_item-IsDue :
      (top : ExpItem) (o : Option Entry) (planned : Bool) (w : Sweep)
      → lookup top.value s.entries ≡ o
      → is_planned (lookup top.value s.pend) ≡ planned
      → ltb_ℤ ms top.exp ≡ false
      → All (IsDue s ms) w.out
      → All (IsDue s ms) (sweep_item top o planned w).out
  sweep_item-IsDue top none planned w h p late all = all
  sweep_item-IsDue top (some cur) planned w h p late all =
      elim (Bool-cases (eqb_ℤ cur.exp top.exp)) [
        | inr e ↦
            rw e (elim (Bool-cases (ltb_ℤ top.exp cur.exp)) [ inl f ↦ rw f all | inr f ↦ rw f all ])
        | inl e ↦ rw e (elim (Bool-cases planned) [
          | inl f ↦ rw f all
          | inr f ↦ rw f (
              All-append (IsDue s ms) w.out (top.value ∷ []) all
                ((p ∙ f, (cur, h, ground arith)), tt))
        ])
      ]

  sweep_loop-IsDue :
      (k : ℕ) (h : List ExpItem) (w : Sweep)
      → All (IsDue s ms) w.out
      → All (IsDue s ms) (sweep_loop s ms k h w).1.out
  unfolding sweep_loop
  sweep_loop-IsDue zero h w all = all
  sweep_loop-IsDue (suc k) h w all = elim (Bool-cases (length h == 0 || ltb_ℤ ms (at h 0).exp)) [
    | inl e ↦ rw e all
    | inr e ↦ rw e (
        sweep_loop-IsDue k (pop h).1 _
          (sweep_item-IsDue (at h 0) _ _ w refl refl (ground arith) all))
  ]

-- Every value that Expired hands out has a committed entry whose expiry is not later than now, and
-- no waiting plan writes it.
pub expired-IsDue : (s : Set) (now : ℤ) → All (IsDue s (unix_milli now)) (expired s now).1
unfolding expired
expired-IsDue s now =
    sweep_loop-IsDue s (unix_milli now) (length s.exp) s.exp (record { out = []; back = [] }) tt
