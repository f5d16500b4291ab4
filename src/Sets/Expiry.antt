-- ===== src/Sets/Expiry.antt =====
-- Expired in internal/set/set.go.
pub mod Due
pub mod Cover
pub mod Complete
use placitum_keeper.Base.{
  ℕ, zero, suc, ◌==◌, ◌||◌, length, Bool, true, false, not, Option, some, none, Str, if◌then◌else◌,
  List, [], ◌∷◌, ◌++◌,
}
use placitum_keeper.Base.Int.{ℤ, ltb_ℤ, eqb_ℤ}
use placitum_keeper.Base.Maps.{lookup}
use placitum_keeper.Sets.Types.{Set, Entry, PendEntry, ExpItem}
use placitum_keeper.Sets.Heap.{push_all, pop, at}
use placitum_keeper.Sets.State.{unix_milli}

-- What the loop of Expired collects: the values, and the items that go back, in order.
pub record Sweep : Type 0 where
  pub out : List Str
  pub back : List ExpItem

-- One popped item; `cur` is the map read at its value.
abbrev pub sweep_item : ExpItem → Option Entry → Bool → Sweep → Sweep
sweep_item top none planned w = w
sweep_item top (some cur) planned w =
    if not (eqb_ℤ cur.exp top.exp)
    then (if ltb_ℤ top.exp cur.exp
        then record w { back = w.back ++ (record { value = top.value; exp = cur.exp } ∷ []) }
        else w)
    else record {
      out = if planned then w.out else w.out ++ (top.value ∷ []);
      back = w.back ++ (top ∷ []);
    }

abbrev pub is_planned : Option PendEntry → Bool
is_planned none = false
is_planned (some p) = true

-- The items from the least on, up to the first that is later than `now`: each round takes one off,
-- so that as much fuel as there are items is enough.
unfoldable pub sweep_loop : Set → ℤ → ℕ → List ExpItem → Sweep → List ExpItem × Sweep
sweep_loop s now zero h w = (h, w)
sweep_loop s now (suc k) h w =
    let top = at h 0 in
    let rest =
      sweep_loop s now k (pop h).1
        (sweep_item top (lookup top.value s.entries) (is_planned (lookup top.value s.pend)) w) in
    if length h == 0 || ltb_ℤ now top.exp then (h, w) else rest

unfoldable pub expired : Set → ℤ → Set × List Str
unfolding sweep_loop push_all pop at
expired s now =
    let r = sweep_loop s (unix_milli now) (length s.exp) s.exp (record { out = []; back = [] }) in
    (record s { exp = push_all r.1.back r.0 }, r.1.out)
