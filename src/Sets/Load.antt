-- ===== src/Sets/Load.antt =====
-- Load and Resume in internal/set/set.go.
pub mod Content
pub mod Reminders
use placitum_keeper.Base.{ℕ, some, none, if◌then◌else◌, List, [], ◌∷◌, ◌++◌, bit_xor}
use placitum_keeper.Base.Int.{pos, ltb_ℤ}
use placitum_keeper.Base.Maps.{lookup, insert}
use placitum_keeper.Sets.Types.{Set, Record}
use placitum_keeper.Sets.Netip.{Library}
use placitum_keeper.Sets.Heap.{init}
use placitum_keeper.Sets.State.{settle, hash_of}
use placitum_keeper.Sets.Planning.{entry_of}

module _ (lib : Library) where
  -- The loop of `load`: an old entry keeps its hash.
  unfoldable pub load_step : Set → Record → Set
  unfolding hash_of
  load_step s r = elim (lookup r.value s.entries) [
    | some e ↦ record s {
      entries = insert r.value (entry_of r e.hash) s.entries;
      exp =
          if ltb_ℤ (pos 0) r.exp
          then s.exp ++ (record { value = r.value; exp = r.exp } ∷ [])
          else s.exp;
    }
    | none ↦ record s {
      hash = bit_xor s.hash (hash_of lib s r);
      entries = insert r.value (entry_of r (hash_of lib s r)) s.entries;
      exp =
          if ltb_ℤ (pos 0) r.exp
          then s.exp ++ (record { value = r.value; exp = r.exp } ∷ [])
          else s.exp;
    }
  ]

  unfoldable pub load_loop : Set → List Record → Set
  unfolding load_step
  load_loop s [] = s
  load_loop s (r ∷ rs) = load_loop (load_step s r) rs

  unfoldable pub load : Set → List Record → Set
  unfolding load_loop settle init
  load s recs =
      let t = load_loop (record s { hash = 0; entries = []; exp = [] }) recs in
      settle (record t { exp = init t.exp })

  unfoldable pub resume : Set → ℕ → List ℕ → ℕ → List Record → Set
  unfolding load
  resume s epoch key seq recs = load (record s { epoch = epoch; key = key; seq = seq }) recs
