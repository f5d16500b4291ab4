-- ===== src/Keeper/Planner/Fitting.antt =====
-- The records of an admitted job of internal/keeper/keeper.go in the specification of a batch.
use placitum_keeper.Base.{
  ℕ, suc, ◌≤◌, ◌<◌, ◌≡◌, refl, ◌∙◌, true, false, Str, str_eq, str_eq_iff, List, [], ◌∷◌, ◌++◌,
  length, map, arith, inl, inr, Option-cases, All, either,
}
use placitum_keeper.Base.Int.{ℤ, pos, ltb_ℤ}
use placitum_keeper.Base.Maps.{Map, Distinct, lookup, insert, Distinct-insert, Distinct-erase}
use placitum_keeper.Base.Maps.Keys.{
  has_key, has_key-insert, has_key-erase, length-insert, length_within,
}
use placitum_keeper.Keeper.Planner.{delta_for}
use placitum_keeper.Sets.Ideal.{Ideal, ideal_add, ideal_step, ideal_run}
use placitum_keeper.Sets.Planning.{entry_of, is_full}
use placitum_keeper.Sets.Types.{Entry, Record, Delta, op_add, op_remove}

-- The content so far has its keys in `g`, and nothing was rejected.
pub record Within (i : Ideal) (g : Map Entry) : Type 0 where
  pub distinct : Distinct i.content
  pub keys : (k : Str) → has_key k i.content ≡ true → has_key k g ≡ true
  pub whole : i.rejected ≡ []

module _ (hash : Record → ℕ) (limit : ℕ) (positive : 0 < limit) (g : Map Entry)
    (unique : Distinct g) where
  put-Within :
      (i : Ideal) (r : Record) (e : Entry)
      → Within i g
      → has_key r.value g ≡ true
      → Within (record i { content = insert r.value e i.content }) g
  put-Within i r e w here = record {
    distinct = Distinct-insert r.value e i.content w.distinct;
    keys = λ k h.
        ground (arith, w.keys k, here, str_eq_iff r.value k, has_key-insert r.value k e i.content);
    whole = w.whole;
  }

  -- A new value that `g` has finds room.
  finds_room :
      (i : Ideal) (r : Record)
      → Within i g
      → length g ≤ limit
      → has_key r.value g ≡ true
      → has_key r.value i.content ≡ false
      → is_full (pos limit) (pos (length i.content)) ≡ false
  finds_room i r w fits here new =
      let e = entry_of r 0 in
      let p = put-Within i r e w here in
      let longer : length (insert r.value e i.content) ≡ suc (length i.content) =
        length-insert r.value e i.content ∙ rw new refl in
      let within = length_within _ g p.distinct unique p.keys in ground (arith, longer, within)

  ideal_add-Within :
      (i : Ideal) (r : Record)
      → Within i g
      → length g ≤ limit
      → has_key r.value g ≡ true
      → Within (ideal_add hash (pos limit) r (lookup r.value i.content) i) g
  unfolding ideal_add has_key
  ideal_add-Within i r w fits here = elim (Option-cases (lookup r.value i.content)) [
    | inr (e, known) ↦ rw known (put-Within i r _ w here)
    | inl new ↦ rw (new, finds_room i r w fits here (rw new refl)) (put-Within i r _ w here)
  ]

  pub run_adds :
      (op : Str) (rs : List Record) (i : Ideal)
      → str_eq op op_add ≡ true
      → length g ≤ limit
      → All (λ r. has_key r.value g ≡ true) rs
      → Within i g
      → Within (ideal_run hash (pos limit) i (map (delta_for op) rs)) g
  unfolding ideal_run ideal_step
  run_adds op [] i is fits here w = w
  run_adds op (r ∷ rs) i is fits here w =
      run_adds op rs _ is fits here.1 (rw is (ideal_add-Within i r w fits here.0))

  pub run_others :
      (op : Str) (rs : List Record) (i : Ideal)
      → str_eq op op_add ≡ false
      → Within i g
      → Within (ideal_run hash (pos limit) i (map (delta_for op) rs)) g
  unfolding ideal_run ideal_step
  run_others op [] i is w = w
  run_others op (r ∷ rs) i is w = run_others op rs _ is (
      rw is (
        either (λ j. Within j g) (str_eq op op_remove) _ _
          (record {
            distinct = Distinct-erase r.value i.content w.distinct;
            keys = λ k h. ground (arith, w.keys k, has_key-erase r.value k i.content w.distinct);
            whole = w.whole;
          })
          w))

pub ideal_run-append :
    (hash : Record → ℕ) (limit : ℤ) (i : Ideal) (xs ys : List Delta)
    → ideal_run hash limit i (xs ++ ys) ≡ ideal_run hash limit (ideal_run hash limit i xs) ys
unfolding ideal_run
ideal_run-append hash limit i [] ys = refl
ideal_run-append hash limit i (x ∷ xs) ys =
    ideal_run-append hash limit (ideal_step hash limit i x) xs ys

-- Without a limit nothing is rejected.
pub ideal_run_unlimited :
    (hash : Record → ℕ) (limit : ℤ) (i : Ideal) (ds : List Delta)
    → ltb_ℤ (pos 0) limit ≡ false
    → (ideal_run hash limit i ds).rejected ≡ i.rejected
unfolding ideal_run ideal_step ideal_add
ideal_run_unlimited hash limit i [] none_set = refl
ideal_run_unlimited hash limit i (d ∷ ds) none_set =
    ideal_run_unlimited hash limit (ideal_step hash limit i d) ds none_set ∙ ground arith
