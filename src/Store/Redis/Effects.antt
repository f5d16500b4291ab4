-- ===== src/Store/Redis/Effects.antt =====
-- What a list of commands of internal/state/state.go leaves of a score and of a field.
use placitum_keeper.Base.{
  ◌≡◌, refl, sym, ap, ◌∙◌, ◌⊎◌, true, false, Option, some, none, Str, if◌then◌else◌, str_eq,
  str_eq_iff, List, [], ◌∷◌, ◌++◌, map, All, arith, inl, inr, Bool-cases,
}
use placitum_keeper.Base.Maps.{Map, lookup, Distinct, lookup-insert, lookup-erase}
use placitum_keeper.Sets.Ideal.{apply_delta, replay}
use placitum_keeper.Sets.Pipeline.{apply_delta-Distinct}
use placitum_keeper.Sets.Planning.{entry_of}
use placitum_keeper.Sets.Types.{Entry, Delta, op_add, op_remove}
use placitum_keeper.Store.Commands.{Command, value_of}
use placitum_keeper.Store.Redis.{Redis, IsLawful, last_of, has, score_after, field_after, run_all}

module _ {V : Type 0} (after : Command → Str → Str → Option V → Option V) where
  unfoldable pub after_all : List Command → Str → Str → Option V → Option V
  after_all [] j v o = o
  after_all (c ∷ cs) j v o = after_all cs j v (after c j v o)

  pub after_all-append :
      (cs ds : List Command) (j v : Str) (o : Option V)
      → after_all (cs ++ ds) j v o ≡ after_all ds j v (after_all cs j v o)
  unfolding after_all
  after_all-append [] ds j v o = refl
  after_all-append (c ∷ cs) ds j v o = after_all-append cs ds j v (after c j v o)

module _ (R : Redis) (L : IsLawful R) where
  pub score-run_all :
      (cs : List Command) (st : R.State) (j v : Str)
      → lookup v (R.scores (run_all R st cs) j)
        ≡ after_all score_after cs j v (lookup v (R.scores st j))
  unfolding run_all after_all
  score-run_all [] st j v = refl
  score-run_all (c ∷ cs) st j v =
      score-run_all cs (R.run st c) j v ∙ ap (after_all score_after cs j v) (L.score st c j v)

  pub field-run_all :
      (cs : List Command) (st : R.State) (j v : Str)
      → lookup v (R.fields (run_all R st cs) j)
        ≡ after_all field_after cs j v (lookup v (R.fields st j))
  unfolding run_all after_all
  field-run_all [] st j v = refl
  field-run_all (c ∷ cs) st j v =
      field-run_all cs (R.run st c) j v ∙ ap (after_all field_after cs j v) (L.field st c j v)

-- A delta of a plan adds or removes.
abbrev pub IsChange : Delta → Type 0
IsChange d = (d.op ≡ op_add) ⊎ (d.op ≡ op_remove)

abbrev pub read_by : {V : Type 0} → (Entry → V) → Option Entry → Option V
read_by f none = none
read_by f (some e) = some (f e)

-- `f` reads an entry, and `g` is what a delta writes for it.
module _ {V : Type 0} (f : Entry → V) (g : Delta → V)
    (same : (d : Delta) → f (entry_of d.rec d.hash) ≡ g d) where
  abbrev pair_of : Delta → Str × V
  pair_of d = (d.rec.value, g d)

  read-added :
      (v : Str) (d : Delta) (w : Map Entry)
      → d.op ≡ op_add
      → read_by f (lookup v (apply_delta w d))
        ≡ (if str_eq d.rec.value v then some (g d) else read_by f (lookup v w))
  unfolding apply_delta
  read-added v d w e =
      let is : str_eq d.op op_add ≡ true = (str_eq_iff d.op op_add).1 e in
      rw (is, lookup-insert d.rec.value v (entry_of d.rec d.hash) w)
        (elim (Bool-cases (str_eq d.rec.value v)) [
          | inl k ↦ rw k (ap some (same d))
          | inr k ↦ rw k
        ])

  pub last_of-replay :
      (v : Str) (run : List Delta) (w : Map Entry)
      → All (λ d. d.op ≡ op_add) run
      → last_of v (map pair_of run) (read_by f (lookup v w)) ≡ read_by f (lookup v (replay w run))
  unfolding last_of replay
  last_of-replay v [] w all = refl
  last_of-replay v (d ∷ run) w all =
      ap (last_of v (map pair_of run)) (sym (read-added v d w all.0))
      ∙ last_of-replay v run (apply_delta w d) all.1

  read-removed :
      (v : Str) (d : Delta) (w : Map Entry)
      → Distinct w
      → d.op ≡ op_remove
      → read_by f (lookup v (apply_delta w d))
        ≡ (if str_eq d.rec.value v then none else read_by f (lookup v w))
  unfolding apply_delta
  read-removed v d w dist e =
      let not_add : str_eq d.op op_add ≡ false =
        ap (λ o. str_eq o op_add) e ∙ unfold str_eq in refl in
      let is : str_eq d.op op_remove ≡ true = (str_eq_iff d.op op_remove).1 e in
      rw (not_add, is, lookup-erase d.rec.value v w dist)
        (elim (Bool-cases (str_eq d.rec.value v)) [ inl k ↦ rw k | inr k ↦ rw k ])

  pub has-replay :
      (v : Str) (run : List Delta) (w : Map Entry)
      → Distinct w
      → All (λ d. d.op ≡ op_remove) run
      → (if has v (map value_of run) then none else read_by f (lookup v w))
        ≡ read_by f (lookup v (replay w run))
  unfolding has replay
  has-replay v [] w dist all = refl
  has-replay v (d ∷ run) w dist all = ground (
    arith,
    read-removed v d w dist all.0,
    has-replay v run (apply_delta w d) (apply_delta-Distinct w d dist) all.1,
  )
