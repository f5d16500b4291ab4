-- ===== src/Store/Redis.antt =====
-- The methods of Redis in internal/state/state.go over an unknown server. What the commands do is
-- documented by the server; the laws state it of a transaction that reports no error.
pub mod Effects
pub mod Commits
pub mod Durable
pub mod Loads
pub mod Memory
pub mod Recovery
pub mod Resets
use placitum_keeper.Base.{
  ℕ, ◌≡◌, Bool, true, false, ◌&&◌, ◌||◌, Option, some, none, Str, if◌then◌else◌, ◌==◌, str_eq, List,
  [], ◌∷◌, length,
}
use placitum_keeper.Base.Int.{ℤ}
use placitum_keeper.Base.Maps.{Map, lookup, Distinct}
use placitum_keeper.Sets.Types.{Delta, Record}
use placitum_keeper.Store.Commands.{
  Command, z_add, h_set, z_rem, h_del, set_value, del, commit_commands, reset_commands,
  drop_commands, loaded_records, Loaded, absent, bad_meta, present,
}
use placitum_keeper.Store.Meta.{Meta, parse_meta, set_key, why_key, meta_key}

-- `scores` is ZRANGE with scores of a whole key, and `fields` is HGETALL.
pub record Redis : Type 1 where
  pub State : Type 0
  pub run : State → Command → State
  pub scores : State → Str → Map ℤ
  pub fields : State → Str → Map Str

module _ {V : Type 0} where
  -- The pairs are written in turn, so the last one of a name counts.
  unfoldable pub last_of : Str → Map V → Option V → Option V
  last_of v [] o = o
  last_of v ((k, x) ∷ m) o = last_of v m (if str_eq k v then some x else o)

unfoldable pub has : Str → List Str → Bool
has v [] = false
has v (x ∷ xs) = str_eq x v || has v xs

-- The score of member `v` of key `j` after a command.
abbrev pub score_after : Command → Str → Str → Option ℤ → Option ℤ
score_after (z_add k zs) j v o = if str_eq k j then last_of v zs o else o
score_after (h_set k fs) j v o = o
score_after (z_rem k vs) j v o = if str_eq k j then (if has v vs then none else o) else o
score_after (h_del k vs) j v o = o
score_after (set_value k b ttl) j v o = if str_eq k j then none else o
score_after (del ks) j v o = if has j ks then none else o

-- The value of field `v` of key `j` after a command.
abbrev pub field_after : Command → Str → Str → Option Str → Option Str
field_after (z_add k zs) j v o = o
field_after (h_set k fs) j v o = if str_eq k j then last_of v fs o else o
field_after (z_rem k vs) j v o = o
field_after (h_del k vs) j v o = if str_eq k j then (if has v vs then none else o) else o
field_after (set_value k b ttl) j v o = if str_eq k j then none else o
field_after (del ks) j v o = if has j ks then none else o

-- A sorted set has each member once.
pub record IsLawful (R : Redis) : Type 0 where
  pub score :
      (st : R.State) (c : Command) (j v : Str)
      → lookup v (R.scores (R.run st c) j) ≡ score_after c j v (lookup v (R.scores st j))
  pub field :
      (st : R.State) (c : Command) (j v : Str)
      → lookup v (R.fields (R.run st c) j) ≡ field_after c j v (lookup v (R.fields st j))
  pub distinct : (st : R.State) (j : Str) → Distinct (R.scores st j)

module _ (R : Redis) where
  -- TxPipelined: the commands in turn.
  unfoldable pub run_all : R.State → List Command → R.State
  run_all st [] = st
  run_all st (c ∷ cs) = run_all (R.run st c) cs

  -- Commit.
  unfoldable pub commit : R.State → Str → List Delta → ℕ → ℕ → Str → List ℕ → ℤ → R.State
  unfolding run_all commit_commands
  commit st name deltas seq hash pkg_key pkg ttl =
      run_all st (commit_commands name deltas seq hash pkg_key pkg ttl)

  -- Reset.
  unfoldable pub reset : R.State → Str → Meta → Bool → R.State
  unfolding run_all reset_commands
  reset st name m keep = run_all st (reset_commands name m keep)

  -- Drop.
  unfoldable pub drop : R.State → Str → R.State
  unfolding run_all drop_commands
  drop st name = run_all st (drop_commands name)

  -- Put.
  unfoldable pub put : R.State → Str → List ℕ → ℤ → R.State
  put st key bytes ttl = R.run st (set_value key bytes ttl)

  abbrev pub loaded_with : Option Meta → List Record → Loaded
  loaded_with none recs = bad_meta recs
  loaded_with (some m) recs = present m recs

  -- Load, where none of its three reads fails.
  unfoldable pub load : R.State → Str → Loaded
  unfolding parse_meta loaded_records meta_key set_key why_key
  load st name =
      let f = R.fields st (meta_key name) in
      if length f == 0
      then absent
      else loaded_with (parse_meta f)
          (loaded_records (R.scores st (set_key name)) (R.fields st (why_key name)))
