-- ===== src/Store/Redis/Memory.antt =====
-- A server in memory, which meets the laws: two functions from keys to maps.
use placitum_keeper.Base.{
  ◌≡◌, refl, ap, ◌∙◌, Bool, true, false, none, Str, if◌then◌else◌, str_eq, List, [], ◌∷◌, arith,
  inl, inr, Bool-cases,
}
use placitum_keeper.Base.Int.{ℤ}
use placitum_keeper.Base.Maps.{
  Map, lookup, insert, erase, Distinct, lookup-insert, lookup-erase, Distinct-insert,
  Distinct-erase,
}
use placitum_keeper.Store.Commands.{Command, z_add, h_set, z_rem, h_del, set_value, del}
use placitum_keeper.Store.Redis.{Redis, IsLawful, last_of, has, score_after, field_after}

module _ {V : Type 0} where
  unfoldable pub insert_all : Map V → Map V → Map V
  insert_all [] m = m
  insert_all ((k, x) ∷ kvs) m = insert_all kvs (insert k x m)

  unfoldable pub erase_all : List Str → Map V → Map V
  erase_all [] m = m
  erase_all (k ∷ ks) m = erase_all ks (erase k m)

  lookup-insert_all :
      (v : Str) (kvs m : Map V) → lookup v (insert_all kvs m) ≡ last_of v kvs (lookup v m)
  unfolding insert_all last_of
  lookup-insert_all v [] m = refl
  lookup-insert_all v ((k, x) ∷ kvs) m =
      lookup-insert_all v kvs (insert k x m) ∙ ap (last_of v kvs) (lookup-insert k v x m)

  pub Distinct-insert_all : (kvs m : Map V) → Distinct m → Distinct (insert_all kvs m)
  unfolding insert_all
  Distinct-insert_all [] m d = d
  Distinct-insert_all ((k, x) ∷ kvs) m d =
      Distinct-insert_all kvs (insert k x m) (Distinct-insert k x m d)

  pub Distinct-erase_all : (ks : List Str) (m : Map V) → Distinct m → Distinct (erase_all ks m)
  unfolding erase_all
  Distinct-erase_all [] m d = d
  Distinct-erase_all (k ∷ ks) m d = Distinct-erase_all ks (erase k m) (Distinct-erase k m d)

  lookup-erase_all :
      (v : Str) (ks : List Str) (m : Map V)
      → Distinct m
      → lookup v (erase_all ks m) ≡ (if has v ks then none else lookup v m)
  unfolding erase_all has
  lookup-erase_all v [] m d = refl
  lookup-erase_all v (k ∷ ks) m d =
      ground (arith, lookup-erase_all v ks (erase k m) (Distinct-erase k m d), lookup-erase k v m d)

-- A map with the proof that each key stands once.
pub record Table (V : Type 0) : Type 0 where
  pub rows : Map V
  pub distinct : Distinct rows

abbrev pub Space : Type 0 → Type 0
Space V = Str → Table V

abbrev pub no_rows : {V : Type 0} → Table V
no_rows = record { rows = []; distinct = tt }

module _ {V : Type 0} where
  abbrev pub written : Str → Map V → Space V → Space V
  written k kvs sp j =
      if str_eq k j
      then record {
        rows = insert_all kvs (sp j).rows;
        distinct = Distinct-insert_all kvs (sp j).rows (sp j).distinct;
      }
      else sp j

  abbrev pub removed : Str → List Str → Space V → Space V
  removed k vs sp j =
      if str_eq k j
      then record {
        rows = erase_all vs (sp j).rows;
        distinct = Distinct-erase_all vs (sp j).rows (sp j).distinct;
      }
      else sp j

  abbrev pub gone : List Str → Space V → Space V
  gone ks sp j = if has j ks then no_rows else sp j

  abbrev pub replaced : Str → Space V → Space V
  replaced k sp j = if str_eq k j then no_rows else sp j

pub record Memory : Type 0 where
  pub sorted_sets : Space ℤ
  pub hashes : Space Str

abbrev pub run_memory : Memory → Command → Memory
run_memory st (z_add k zs) = record st { sorted_sets = written k zs st.sorted_sets }
run_memory st (h_set k fs) = record st { hashes = written k fs st.hashes }
run_memory st (z_rem k vs) = record st { sorted_sets = removed k vs st.sorted_sets }
run_memory st (h_del k vs) = record st { hashes = removed k vs st.hashes }
run_memory st (set_value k b ttl) = record {
  sorted_sets = replaced k st.sorted_sets;
  hashes = replaced k st.hashes;
}
run_memory st (del ks) = record { sorted_sets = gone ks st.sorted_sets; hashes = gone ks st.hashes }

abbrev pub memory_redis : Redis
memory_redis = record {
  State = Memory;
  run = run_memory;
  scores = λ st j. (st.sorted_sets j).rows;
  fields = λ st j. (st.hashes j).rows;
}

module _ {V : Type 0} (sp : Space V) (j v : Str) where
  lookup-written :
      (k : Str) (kvs : Map V)
      → lookup v (written k kvs sp j).rows
        ≡ (if str_eq k j then last_of v kvs (lookup v (sp j).rows) else lookup v (sp j).rows)
  lookup-written k kvs = elim (Bool-cases (str_eq k j)) [
    | inl e ↦ rw e (lookup-insert_all v kvs (sp j).rows)
    | inr e ↦ rw e
  ]

  lookup-removed :
      (k : Str) (vs : List Str)
      → lookup v (removed k vs sp j).rows ≡ (
          if str_eq k j
          then (if has v vs then none else lookup v (sp j).rows)
          else lookup v (sp j).rows)
  lookup-removed k vs = elim (Bool-cases (str_eq k j)) [
    | inl e ↦ rw e (lookup-erase_all v vs (sp j).rows (sp j).distinct)
    | inr e ↦ rw e
  ]

  lookup-gone :
      (b : Bool)
      → lookup v (if b then no_rows else sp j).rows ≡ (if b then none else lookup v (sp j).rows)
  unfolding lookup
  lookup-gone true = refl
  lookup-gone false = refl

memory_score :
    (st : Memory) (c : Command) (j v : Str)
    → lookup v ((run_memory st c).sorted_sets j).rows
      ≡ score_after c j v (lookup v (st.sorted_sets j).rows)
memory_score st (z_add k zs) j v = lookup-written st.sorted_sets j v k zs
memory_score st (h_set k fs) j v = refl
memory_score st (z_rem k vs) j v = lookup-removed st.sorted_sets j v k vs
memory_score st (h_del k vs) j v = refl
memory_score st (set_value k b ttl) j v = lookup-gone st.sorted_sets j v (str_eq k j)
memory_score st (del ks) j v = lookup-gone st.sorted_sets j v (has j ks)

memory_field :
    (st : Memory) (c : Command) (j v : Str)
    → lookup v ((run_memory st c).hashes j).rows ≡ field_after c j v (lookup v (st.hashes j).rows)
memory_field st (z_add k zs) j v = refl
memory_field st (h_set k fs) j v = lookup-written st.hashes j v k fs
memory_field st (z_rem k vs) j v = refl
memory_field st (h_del k vs) j v = lookup-removed st.hashes j v k vs
memory_field st (set_value k b ttl) j v = lookup-gone st.hashes j v (str_eq k j)
memory_field st (del ks) j v = lookup-gone st.hashes j v (has j ks)

-- The server in memory meets the laws.
pub memory_redis-IsLawful : IsLawful memory_redis
memory_redis-IsLawful = record {
  score = memory_score;
  field = memory_field;
  distinct = λ st j. (st.sorted_sets j).distinct;
}
