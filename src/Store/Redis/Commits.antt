-- ===== src/Store/Redis/Commits.antt =====
-- Commit of internal/state/state.go: the server's copy of a set follows the deltas.
use placitum_keeper.Base.{
  ℕ, zero, suc, ◌+◌, ◌≤◌, ◌≡◌, ◌≢◌, refl, sym, ap, ◌∙◌, ◌⊎◌, false, Option, none, Str,
  if◌then◌else◌, str_eq, str_eq_iff, str_eq_refl, List, [], ◌∷◌, ◌++◌, length, length-append, map,
  All, codes, arith, inl, inr, Bool-cases,
}
use placitum_keeper.Base.Int.{ℤ}
use placitum_keeper.Base.Maps.{Map, lookup, Distinct}
use placitum_keeper.Sets.Ideal.{replay, replay-append}
use placitum_keeper.Sets.Pipeline.{replay-Distinct}
use placitum_keeper.Sets.Planning.{entry_of}
use placitum_keeper.Sets.Types.{Entry, Delta, op_add, op_remove}
use placitum_keeper.Store.Commands.{
  Command, value_of, run_of, run_commands, delta_commands, score, why,
}
use placitum_keeper.Store.Meta.{set_key, why_key, meta_key}
use placitum_keeper.Store.Redis.{last_of, has, score_after, field_after}
use placitum_keeper.Store.Redis.Effects.{
  after_all, after_all-append, IsChange, read_by, last_of-replay, has-replay,
}
use mathlib.Core.Path.{subst}

-- The deltas of a run have its operation, and a run takes the first delta.
run_of_split :
    (op : Str) (ds : List Delta)
    → ((run_of op ds).0 ++ (run_of op ds).1 ≡ ds) × All (λ d. d.op ≡ op) (run_of op ds).0
unfolding run_of
run_of_split op [] = (refl, tt)
run_of_split op (d ∷ ds) =
    let rest = run_of_split op ds in
    elim (Bool-cases (str_eq d.op op)) [
      | inl e ↦ rw e (ap (◌∷◌ d) rest.0, ((str_eq_iff d.op op).0 e, rest.1))
      | inr e ↦ rw e (refl, tt)
    ]

run_of_shorter : (d : Delta) (ds : List Delta) → length (run_of d.op (d ∷ ds)).1 ≤ length ds
unfolding run_of
run_of_shorter d ds =
    let rest = run_of_split d.op ds in
    rw (str_eq_refl d.op)
      (omega (arith, ap length rest.0, length-append (run_of d.op ds).0 (run_of d.op ds).1))

All-back : (P : Delta → Type 0) (xs ys : List Delta) → All P (xs ++ ys) → All P xs × All P ys
All-back P [] ys h = (tt, h)
All-back P (x ∷ xs) ys h = let r = All-back P xs ys h.1 in ((h.0, r.0), r.1)

-- A run of one operation, from the operation of its first delta.
run-IsChange :
    {op : Str} (run : List Delta)
    → (op ≡ op_add) ⊎ (op ≡ op_remove)
    → All (λ d. d.op ≡ op) run
    → ((op ≡ op_add) × All (λ d. d.op ≡ op_add) run)
      ⊎ ((op ≡ op_remove) × All (λ d. d.op ≡ op_remove) run)
run-IsChange run (inl e) all = inl (e, subst (λ o. All (λ d. d.op ≡ o) run) e all)
run-IsChange run (inr e) all = inr (e, subst (λ o. All (λ d. d.op ≡ o) run) e all)

-- One value of the server: what the commands leave of it under key `j`, where an entry has the value
-- `f e`, and a delta writes `g d`.
module _ {V : Type 0} (after : Command → Str → Str → Option V → Option V) (f : Entry → V)
    (g : Delta → V) (same : (d : Delta) → f (entry_of d.rec d.hash) ≡ g d) (name j : Str)
    (adds : (run : List Delta) (v : Str) (o : Option V)
      → after_all after (run_commands name op_add run) j v o
        ≡ last_of v (map (λ d. (d.rec.value, g d)) run) o)
    (removes : (run : List Delta) (v : Str) (o : Option V)
      → after_all after (run_commands name op_remove run) j v o
        ≡ (if has v (map value_of run) then none else o)) where
  run-replay :
      (op : Str) (run : List Delta) (w : Map Entry) (v : Str)
      → Distinct w
      → (op ≡ op_add) ⊎ (op ≡ op_remove)
      → All (λ d. d.op ≡ op) run
      → after_all after (run_commands name op run) j v (read_by f (lookup v w))
        ≡ read_by f (lookup v (replay w run))
  run-replay op run w v dist kind all = elim (run-IsChange run kind all) [
    | inl (e, adding) ↦
        ap (λ o. after_all after (run_commands name o run) j v (read_by f (lookup v w))) e
        ∙ adds run v (read_by f (lookup v w))
        ∙ last_of-replay f g same v run w adding
    | inr (e, removing) ↦
        ap (λ o. after_all after (run_commands name o run) j v (read_by f (lookup v w))) e
        ∙ removes run v (read_by f (lookup v w))
        ∙ has-replay f g same v run w dist removing
  ]

  pub delta_commands-replay :
      (n : ℕ) (ds : List Delta) (w : Map Entry) (v : Str)
      → length ds ≤ n
      → Distinct w
      → All IsChange ds
      → after_all after (delta_commands n name ds) j v (read_by f (lookup v w))
        ≡ read_by f (lookup v (replay w ds))
  unfolding delta_commands
  delta_commands-replay zero [] w v fits dist ok = unfold after_all replay in refl
  delta_commands-replay zero (d ∷ ds) w v fits dist ok = absurd (omega arith)
  delta_commands-replay (suc n) [] w v fits dist ok = unfold after_all replay in refl
  delta_commands-replay (suc n) (d ∷ ds) w v fits dist ok =
      let r = run_of d.op (d ∷ ds) in
      let split = run_of_split d.op (d ∷ ds) in
      let parts = All-back IsChange r.0 r.1 (subst (All IsChange) (sym split.0) ok) in
      after_all-append after (run_commands name d.op r.0) (delta_commands n name r.1) j v _
      ∙ ap (after_all after (delta_commands n name r.1) j v)
          (run-replay d.op r.0 w v dist ok.0 split.1)
      ∙ delta_commands-replay n r.1 (replay w r.0) v (omega (arith, run_of_shorter d ds))
          (replay-Distinct w r.0 dist) parts.1
      ∙ ap (λ m. read_by f (lookup v m)) (sym (replay-append w r.0 r.1) ∙ ap (replay w) split.0)

-- The keys of a set.
apart : (a b : Str) → length a ≢ length b → str_eq a b ≡ false
apart a b h = elim (Bool-cases (str_eq a b)) [
  | inl e ↦ absurd (h (ap length ((str_eq_iff a b).0 e)))
  | inr e ↦ e
]

module _ (name : Str) where
  abbrev key_size : ℕ
  key_size = length name + 8

  length-set_key : length (set_key name) ≡ key_size
  unfolding set_key
  length-set_key = omega (arith, length-append (codes "waf:set:") name)

  length-why_key : length (why_key name) ≡ key_size + 4
  unfolding why_key
  length-why_key = omega (
    arith,
    length-append (codes "waf:set:") (name ++ codes ":why"),
    length-append name (codes ":why"),
  )

  length-meta_key : length (meta_key name) ≡ key_size + 5
  unfolding meta_key
  length-meta_key = omega (
    arith,
    length-append (codes "waf:set:") (name ++ codes ":meta"),
    length-append name (codes ":meta"),
  )

  -- The three keys differ.
  pub set-why : str_eq (set_key name) (why_key name) ≡ false
  set-why = apart _ _ (omega (arith, length-set_key, length-why_key))

  pub why-set : str_eq (why_key name) (set_key name) ≡ false
  why-set = apart _ _ (omega (arith, length-set_key, length-why_key))

  pub set-meta : str_eq (set_key name) (meta_key name) ≡ false
  set-meta = apart _ _ (omega (arith, length-set_key, length-meta_key))

  pub why-meta : str_eq (why_key name) (meta_key name) ≡ false
  why-meta = apart _ _ (omega (arith, length-why_key, length-meta_key))

  pub meta-why : str_eq (meta_key name) (why_key name) ≡ false
  meta-why = apart _ _ (omega (arith, length-why_key, length-meta_key))

  -- What the commands of the deltas do to the scores, to the reasons, and to the meta.
  pub score_adds :
      (run : List Delta) (v : Str) (o : Option ℤ)
      → after_all score_after (run_commands name op_add run) (set_key name) v o
        ≡ last_of v (map score run) o
  unfolding after_all str_eq
  score_adds run v o = rw (str_eq_refl (set_key name)) refl

  pub score_removes :
      (run : List Delta) (v : Str) (o : Option ℤ)
      → after_all score_after (run_commands name op_remove run) (set_key name) v o
        ≡ (if has v (map value_of run) then none else o)
  unfolding after_all str_eq
  score_removes run v o = rw (str_eq_refl (set_key name)) refl

  pub why_adds :
      (run : List Delta) (v : Str) (o : Option Str)
      → after_all field_after (run_commands name op_add run) (why_key name) v o
        ≡ last_of v (map why run) o
  unfolding after_all str_eq
  why_adds run v o = rw (str_eq_refl (why_key name)) refl

  pub why_removes :
      (run : List Delta) (v : Str) (o : Option Str)
      → after_all field_after (run_commands name op_remove run) (why_key name) v o
        ≡ (if has v (map value_of run) then none else o)
  unfolding after_all str_eq
  why_removes run v o = rw (str_eq_refl (why_key name)) refl

  run_meta :
      (op : Str) (run : List Delta) (v : Str) (o : Option Str)
      → after_all field_after (run_commands name op run) (meta_key name) v o ≡ o
  unfolding after_all
  run_meta op run v o = elim (Bool-cases (str_eq op op_add)) [
    | inl e ↦ rw e (rw why-meta refl)
    | inr e ↦ rw e (rw why-meta refl)
  ]

  pub delta_commands_meta :
      (n : ℕ) (ds : List Delta) (v : Str) (o : Option Str)
      → after_all field_after (delta_commands n name ds) (meta_key name) v o ≡ o
  unfolding delta_commands after_all
  delta_commands_meta zero ds v o = refl
  delta_commands_meta (suc n) [] v o = refl
  delta_commands_meta (suc n) (d ∷ ds) v o =
      let r = run_of d.op (d ∷ ds) in
      after_all-append field_after (run_commands name d.op r.0) (delta_commands n name r.1)
        (meta_key name) v o
      ∙ ap (after_all field_after (delta_commands n name r.1) (meta_key name) v)
          (run_meta d.op r.0 v o)
      ∙ delta_commands_meta n r.1 v o
