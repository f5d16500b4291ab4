-- ===== src/Store/Redis/Durable.antt =====
-- The server's copy of a set, and Commit, Reset and Drop of internal/state/state.go on it.
use placitum_keeper.Base.{
  ℕ, ◌≡◌, refl, ap, ◌∙◌, false, Str, str_eq, str_eq_refl, List, [], ◌∷◌, ◌++◌, length, All, codes,
  arith,
}
use placitum_keeper.Base.Floats.{float_of}
use placitum_keeper.Base.Int.{ℤ}
use placitum_keeper.Base.Maps.{Map, lookup, Distinct}
use placitum_keeper.Base.Text.{format_nat}
use placitum_keeper.Sets.Ideal.{replay}
use placitum_keeper.Sets.Types.{Entry, Delta}
use placitum_keeper.Store.Commands.{
  delta_commands, commit_commands, why_sep, set_value, h_set, Command,
}
use placitum_keeper.Store.Meta.{Meta, set_key, why_key, meta_key, diff_key, snap_key}
use placitum_keeper.Store.Meta.RoundTrip.{Writes}
use placitum_keeper.Store.Redis.{Redis, IsLawful, last_of, score_after, field_after, commit}
use placitum_keeper.Store.Redis.Commits.{
  delta_commands-replay, delta_commands_meta, score_adds, score_removes, why_adds, why_removes,
  meta-why,
}
use placitum_keeper.Store.Redis.Effects.{
  after_all, after_all-append, score-run_all, field-run_all, IsChange, read_by,
}
use placitum_keeper.Wire.Frames.{hex}

abbrev pub score_of : Entry → ℤ
score_of e = float_of e.exp

abbrev pub why_of : Entry → Str
why_of e = e.origin ++ (why_sep ∷ e.reason)

-- The server holds the content `w` of a set: the score of a value is its expiry, the field of a value
-- its origin and reason; and it holds the meta.
pub record Durable (R : Redis) (st : R.State) (name : Str) (m : Meta) (w : Map Entry) : Type 0 where
  pub score : (v : Str) → lookup v (R.scores st (set_key name)) ≡ read_by score_of (lookup v w)
  pub why : (v : Str) → lookup v (R.fields st (why_key name)) ≡ read_by why_of (lookup v w)
  pub meta : Writes (R.fields st (meta_key name)) m

-- The key of an object is none of the three keys of a set.
pub record IsForeign (key name : Str) : Type 0 where
  pub set : str_eq key (set_key name) ≡ false
  pub why : str_eq key (why_key name) ≡ false
  pub meta : str_eq key (meta_key name) ≡ false

pub diff_key-IsForeign : (n : Str) (seq : ℕ) (name : Str) → IsForeign (diff_key n seq) name
unfolding diff_key set_key why_key meta_key str_eq
diff_key-IsForeign n seq name = record { set = refl; why = refl; meta = refl }

pub snap_key-IsForeign :
    (n : Str) (epoch seq : ℕ) (name : Str) → IsForeign (snap_key n epoch seq) name
unfolding snap_key set_key why_key meta_key str_eq
snap_key-IsForeign n epoch seq name = record { set = refl; why = refl; meta = refl }

abbrev pub renewed : Meta → ℕ → ℕ → Meta
renewed m seq hash = record m { seq = seq; hash = hash }

module _ (R : Redis) (L : IsLawful R) (st : R.State) (name : Str) where
  module _ (ds : List Delta) (seq hash : ℕ) (key : Str) (pkg : List ℕ) (ttl : ℤ)
      (foreign : IsForeign key name) where
    abbrev tail : List Command
    tail =
        set_value key pkg ttl
        ∷ h_set (meta_key name) ((codes "seq", format_nat seq) ∷ (codes "hash", hex hash) ∷ [])
        ∷ []

    score-commit :
        (v : Str)
        → lookup v (R.scores (commit R st name ds seq hash key pkg ttl) (set_key name))
          ≡ after_all score_after
              (delta_commands (length ds) name ds)
              (set_key name)
              v
              (lookup v (R.scores st (set_key name)))
    unfolding commit commit_commands
    score-commit v =
        score-run_all R L (delta_commands (length ds) name ds ++ tail) st (set_key name) v
        ∙ after_all-append score_after (delta_commands (length ds) name ds) tail (set_key name) v _
        ∙ unfold after_all in rw foreign.set refl

    why-commit :
        (v : Str)
        → lookup v (R.fields (commit R st name ds seq hash key pkg ttl) (why_key name))
          ≡ after_all field_after
              (delta_commands (length ds) name ds)
              (why_key name)
              v
              (lookup v (R.fields st (why_key name)))
    unfolding commit commit_commands
    why-commit v =
        field-run_all R L (delta_commands (length ds) name ds ++ tail) st (why_key name) v
        ∙ after_all-append field_after (delta_commands (length ds) name ds) tail (why_key name) v _
        ∙ unfold after_all in rw (foreign.why, meta-why name) refl

    meta-commit :
        (v : Str)
        → lookup v (R.fields (commit R st name ds seq hash key pkg ttl) (meta_key name))
          ≡ last_of v
              ((codes "seq", format_nat seq) ∷ (codes "hash", hex hash) ∷ [])
              (lookup v (R.fields st (meta_key name)))
    unfolding commit commit_commands
    meta-commit v =
        field-run_all R L (delta_commands (length ds) name ds ++ tail) st (meta_key name) v
        ∙ after_all-append field_after (delta_commands (length ds) name ds) tail (meta_key name) v _
        ∙ ap (after_all field_after tail (meta_key name) v)
            (delta_commands_meta name (length ds) ds v (lookup v (R.fields st (meta_key name))))
        ∙ unfold after_all in rw (foreign.meta, str_eq_refl (meta_key name)) refl

    committed_meta :
        (m : Meta)
        → Writes (R.fields st (meta_key name)) m
        → Writes
            (R.fields (commit R st name ds seq hash key pkg ttl) (meta_key name))
            (renewed m seq hash)
    unfolding last_of str_eq
    committed_meta m w = record {
      id = meta-commit (codes "id") ∙ w.id;
      type = meta-commit (codes "type") ∙ w.type;
      epoch = meta-commit (codes "epoch") ∙ w.epoch;
      key = meta-commit (codes "key") ∙ w.key;
      seq = meta-commit (codes "seq");
      hash = meta-commit (codes "hash");
    }

    -- Commit keeps the server's copy in step: it holds the content with the deltas applied, and
    -- the meta with the number and the hash of the plan. The server meets the laws and held the
    -- content before, which has no value twice; each delta adds or removes, and the key of the
    -- package is none of the three keys of the set.
    pub commit-Durable :
        (m : Meta) (w : Map Entry)
        → Durable R st name m w
        → Distinct w
        → All IsChange ds
        → Durable R
            (commit R st name ds seq hash key pkg ttl)
            name
            (renewed m seq hash)
            (replay w ds)
    commit-Durable m w held dist changes = record {
      score = λ v.
          score-commit v
          ∙ ap (after_all score_after (delta_commands (length ds) name ds) (set_key name) v)
              (held.score v)
          ∙ delta_commands-replay score_after score_of _ (λ d. refl) name (set_key name)
              (score_adds name) (score_removes name) (length ds) ds w v (omega arith) dist changes;
      why = λ v.
          why-commit v
          ∙ ap (after_all field_after (delta_commands (length ds) name ds) (why_key name) v)
              (held.why v)
          ∙ delta_commands-replay field_after why_of _ (λ d. refl) name (why_key name)
              (why_adds name) (why_removes name) (length ds) ds w v (omega arith) dist changes;
      meta = committed_meta m (held.meta);
    }
