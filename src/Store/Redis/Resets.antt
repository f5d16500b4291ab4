-- ===== src/Store/Redis/Resets.antt =====
-- Reset of internal/state/state.go on the server's copy of a set.
use placitum_keeper.Base.{◌≡◌, refl, ◌∙◌, Bool, true, false, Str, str_eq, str_eq_refl, [], codes}
use placitum_keeper.Base.Maps.{Map, lookup}
use placitum_keeper.Sets.Types.{Entry}
use placitum_keeper.Store.Commands.{reset_commands}
use placitum_keeper.Store.Meta.{Meta, set_key, why_key, meta_key, meta_fields}
use placitum_keeper.Store.Meta.RoundTrip.{Writes}
use placitum_keeper.Store.Redis.{Redis, IsLawful, last_of, has, reset}
use placitum_keeper.Store.Redis.Commits.{meta-why, set-meta, why-meta, set-why}
use placitum_keeper.Store.Redis.Durable.{Durable}
use placitum_keeper.Store.Redis.Effects.{after_all, score-run_all, field-run_all}

module _ (R : Redis) (L : IsLawful R) (st : R.State) (name : Str) (m : Meta) where
  reset_meta :
      (keep : Bool) (v : Str)
      → lookup v (R.fields (reset R st name m keep) (meta_key name))
        ≡ last_of v (meta_fields m) (lookup v (R.fields st (meta_key name)))
  unfolding reset reset_commands
  reset_meta true v =
      field-run_all R L (reset_commands name m true) st (meta_key name) v
      ∙ unfold after_all in rw (str_eq_refl (meta_key name)) refl
  reset_meta false v =
      field-run_all R L (reset_commands name m false) st (meta_key name) v
      ∙ unfold after_all in
        unfold has in rw (str_eq_refl (meta_key name), set-meta name, why-meta name) refl

  reset-Writes : (keep : Bool) → Writes (R.fields (reset R st name m keep) (meta_key name)) m
  unfolding last_of meta_fields str_eq
  reset-Writes keep = record {
    id = reset_meta keep (codes "id");
    type = reset_meta keep (codes "type");
    epoch = reset_meta keep (codes "epoch");
    key = reset_meta keep (codes "key");
    seq = reset_meta keep (codes "seq");
    hash = reset_meta keep (codes "hash");
  }

  -- What is kept keeps its values.
  pub reset-Durable_kept :
      (old : Meta) (w : Map Entry)
      → Durable R st name old w
      → Durable R (reset R st name m true) name m w
  unfolding reset reset_commands
  reset-Durable_kept old w held = record {
    score = λ v.
        score-run_all R L (reset_commands name m true) st (set_key name) v
        ∙ unfold after_all in held.score v;
    why = λ v.
        field-run_all R L (reset_commands name m true) st (why_key name) v
        ∙ unfold after_all in rw (meta-why name) (held.why v);
    meta = reset-Writes true;
  }

  -- What is not kept is gone.
  pub reset-Durable_new : Durable R (reset R st name m false) name m []
  unfolding reset reset_commands lookup
  reset-Durable_new = record {
    score = λ v.
        score-run_all R L (reset_commands name m false) st (set_key name) v
        ∙ unfold after_all in unfold has in rw (str_eq_refl (set_key name)) refl;
    why = λ v.
        field-run_all R L (reset_commands name m false) st (why_key name) v
        ∙ unfold after_all in
          unfold has in rw (meta-why name, set-why name, str_eq_refl (why_key name)) refl;
    meta = reset-Writes false;
  }
